-- ===== src/Collector/Published.antt =====
-- What `publish_observation` (src/inference_grid/collector.py) lets into the ledger.
use inference_grid.Prelude.{ℕ, String, false, ◌≡◌, Option, some, List}
use inference_grid.Prelude.Int.{ℤ, pos, leb_ℤ}
use inference_grid.Value.{Value, Dict, as_dict, as_list, get_value}
use inference_grid.Result.{Result, ok}
use inference_grid.Ledger.State.{State, Clock, Env, Alias, alias_row}
use inference_grid.Ledger.Configure.Observations.{IsConfigured}
use inference_grid.Observation.{Observed, normalize_observation}
use inference_grid.Collector.Converted.{IsRemaining}
use inference_grid.Collector.{bounded_number}
use inference_grid.Collector.Publish.{
  Arithmetic, Publication, unconvertible, ledger_refused, stale_since, published, fresh_until,
  reading_of, observed_value,
}

-- A reading that was normalized, and the windows that were made of it.
record IsRead (floats : Arithmetic) (iso : String → Option (Option ℤ)) (observation units : Value)
    (now : ℕ) (out : Observed × Dict) : Type 0 where
  normalized : normalize_observation iso observation now ≡ ok out.0
  measured : IsRemaining floats out.0 units out.1

module _ (floats : Arithmetic) (iso : String → Option (Option ℤ)) (env : Env) (clock times : Clock)
    (alias : String) (observation plan_in freshness_in capacity : Value) (s : State) where
  -- A reading that reaches the tables, through the ledger's own checks.
  pub record IsLetIn (account : String) (at : String) (windows : Dict) (s' : State) : Type 0 where
    pub plan : Dict
    pub models : List Value
    pub freshness : ℕ
    pub reading : Observed
    pub binding : Alias
    pub planned : as_dict plan_in ≡ some plan
    pub named : as_list (get_value "models" plan) ≡ some models
    pub bounded : bounded_number 86400 freshness_in ≡ some freshness
    pub normalized : normalize_observation iso observation (times.time 0) ≡ ok reading
    pub measured : IsRemaining floats reading (get_value "units" plan) windows
    pub taken_at : reading.observed_at ≡ at
    pub fresh : leb_ℤ (fresh_until reading freshness) (pos (times.time 1)) ≡ false
    pub bound : alias_row alias s ≡ some binding
    pub account_of : binding.account ≡ account
    pub configured :
        IsConfigured env clock account
          (reading_of capacity models freshness reading windows)
          (observed_value reading)
          s
          s'

  pub data IsPublished : Publication × State → Type 0 where
    not_convertible : IsPublished (unconvertible, s)
    not_fresh : {at : String} → IsPublished (stale_since at, s)
    not_taken : IsPublished (ledger_refused, s)
    let_in :
        {account at : String} {windows : Dict} {s' : State}
        → IsLetIn account at windows s'
        → IsPublished (published account at windows, s')
