-- ===== src/Ledger/Calls.antt =====
-- The public calls of `Ledger` (ledger.py) as data, and their effect on the tables, one transaction
-- after another: `tx` serializes writers, so a history is a list of calls.
pub mod Effects
pub mod History
pub mod Recovery
use inference_grid.Prelude.{ℕ, String, List, [], ◌∷◌}
use inference_grid.Value.{Value, Dict}
use inference_grid.Ledger.State.{State, Clock, Env, tx}
use inference_grid.Ledger.Claim.{claim}
use inference_grid.Ledger.Dispatch.{start, hold, finish}
use inference_grid.Ledger.Resolve.{resolve, accept}
use inference_grid.Ledger.Submit.{submit}
use inference_grid.Ledger.Outcomes.{Outcome, record_outcome, record_external}
use inference_grid.Ledger.Cooldowns.{defer}
use inference_grid.Ledger.Configure.{Reading, configure_account}
use inference_grid.Ledger.Lanes.{record_lane}

pub data Call : Type 0 where
  configures : String → Reading → List String → Value → Call
  submits : String → String → Dict → Call
  defers : String → String → Value → Call
  claims : String → String → String → Dict → Call
  starts : String → ℕ → Call
  holds : String → String → Call
  finishes : String → ℕ → Value → Call
  records_lane : String → Value → Call
  resolves : String → Value → Value → Value → Value → Call
  accepts : String → Value → Value → Value → Call
  records_outcome : String → Outcome → Call
  records_external : String → String → String → Dict → Value → Outcome → Call

module _ (env : Env) where
  unfoldable pub perform : Clock → Call → State → State
  perform clock (configures name r aliases observed) s =
      tx s (configure_account env clock name r aliases observed s)
  perform clock (submits task project spec) s = tx s (submit env task project spec s)
  perform clock (defers alias endpoint until) s = tx s (defer clock alias endpoint until s)
  perform clock (claims aid task alias estimate) s = tx s (claim clock aid task alias estimate s)
  perform clock (starts aid generation) s = tx s (start clock aid generation s)
  perform clock (holds aid reason) s = hold clock aid reason s
  perform clock (finishes aid generation receipt) s =
      tx s (finish env clock aid generation receipt s)
  perform clock (records_lane provider facts) s = tx s (record_lane clock provider facts s)
  perform clock (resolves aid outcome reason operator evidence) s =
      tx s (resolve env clock aid outcome reason operator evidence s)
  perform clock (accepts aid digest family verdict) s =
      tx s (accept env clock aid digest family verdict s)
  perform clock (records_outcome aid o) s = tx s (record_outcome clock aid o s)
  perform clock (records_external aid task project spec receipt o) s =
      (record_external env clock aid task project spec receipt o s).1

  -- A history of calls, each with its clock.
  unfoldable pub run : List (Clock × Call) → State → State
  run [] s = s
  run ((clock, call) ∷ calls) s = run calls (perform clock call s)

-- The tables behind `initialize`: DEFAULT_ACCOUNTS is empty, so nothing is seeded.
abbrev pub initial : State
initial = record {
  accounts = [];
  cooldowns = [];
  observations = [];
  aliases = [];
  tasks = [];
  attempts = [];
  events = [];
  lanes = [];
}
