-- ===== src/Ledger/Configure.antt =====
-- ledger.py, `configure_account` (218-295): one quota observation of an account, and its aliases.
pub mod Observations
use inference_grid.Prelude.{
  ℕ, String, Bool, true, false, not, ◌||◌, ◌&&◌, ◌-◌, Option, none, some, List, [], ◌∷◌, ◌==◌, ltb,
  leb, if◌then◌else◌, update_rows, where_rows, first, is_empty,
}
use inference_grid.Prelude.Int.{ℤ, pos, negsuc, ltb_ℤ, leb_ℤ, eqb_ℤ, ◌+ℤ◌, pos_part}
use inference_grid.Value.{
  Value, Number, null, float, finite, Dict, str, obj, arr, num, of_dict, of_items, as_number,
  as_int, is_finite, amount, one, is_null,
}
use inference_grid.Result.{
  Result, ok, raised, refused, overflow_error, Error, ◌>>=◌, ◌>>◌, raise_if, or_raise,
}
use inference_grid.Ledger.State.{
  Quota, Account, Alias, Attempt, Observation, State, Clock, Env, is_done, reserved, account_row,
  alias_row, event,
}

-- The arguments of the call: the observation of an account.
pub record Reading : Type 0 where
  pub capacity : Value
  pub windows : Dict
  pub expires : Number
  pub models : List Value

-- A reading that passed its checks.
pub record Checked : Type 0 where
  pub capacity : ℕ
  pub windows : Quota
  pub expires : ℕ
  pub observed_at : ℤ

abbrev pub capacity_of : Value → Option ℕ
capacity_of (num (Number.int (pos n))) = if leb 1 n then some n else none
capacity_of _ = none

-- `math.isfinite(n)` with its OverflowError, and then the amount.
unfoldable pub finite_amount : Number → Error → Result ℤ
unfolding is_finite amount
finite_amount n e = elim (is_finite n) [
  | none ↦ raised overflow_error
  | some usable ↦ if usable then or_raise (amount n) e else raised e
]

unfoldable pub window_amounts : Dict → Result Quota
unfolding finite_amount
window_amounts [] = ok []
window_amounts ((k, v) ∷ d) = do
  n ← or_raise (as_number v) (refused "invalid remaining quota")
  q ← finite_amount n (refused "invalid remaining quota")
  raise_if (ltb_ℤ q (pos 0)) (refused "invalid remaining quota")
  rest ← window_amounts d
  ok ((k, pos_part q) ∷ rest)

-- `observed_at`, or the time of the call where it is None.
abbrev observation_number : ℕ → Value → Value
observation_number now null = num (float (finite (pos now)))
observation_number now v = v

unfoldable pub observation_time : Clock → Value → ℤ → Result ℤ
unfolding finite_amount one
observation_time clock observed_in expires = do
  n ←
      or_raise (as_number (observation_number (clock.time 1) observed_in))
        (refused "invalid observation timestamp")
  observed ← finite_amount n (refused "invalid observation timestamp")
  raise_if (ltb_ℤ (pos (clock.time 2) +ℤ pos one) observed || leb_ℤ expires observed)
      (refused "invalid observation timestamp")
  ok observed

-- The checks in front of the transaction (223-237).
unfoldable pub check_reading : Clock → Reading → Value → Result Checked
unfolding window_amounts observation_time finite_amount
check_reading clock r observed_in = do
  capacity ← or_raise (capacity_of r.capacity) (refused "invalid account configuration")
  raise_if (is_empty r.models || is_empty r.windows) (refused "invalid account configuration")
  expires ← finite_amount r.expires (refused "expired observation")
  raise_if (leb_ℤ expires (pos (clock.time 0))) (refused "expired observation")
  windows ← window_amounts r.windows
  observed ← observation_time clock observed_in expires
  ok (record {
    capacity = capacity;
    windows = windows;
    expires = pos_part expires;
    observed_at = observed;
  })

-- The digest of the reading as given (238-240).
unfoldable pub snapshot : Env → Reading → String
snapshot env r = env.digest (
    obj (
      of_dict (
        ("capacity", r.capacity)
        ∷ ("windows", obj (of_dict r.windows))
        ∷ ("expires", num r.expires)
        ∷ ("models", arr (of_items r.models))
        ∷ [])))

-- Completed work of the account that the observation predates.
abbrev pub unseen_completion : String → ℤ → Attempt → Bool
unseen_completion name observed r =
    (r.account == name) && (is_done r.state && ltb_ℤ observed (pos r.updated))

-- `{k: max(0, v - sum(e.get(k, 0) for e in completed))}`.
unfoldable pub less_completed : Clock → Quota → List Attempt → Quota
less_completed clock [] rows = []
less_completed clock ((k, v) ∷ windows) rows =
    (k, v - reserved clock k rows) ∷ less_completed clock windows rows

unfoldable pub observation_row : String → State → Option Observation
observation_row name s = first (λ o. o.account == name) s.observations

abbrev pub store_account : String → Checked → Quota → List Value → State → State
store_account name c windows models s = elim (account_row name s) [
  | none ↦ record s {
    accounts =
        record {
          id = name;
          capacity = c.capacity;
          generation = 0;
          windows = windows;
          expires = c.expires;
          models = models;
        }
        ∷ s.accounts;
  }
  | some _ ↦ record s {
    accounts =
        update_rows (λ a. a.id == name)
          (λ a. record a {
            capacity = c.capacity;
            windows = windows;
            expires = c.expires;
            models = models;
          })
          s.accounts;
  }
]

abbrev pub store_observation : String → ℤ → String → State → State
store_observation name observed digest s = elim (observation_row name s) [
  | none ↦ record s {
    observations =
        record { account = name; observed_at = observed; snapshot_digest = digest }
        ∷ s.observations;
  }
  | some _ ↦ record s {
    observations =
        update_rows (λ o. o.account == name)
          (λ o. record o { observed_at = observed; snapshot_digest = digest }) s.observations;
  }
]

abbrev observed_detail : String → ℤ → String → Dict
observed_detail name observed digest =
    ("account", str name)
    ∷ ("observed_at", num (float (finite observed)))
    ∷ ("snapshot_digest", str digest)
    ∷ []

-- A new observation: the account's row, the observation's row and the event (256-287).
unfoldable pub store_reading : Clock → String → Checked → List Value → String → State → State
unfolding less_completed observation_row
store_reading clock name c models digest s =
    let completed = where_rows (unseen_completion name c.observed_at) s.attempts in
    let windows = less_completed clock c.windows completed in
    event (clock.time 3) none "quota_observed" (observed_detail name c.observed_at digest)
      (store_observation name c.observed_at digest (store_account name c windows models s))

-- What the previous observation of the account allows (248-252): true for a replay.
unfoldable pub check_previous : ℤ → String → Option Observation → Result Bool
check_previous observed digest none = ok false
check_previous observed digest (some previous) = do
  raise_if (ltb_ℤ observed previous.observed_at) (refused "out-of-order quota observation")
  raise_if (eqb_ℤ observed previous.observed_at && not (digest == previous.snapshot_digest))
      (refused "observation identity reused with changed content")
  ok (eqb_ℤ observed previous.observed_at)

-- The alias loop (288-295).
unfoldable pub bind_aliases : String → List String → State → Result State
bind_aliases name [] s = ok s
bind_aliases name (alias ∷ rest) s = elim (alias_row alias s) [
  | none ↦
      bind_aliases name rest
        (record s { aliases = record { id = alias; account = name } ∷ s.aliases })
  | some existing ↦ do
    raise_if (not (existing.account == name)) (refused "alias reassignment prohibited")
    bind_aliases name rest s
]

unfoldable pub configure_account :
    Env → Clock → String → Reading → List String → Value → State → Result (Unit {0} × State)
unfolding check_reading check_previous store_reading bind_aliases snapshot observation_row
configure_account env clock name r alias_names observed_in s = do
  c ← check_reading clock r observed_in
  let digest = snapshot env r
  replay ← check_previous c.observed_at digest (observation_row name s)
  let s' = if replay then s else store_reading clock name c r.models digest s
  bound ← bind_aliases name (name ∷ alias_names) s'
  ok (tt, bound)
