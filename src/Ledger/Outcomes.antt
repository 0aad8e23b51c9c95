-- ===== src/Ledger/Outcomes.antt =====
-- ledger.py, `record_outcome` (684-722) and `record_external` (724-792).
pub mod External
use inference_grid.Prelude.{
  ℕ, ◌+◌, String, Bool, true, false, not, ◌||◌, ◌&&◌, Option, none, some, List, [], ◌∷◌, ◌==◌, ltb,
  if◌then◌else◌,
}
use inference_grid.Prelude.Int.{pos, ltb_ℤ}
use inference_grid.Prelude.Text.{text_length, is_text}
use inference_grid.Value.{
  Value, Number, int, Dict, null, bool, num, str, obj, as_str, as_dict, as_int, as_number, get?,
  get_value, set_key, is_finite, amount, is_str, dict, of_dict, or_else, is_neg_inf,
}
use inference_grid.Result.{
  Result, ok, raised, refused, type_error, overflow_error, integrity_error, ◌>>=◌, ◌>>◌, raise_if,
  or_raise, Error,
}
use inference_grid.Ledger.State.{
  Attempt, State, Clock, clock_behind, Env, completed, is_active, is_done, account_row, task_row,
  attempt_row, event, is_known, is_taken,
}
use inference_grid.Ledger.Resolve.{bounded_text}
use inference_grid.Ledger.Submit.{check_submission, check_workspace, store_task}

abbrev bad_usage : Error
bad_usage = refused "usage must map names to finite nonnegative numbers or be absent"

-- One value of a usage map: a finite number that is not negative.
check_usage_number : Number → Result (Unit {0})
unfolding is_finite amount
check_usage_number n = elim (is_finite n) [
  | none ↦ raised overflow_error
  | some usable ↦ elim (amount n) [
    | none ↦ raised bad_usage
    | some q ↦ raise_if (not usable || ltb_ℤ q (pos 0)) bad_usage
  ]
]

check_usage_values : Dict → Result (Unit {0})
unfolding check_usage_number
check_usage_values [] = ok tt
check_usage_values ((k, v) ∷ d) = do
  n ← or_raise (as_number v) bad_usage
  check_usage_number n
  check_usage_values d

-- A JSON object's keys are texts.
unfoldable pub check_usage : Value → Result (Unit {0})
unfolding check_usage_values
check_usage null = ok tt
check_usage (obj fs) = check_usage_values (dict fs)
check_usage _ = raised bad_usage

abbrev is_count : Value → Bool
is_count (num (int (pos n))) = true
is_count _ = false

abbrev is_note : Value → Bool
is_note null = true
is_note (str s) = not (ltb 300 (text_length s))
is_note _ = false

abbrev pub as_bool : Value → Option Bool
as_bool (bool b) = some b
as_bool _ = none

-- The evaluation arguments of an outcome.
pub record Outcome : Type 0 where
  pub category : Value
  pub accepted : Value
  pub usage : Value
  pub repairs : Value
  pub note : Value

abbrev outcome_detail : Outcome → Dict
outcome_detail o =
    ("category", o.category)
    ∷ ("accepted", o.accepted)
    ∷ ("usage", o.usage)
    ∷ ("repairs", o.repairs)
    ∷ ("note", o.note)
    ∷ []

unfoldable pub record_outcome : Clock → String → Outcome → State → Result (Unit {0} × State)
unfolding check_usage
record_outcome clock aid o s = do
  category ← or_raise (bounded_text 60 o.category) (refused "bounded task category required")
  accepted ← or_raise (as_bool o.accepted) (refused "accepted must be a boolean")
  check_usage o.usage
  raise_if (not (is_count o.repairs)) (refused "repairs must be a nonnegative integer")
  raise_if (not (is_note o.note)) (refused "bounded note required")
  row ← or_raise (attempt_row aid s) (refused "unknown attempt")
  raise_if (is_active row.state) (refused "outcome requires a terminal attempt")
  raise_if (accepted && not (is_done row.state))
      (refused "only completed work can be marked accepted")
  ok (tt, event (clock.time 0) (some aid) "outcome_recorded" (outcome_detail o) s)

-- `type(receipt.get("elapsed_s", 0)) in (int, float)` and the value is not negative; nan passes.
unfoldable pub is_elapsed : Option Value → Bool
unfolding amount
is_elapsed none = true
is_elapsed (some (num n)) = elim (amount n) [
  | none ↦ not (is_neg_inf n)
  | some q ↦ not (ltb_ℤ q (pos 0))
]
is_elapsed (some _) = false

abbrev is_bool : Value → Bool
is_bool (bool b) = true
is_bool _ = false

abbrev pub external_attempt : String → String → String → ℕ → String → Value → ℕ → Attempt
external_attempt aid task account gen workspace receipt now = record {
  id = aid;
  task = task;
  account = account;
  generation = gen;
  state = completed;
  estimate = [];
  workspace = workspace;
  receipt = receipt;
  reason = null;
  updated = now;
}

abbrev provenance : Dict
provenance = ("provenance", str "operator") ∷ []

-- The first transaction: the task and its attempt, born completed.
unfoldable pub insert_external :
    Env
    → Clock
    → String
    → String
    → String
    → Dict
    → Value
    → Value
    → State
    → Result (Unit {0} × State)
insert_external env clock aid task project spec_in receipt_in category s = do
  workspace ← check_workspace spec_in
  account ← or_raise (as_str (get_value "account" spec_in)) (refused "account required")
  raise_if (not (is_text account)) (refused "account required")
  receipt ←
      or_raise (as_dict receipt_in)
        (refused "receipt must say whether the lane verified its own work")
  raise_if (not (is_bool (get_value "verified_in_lane" receipt)))
      (refused "receipt must say whether the lane verified its own work")
  raise_if (is_str "canary" category) (refused "external work cannot qualify a lane")
  raise_if (not (is_elapsed (get? "elapsed_s" receipt)))
      (refused "elapsed_s must be a nonnegative number")
  let path = env.resolve workspace
  let spec = set_key "provenance" (str "operator") (set_key "workspace" (str path) spec_in)
  acct ← or_raise (account_row account s) (refused "unknown account")
  raise_if (is_known task s) (refused "task already recorded; external work is written once")
  raise_if (is_taken aid s) integrity_error
  let stored = obj (of_dict (set_key "provenance" (str "operator") receipt))
  let r = external_attempt aid task account acct.generation path stored (clock.time 0)
  let s' = store_task task project spec s
  ok (
    tt,
    event (clock.time 1) (some aid) "external_recorded" provenance
        (record s' { attempts = r ∷ s'.attempts }),
  )

-- A second transaction behind a first: where it raises, the first one stands.
abbrev pub then_tx : State → Result (Unit {0} × State) → Result (Unit {0}) × State
then_tx s (raised e) = (raised e, s)
then_tx s (ok (_, s')) = (ok tt, s')

abbrev pub record_behind :
    Clock → String → Outcome → State → Result (Unit {0} × State) → Result (Unit {0}) × State
record_behind clock aid o s (raised e) = (raised e, s)
record_behind clock aid o s (ok (_, s')) =
    then_tx s' (record_outcome (clock_behind 2 clock) aid o s')

-- The tables behind the call: the first transaction stands also where the outcome is refused.
unfoldable pub record_external :
    Env
    → Clock
    → String
    → String
    → String
    → Dict
    → Value
    → Outcome
    → State
    → Result (Unit {0}) × State
record_external env clock aid task project spec receipt o s = record_behind clock aid o s (
    check_submission task project spec >>= λ _.
    insert_external env clock aid task project spec receipt o.category s)
