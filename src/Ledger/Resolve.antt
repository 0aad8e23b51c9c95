-- ===== src/Ledger/Resolve.antt =====
-- ledger.py, `resolve` (599-660), `accept` (662-682), `record_outcome` (684-722) and `status`.
pub mod Holds
use inference_grid.Prelude.{
  ℕ, String, Bool, true, false, not, ◌||◌, ◌&&◌, ◌+◌, ◌-◌, Option, none, some, List, [], ◌∷◌, ◌==◌,
  ltb, leb, eqb, if◌then◌else◌, any, all, first, length, is_empty, where_rows, update_rows, map,
}
use inference_grid.Prelude.Int.{ℤ, pos, negsuc, ltb_ℤ}
use inference_grid.Prelude.Text.{codes, codes_eq, text_length, strip, lower, is_blank}
use inference_grid.Value.{
  Value, Number, Dict, str, null, bool, obj, of_dict, as_str, as_dict, as_int, as_number, is_str,
  truthy, value_eq, is_finite, amount, is_null, is_object,
}
use inference_grid.Result.{
  Result, ok, raised, refused, overflow_error, no_result_found, ◌>>=◌, ◌>>◌, raise_if, or_raise,
}
use inference_grid.Ledger.State.{
  Quota, Account, Attempt, State, Clock, Env, AttemptState, completed, accepted, abandoned, failed,
  is_active, is_held, is_done, item, account_row, task_row, attempt_row, event,
}
use inference_grid.Ledger.Dispatch.{debit, debit_account}

-- `MACHINE_OPERATORS`.
abbrev pub machine_operators : List String
machine_operators =
    "coordinator" ∷ "board runner" ∷ "board-runner" ∷ "runner" ∷ "system" ∷ "automation" ∷ "bot"
    ∷ "grid" ∷ []

-- `operator.strip().lower() in MACHINE_OPERATORS`. Of the code points outside ASCII only the Kelvin
-- sign has a lower case in ASCII, `k`, which none of these names holds.
unfoldable pub is_machine : String → Bool
unfolding strip
is_machine name = any (λ m. codes_eq (lower (strip (codes name))) (codes m)) machine_operators

-- A text that is not blank, of at most `limit` code points.
unfoldable pub bounded_text : ℕ → Value → Option String
unfolding is_blank
bounded_text limit (str s) = if is_blank s || ltb limit (text_length s) then none else some s
bounded_text limit _ = none

pub data Resolution : Type 0 where
  released consumed : Resolution

unfoldable pub resolution : Value → Option Resolution
resolution v =
    if is_str "released" v
    then some released
    else if is_str "consumed" v
    then some consumed
    else none

abbrev pub resolved_state : Resolution → AttemptState
resolved_state released = abandoned
resolved_state consumed = failed

abbrev pub resolution_text : Resolution → String
resolution_text released = "released"
resolution_text consumed = "consumed"

abbrev pub state_text : Resolution → String
state_text released = "abandoned"
state_text consumed = "failed"

abbrev pub resolvable : String → Attempt → Bool
resolvable aid r = (r.id == aid) && is_held r.state

-- The debit of a consumed reservation; a released one debits nothing.
unfoldable pub settle_quota : Resolution → Attempt → State → Result State
settle_quota released row s = ok s
settle_quota consumed row s = do
  acct ← or_raise (account_row row.account s) no_result_found
  ok (debit_account row.account (debit acct.windows row.estimate) s)

abbrev evidence_digest : Env → Value → Value
evidence_digest env null = null
evidence_digest env v = str (env.digest v)

abbrev resolution_detail : Env → Resolution → String → Value → String → Value → Dict
resolution_detail env outcome reason held_reason operator evidence =
    ("outcome", str (resolution_text outcome))
    ∷ ("state", str (state_text outcome))
    ∷ ("reason", str reason)
    ∷ ("held_reason", held_reason)
    ∷ ("operator", str operator)
    ∷ ("evidence_digest", evidence_digest env evidence)
    ∷ []

abbrev pub set_resolved : Clock → String → Resolution → State → State
set_resolved clock aid outcome s = record s {
  attempts =
      update_rows (resolvable aid)
        (λ r. record r { state = resolved_state outcome; updated = clock.time 0 }) s.attempts;
}

unfoldable pub resolve :
    Env → Clock → String → Value → Value → Value → Value → State → Result (AttemptState × State)
resolve env clock aid outcome_in reason_in operator_in evidence s = do
  outcome ← or_raise (resolution outcome_in) (refused "outcome must be released or consumed")
  reason ← or_raise (bounded_text 500 reason_in) (refused "bounded resolution reason required")
  operator ← or_raise (bounded_text 100 operator_in) (refused "operator attestation required")
  raise_if (is_machine operator) (refused "holds are resolved by a human operator")
  raise_if (not (is_null evidence) && not (is_object evidence))
      (refused "evidence must be an object")
  row ← or_raise (attempt_row aid s) (refused "unknown attempt")
  raise_if (not (is_held row.state)) (refused "only held attempts can be resolved")
  raise_if (not (eqb (length (where_rows (resolvable aid) s.attempts)) 1))
      (refused "attempt changed during resolution")
  settled ← settle_quota outcome row (set_resolved clock aid outcome s)
  ok (
    resolved_state outcome,
    event (clock.time 1) (some aid) "operator_resolved"
        (resolution_detail env outcome reason row.reason operator evidence) settled,
  )

abbrev accept_row : String → State → State
accept_row aid s = record s {
  attempts = update_rows (λ r. r.id == aid) (λ r. record r { state = accepted }) s.attempts;
}

abbrev pub is_completed : AttemptState → Bool
is_completed completed = true
is_completed _ = false

unfoldable pub accept :
    Env → Clock → String → Value → Value → Value → State → Result (Unit {0} × State)
accept env clock aid receipt_digest reviewer_family verdict s = do
  row ← or_raise (attempt_row aid s) no_result_found
  task ← or_raise (task_row row.task s) no_result_found
  raise_if (not (is_completed row.state) || not (is_str (env.digest row.receipt) receipt_digest))
      (refused "candidate changed or not completed")
  raise_if (not (truthy reviewer_family)) (refused "independent approved review required")
  family ← item "family" task.spec
  raise_if (value_eq reviewer_family family || not (is_str "approved" verdict))
      (refused "independent approved review required")
  ok (
    tt,
    event (clock.time 0) (some aid) "operator_accepted"
        (("reviewer_family", reviewer_family) ∷ ("receipt_digest", receipt_digest) ∷ [])
        (accept_row aid s),
  )
