-- ===== src/Ledger/Dispatch.antt =====
-- ledger.py, `start` (466-531), `hold` (533-541), `finish` (543-574) and `hold_abandoned` (851-863).
pub mod Gate
pub mod Fence
use inference_grid.Prelude.{
  ℕ, String, Bool, true, false, not, ◌||◌, ◌&&◌, ◌+◌, ◌-◌, Option, none, some, List, [], ◌∷◌, ◌==◌,
  ltb, leb, eqb, if◌then◌else◌, any, first, length, is_empty, where_rows, update_rows,
}
use inference_grid.Prelude.Text.{join}
use inference_grid.Value.{Value, Dict, str, null}
use inference_grid.Result.{
  Result, ok, raised, refused, no_result_found, ◌>>=◌, ◌>>◌, raise_if, or_raise,
}
use inference_grid.Receipts.{validate_receipt}
use inference_grid.Ledger.State.{
  Quota, Account, Attempt, State, Clock, Env, queued, dispatching, held, completed, is_queued,
  is_dispatching, amount_of, reserved, same_keys, item, account_row, task_row, attempt_row,
  has_model, count_value, event,
}
use inference_grid.Ledger.Claim.{inference_paused, holds_account}

-- `any(sum(e.get(k, 0) for e in reserved) > v for k, v in windows.items())`.
unfoldable pub over_budget : Clock → Quota → List Attempt → Bool
over_budget clock [] rows = false
over_budget clock ((k, v) ∷ windows) rows =
    ltb v (reserved clock k rows) || over_budget clock windows rows

abbrev changed_windows : Quota → List Attempt → Bool
changed_windows windows rows = any (λ r. not (same_keys r.estimate windows)) rows

-- `expires <= now or spec["model"] not in models`, where the second test may raise.
stale_or_ineligible : ℕ → Dict → Account → Result Bool
stale_or_ineligible now spec acct =
    if leb acct.expires now
    then ok true
    else (do model ← item "model" spec; ok (not (has_model model acct)))

-- Whether an admission no longer stands when it is about to be dispatched.
unfoldable pub admission_lost : Clock → Attempt → Dict → Account → State → Result Bool
unfolding stale_or_ineligible over_budget inference_paused
admission_lost clock prior spec acct s = do
  let rows = where_rows (holds_account prior.account) s.attempts
  stale ← stale_or_ineligible (clock.time 1) spec acct
  ok (
      stale
      || (over_budget clock acct.windows rows
          || (ltb acct.capacity (length rows)
              || (changed_windows acct.windows rows
                  || inference_paused (clock.time 0) prior.account s))))

abbrev pub lost_reason : Bool → String
lost_reason true = "provider inference cooldown requires reconciliation"
lost_reason false = "admission observation expired or model, quota windows, or capacity changed"

abbrev pub reason_detail : String → Dict
reason_detail reason = ("reason", str reason) ∷ []

-- The attempt is held; this update leaves `updated` alone.
abbrev pub hold_lost : Clock → String → Bool → State → State
hold_lost clock aid paused s =
    event (clock.time 3) (some aid) "reconciliation_required"
      (reason_detail "stale or changed admission")
      (record s {
        attempts =
            update_rows (λ r. (r.id == aid) && is_queued r.state)
              (λ r. record r { state = held; reason = str (lost_reason paused) }) s.attempts;
      })

abbrev pub dispatchable : String → ℕ → Attempt → Bool
dispatchable aid generation r = (r.id == aid) && (eqb r.generation generation && is_queued r.state)

abbrev pub dispatch : Clock → String → ℕ → State → State
dispatch clock aid generation s = event (clock.time 3) (some aid) "dispatch_intent" [] (record s {
  attempts =
      update_rows (dispatchable aid generation)
        (λ r. record r { state = dispatching; updated = clock.time 2 }) s.attempts;
})

-- `start` of a queued row of this generation: held, or dispatched.
unfoldable pub start_row : Clock → Attempt → State → Result (Option (Attempt × Dict) × State)
start_row clock prior s = do
  acct ← or_raise (account_row prior.account s) no_result_found
  job ← or_raise (task_row prior.task s) no_result_found
  lost ← admission_lost clock prior job.spec acct s
  ok (
      if lost
      then (none, hold_lost clock prior.id (inference_paused (clock.time 0) prior.account s) s)
      else (
        some (record prior { state = dispatching; updated = clock.time 2 }, job.spec),
        dispatch clock prior.id prior.generation s,
      ))

-- `None`, or the dispatched row with its task's spec.
unfoldable pub start : Clock → String → ℕ → State → Result (Option (Attempt × Dict) × State)
unfolding start_row
start clock aid generation s = elim (attempt_row aid s) [
  | none ↦ ok (none, s)
  | some prior ↦
      if eqb prior.generation generation && is_queued prior.state
      then start_row clock prior s
      else ok (none, s)
]

abbrev pub held_while_dispatching : String → Attempt → Bool
held_while_dispatching aid r = (r.id == aid) && is_dispatching r.state

-- The update writes nothing where no row is dispatching, and then no event is recorded.
unfoldable pub hold : Clock → String → String → State → State
hold clock aid reason s =
    let held_state = record s {
      attempts =
          update_rows (held_while_dispatching aid)
            (λ r. record r { state = held; reason = str reason; updated = clock.time 0 })
            s.attempts;
    } in
    if is_empty (where_rows (held_while_dispatching aid) s.attempts)
    then held_state
    else event (clock.time 1) (some aid) "reconciliation_required" (reason_detail reason) held_state

abbrev pub completable : String → ℕ → Attempt → Bool
completable aid generation r =
    (r.id == aid) && (eqb r.generation generation && is_dispatching r.state)

-- `{k: max(0, v - estimate.get(k, 0)) for k, v in windows.items()}`.
abbrev pub debit : Quota → Quota → Quota
debit [] estimate = []
debit ((k, v) ∷ windows) estimate = (k, v - amount_of k estimate) ∷ debit windows estimate

abbrev pub debit_account : String → Quota → State → State
debit_account account windows s = record s {
  accounts = update_rows (λ a. a.id == account) (λ a. record a { windows = windows }) s.accounts;
}

abbrev pub complete : Clock → String → ℕ → Value → State → State
complete clock aid generation receipt s = record s {
  attempts =
      update_rows (completable aid generation)
        (λ r. record r { state = completed; receipt = receipt; updated = clock.time 0 }) s.attempts;
}

unfoldable pub finish : Env → Clock → String → ℕ → Value → State → Result (Unit {0} × State)
finish env clock aid generation receipt s = do
  row ← or_raise (attempt_row aid s) no_result_found
  task ← or_raise (task_row row.task s) no_result_found
  model ← item "model" task.spec
  manifest ← item "manifest_sha256" task.spec
  let errors = validate_receipt receipt model manifest
  raise_if (not (is_empty errors)) (refused (join "; " errors))
  raise_if (not (eqb (length (where_rows (completable aid generation) s.attempts)) 1))
      (refused "stale completion or ambiguous attempt")
  acct ← or_raise (account_row row.account s) no_result_found
  ok (
    tt,
    event (clock.time 1) (some aid) "native_completed"
        (("receipt_digest", str (env.digest receipt)) ∷ [])
        (debit_account row.account (debit acct.windows row.estimate)
          (complete clock aid generation receipt s)),
  )

-- `hold_abandoned`: the ids are read first, and each is held in a transaction of its own.
abbrev pub abandoned_ids : ℕ → List Attempt → List String
abandoned_ids before [] = []
abandoned_ids before (r ∷ rows) =
    let rest = abandoned_ids before rows in
    if is_dispatching r.state && ltb r.updated before then r.id ∷ rest else rest

pub hold_each : (ℕ → Clock) → ℕ → List String → State → State
unfolding hold
hold_each clocks i [] s = s
hold_each clocks i (aid ∷ ids) s =
    hold_each clocks (i + 1) ids
      (hold (clocks i) aid "worker recovery requires native reconciliation" s)

unfoldable pub hold_abandoned : (ℕ → Clock) → ℕ → State → ℕ × State
unfolding hold_each
hold_abandoned clocks before s =
    let ids = abandoned_ids before s.attempts in (length ids, hold_each clocks 0 ids s)
