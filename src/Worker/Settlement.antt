-- ===== src/Worker/Settlement.antt =====
-- What `execute` (src/inference_grid/worker.py) leaves of the attempt that it started.
use inference_grid.Prelude.{
  ℕ, String, false, ◌≡◌, refl, subst, ◌==◌, inl, inr, some, List, [], ◌∷◌, arith, first-update_rows,
  first-holds, Bool-cases,
}
use inference_grid.Value.{Value, Dict, str}
use inference_grid.Result.{Result, ok, raised, Error, Result-cases}
use inference_grid.Ledger.State.{
  AttemptState, held, completed, is_queued, is_dispatching, Attempt, State, Clock, Env, attempt_row,
  event,
}
use inference_grid.Ledger.Dispatch.{start, hold, finish, held_while_dispatching}
use inference_grid.Ledger.Dispatch.Gate.{start-IsDispatched}
use inference_grid.Ledger.Dispatch.Fence.{finish-IsFinished}
use inference_grid.Ledger.Lifecycle.{
  stay, dispatch, lose, hold as hold_move, complete, release, consume, approve,
}
use inference_grid.Ledger.Calls.{Call, run, starts, perform}
use inference_grid.Ledger.Calls.History.{
  IsReachable, run-IsReachable, Reaches, here, next, run-Stays,
}
use inference_grid.Worker.{Host, execute, settle, work, is_running, cleaned}

-- An attempt that is neither waiting nor running.
pub record IsOver (st : AttemptState) : Type 0 where
  pub not_queued : is_queued st ≡ false
  pub not_dispatching : is_dispatching st ≡ false

Reaches-unqueued :
    {st st' : AttemptState} → Reaches st st' → is_queued st ≡ false → is_queued st' ≡ false
Reaches-unqueued here h = h
Reaches-unqueued (next stay r) h = Reaches-unqueued r h
Reaches-unqueued (next dispatch r) h = cc
Reaches-unqueued (next lose r) h = cc
Reaches-unqueued (next hold_move r) h = Reaches-unqueued r refl
Reaches-unqueued (next complete r) h = Reaches-unqueued r refl
Reaches-unqueued (next release r) h = Reaches-unqueued r refl
Reaches-unqueued (next consume r) h = Reaches-unqueued r refl
Reaches-unqueued (next approve r) h = Reaches-unqueued r refl

hold-attempts :
    (clock : Clock) (aid reason : String) (s : State) (r : Attempt)
    → attempt_row aid s ≡ some r
    → is_queued r.state ≡ false
    → (r' : Attempt) × (attempt_row aid (hold clock aid reason s) ≡ some r') × IsOver r'.state
unfolding hold event
hold-attempts clock aid reason s r known h =
    let found =
      first-update_rows (λ (q : Attempt). q.id == aid) (held_while_dispatching aid)
        (λ (q : Attempt). record q { state = held; reason = str reason; updated = clock.time 0 })
        (λ x. refl) s.attempts r known in
    let same = first-holds (λ (q : Attempt). q.id == aid) s.attempts r known in
    elim (Bool-cases (is_dispatching r.state)) [
      | inl active ↦ (
        record r { state = held; reason = str reason; updated = clock.time 0 },
        ground (arith, found, same, active),
        record { not_queued = refl; not_dispatching = refl },
      )
      | inr idle ↦
          (r, ground (arith, found, same, idle), record { not_queued = h; not_dispatching = idle })
    ]

-- What the answer of `execute` says of the attempt.
pub data IsSettledAs (verdict : Result Value) (r : Attempt) : String → Type 0 where
  as_completed :
      (receipt : Value)
      → verdict ≡ ok receipt
      → r.state ≡ completed
      → r.receipt ≡ receipt
      → IsSettledAs verdict r "completed"
  as_held : IsOver r.state → IsSettledAs verdict r "held"

pub record IsSettlement (aid : String) (verdict : Result Value) (out : String × State)
    : Type 0 where
  pub attempt : Attempt
  pub row : attempt_row aid out.1 ≡ some attempt
  pub settled : IsSettledAs verdict attempt out.0
  pub over : IsOver attempt.state

module _ (host : Host) (env : Env) (clock : Clock) (aid : String) (generation : ℕ) (s : State) where
  settle-held :
      (verdict : Result Value) (e : Error) (r : Attempt)
      → attempt_row aid s ≡ some r
      → is_queued r.state ≡ false
      → IsSettlement aid verdict ("held", hold clock aid (host.describe e) s)
  settle-held verdict e r known h =
      let (r', found, over) = hold-attempts clock aid (host.describe e) s r known h in
      record { attempt = r'; row = found; settled = as_held over; over = over }

  settle-IsSettlement :
      (verdict : Result Value) (r : Attempt)
      → IsReachable s
      → attempt_row aid s ≡ some r
      → is_queued r.state ≡ false
      → IsSettlement aid verdict (settle host env clock aid generation verdict s)
  unfolding settle
  settle-IsSettlement (raised e) r reachable known h = settle-held (raised e) e r known h
  settle-IsSettlement (ok receipt) r reachable known h =
      elim (Result-cases (finish env clock aid generation receipt s)) [
        | inl ((u, s'), e) ↦
            let f = finish-IsFinished env clock aid generation receipt s s' reachable.sound e in
            let (now, row) = f.row in
            rw (e, settle)
              (record {
                attempt = record f.prior { state = completed; receipt = receipt; updated = now };
                row = row;
                settled = as_completed receipt refl refl refl;
                over = record { not_queued = refl; not_dispatching = refl };
              })
        | inr (e, raised_by) ↦ rw (raised_by, settle) (settle-held (ok receipt) e r known h)
      ]

-- Whatever other calls the ledger serves while the process runs, and however the process, the file
-- system and the receipt behave, an attempt that `execute` started is over when it returns: completed
-- with the receipt that its checks passed, where the answer is to be "completed", and otherwise
-- neither waiting nor running. It is never left dispatching.
pub execute_settles :
    (host : Host) (env : Env) (fuel : ℕ) (clock clock' : Clock) (others : List (Clock × Call))
    (aid : String) (generation : ℕ) (s s' : State) (r : Attempt) (spec : Dict)
    → IsReachable s
    → start clock aid generation s ≡ ok (some (r, spec), s')
    → (answer : String) × ((execute host env fuel clock clock' others aid generation s).0
        ≡ cleaned host (is_running host env fuel aid spec) answer)
      × IsSettlement aid
          (work host env fuel aid spec)
          (answer, (execute host env fuel clock clock' others aid generation s).1)
unfolding execute run perform
execute_settles host env fuel clock clock' others aid generation s s' r spec reachable started =
    let d = start-IsDispatched clock aid generation s r spec s' started in
    let after : IsReachable s' =
      subst IsReachable (rw started refl)
        (run-IsReachable env ((clock, starts aid generation) ∷ []) s reachable) in
    let (q, found, stays) = run-Stays env others s' aid r after d.row in
    let unqueued : is_queued r.state ≡ false = rw d.now_dispatching refl in
    let settled =
      settle-IsSettlement host env clock' aid generation (run env others s')
        (work host env fuel aid spec) q (run-IsReachable env others s' after) found
        (Reaches-unqueued stays.reaches unqueued) in
    rw (started, execute)
      (
        (settle host env clock' aid generation (work host env fuel aid spec) (run env others s')).0,
        refl,
        settled,
      )
