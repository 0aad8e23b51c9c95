-- ===== src/Ledger/Effects/Dispatches.antt =====
-- The effects of `start`, `hold` and `finish`.
use inference_grid.Prelude.{
  ℕ, String, Bool, true, false, ◌≡◌, refl, ◌∙◌, ◌&&◌, ◌==◌, eqb, Option, none, some, inl, inr,
  Bool-cases, Option-cases, arith, is_empty, where_rows, update_rows, if◌then◌else◌,
}
use inference_grid.Value.{Value, Dict}
use inference_grid.Result.{ok, Ensures, gives, then_bind, then_read, then_unless}
use inference_grid.Ledger.State.{
  AttemptState, dispatching, held, completed, Attempt, State, Clock, Env, Task, is_queued,
  attempt_row, event,
}
use inference_grid.Ledger.Claim.{inference_paused}
use inference_grid.Ledger.Dispatch.{
  start, start_row, hold, finish, hold_lost, dispatch, dispatchable, completable,
  held_while_dispatching,
}
use inference_grid.Ledger.Lifecycle.{Moves, Keeps, Evolves}
use inference_grid.Ledger.Lifecycle.Evolution.{update_rows-Evolves, queued-Moves, dispatching-Moves}
use inference_grid.Ledger.Effects.{Effect, Leaves}
use inference_grid.Ledger.Effects.Quiet.{quiet-Effect, Effect-refl, any_account-update_rows}

-- An update of a row's state, reason, receipt or time, by a move.
pub move_Keeps :
    (r : Attempt) (st : AttemptState) (receipt reason : Value) (updated : ℕ)
    → Moves r.state st
    → Keeps r (record r { state = st; receipt = receipt; reason = reason; updated = updated })
move_Keeps r st receipt reason updated m = record {
  id = refl;
  task = refl;
  account = refl;
  generation = refl;
  estimate = refl;
  workspace = refl;
  moves = m;
}

pub and_right : (a b : Bool) → (a && b) ≡ true → b ≡ true
and_right a b h = ground arith

pub and_left : (a b : Bool) → (a && b) ≡ true → a ≡ true
and_left a b h = ground arith

pub returns :
    {A : Type 0} {a : A} {s s' : State}
    → Effect s s'
    → Ensures {A = A × State} (Leaves s) (ok (a, s'))
returns e = gives (record { effect = e })

module _ (clock : Clock) (s : State) where
  lost_cases-Effect :
      (prior : Attempt) (job : Task) (lost : Bool)
      → Ensures {A = Option (Attempt × Dict) × State} (Leaves s) (
          ok (
            if lost
            then (
              none,
              hold_lost clock prior.id (inference_paused (clock.time 0) prior.account s) s,
            )
            else (
              some (record prior { state = dispatching; updated = clock.time 2 }, job.spec),
              dispatch clock prior.id prior.generation s,
            )))
  unfolding event
  lost_cases-Effect prior job true = returns (
      quiet-Effect refl refl refl (λ name h. h)
        (update_rows-Evolves _ _
          (λ r h.
            move_Keeps r held r.receipt _ r.updated
              (queued-Moves r.state (and_right (r.id == prior.id) _ h)).1)
          s.attempts))
  lost_cases-Effect prior job false = returns (
      quiet-Effect refl refl refl (λ name h. h)
        (update_rows-Evolves (dispatchable prior.id prior.generation) _
          (λ r h.
            move_Keeps r dispatching r.receipt r.reason (clock.time 2)
              (queued-Moves r.state (
                and_right (eqb r.generation prior.generation) _
                  (and_right (r.id == prior.id) _ h))).0)
          s.attempts))

  start_row-Effect : (prior : Attempt) → Ensures (Leaves s) (start_row clock prior s)
  unfolding start_row event
  start_row-Effect prior = then_read _ _ λ acct known_account.
      then_read _ _ λ job known_task. then_bind _ λ lost found. lost_cases-Effect prior job lost

  pub start-Effect :
      (aid : String) (generation : ℕ) → Ensures (Leaves s) (start clock aid generation s)
  unfolding start
  start-Effect aid generation = elim (Option-cases (attempt_row aid s)) [
    | inl e ↦ rw (e, start) (gives (record { effect = Effect-refl s }))
    | inr (prior, e) ↦
        rw (e, start)
          (elim (Bool-cases (eqb prior.generation generation && is_queued prior.state)) [
            | inl current ↦ rw current (start_row-Effect prior)
            | inr stale ↦ rw stale (gives (record { effect = Effect-refl s }))
          ])
  ]

  held_rows-Evolves :
      (aid reason : String)
      → Evolves s.attempts (
          update_rows
            (held_while_dispatching aid)
            (λ r. record r { state = held; reason = Value.str reason; updated = clock.time 0 })
            s.attempts)
  held_rows-Evolves aid reason =
      update_rows-Evolves (held_while_dispatching aid) _
        (λ r h.
          move_Keeps r held r.receipt _ (clock.time 0)
            (dispatching-Moves r.state (and_right (r.id == aid) _ h)).0)
        s.attempts

  pub hold-Effect : (aid reason : String) → Effect s (hold clock aid reason s)
  unfolding hold event
  hold-Effect aid reason =
      elim (Bool-cases (is_empty (where_rows (held_while_dispatching aid) s.attempts))) [
        | inl e ↦ rw e (quiet-Effect refl refl refl (λ name h. h) (held_rows-Evolves aid reason))
        | inr e ↦ rw e (quiet-Effect refl refl refl (λ name h. h) (held_rows-Evolves aid reason))
      ]

  pub finish-Effect :
      (env : Env) (aid : String) (generation : ℕ) (receipt : Value)
      → Ensures (Leaves s) (finish env clock aid generation receipt s)
  unfolding finish event
  finish-Effect env aid generation receipt = then_read _ _ λ row known_row.
      then_read _ _ λ task known_task. then_bind _ λ model model_of.
        then_bind _ λ manifest manifest_of. then_unless _ _ λ valid. then_unless _ _ λ current.
          then_read _ _ λ acct known_account. returns (
            quiet-Effect refl refl refl
              (λ name h. any_account-update_rows name _ _ (λ x. refl) s.accounts ∙ h)
              (update_rows-Evolves (completable aid generation) _
                (λ r h.
                  move_Keeps r completed receipt r.reason (clock.time 0)
                    (dispatching-Moves r.state
                      (and_right (eqb r.generation generation) _ (and_right (r.id == aid) _ h))).1)
                s.attempts))
