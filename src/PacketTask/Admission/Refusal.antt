-- ===== src/PacketTask/Admission/Refusal.antt =====
-- `admit_packet` (src/inference_grid/board/packet_task.py) and the bound of `submit` (ledger.py).
use inference_grid.Prelude.{ℕ, String, ◌≡◌, refl, sym, ap, ◌∙◌, ◌≤◌, ◌<◌, arith, inl, inr}
use inference_grid.Prelude.Int.{ℤ, pos}
use inference_grid.Value.{num, int, Dict, get_value}
use inference_grid.Result.{
  ok, raised, Error, Ensures, Ensures-ok, gives, then_bind, then_check, then_unless, Result,
  Result-cases, ◌>>=◌,
}
use inference_grid.Ledger.State.{State, Clock, Env}
use inference_grid.Ledger.Submit.{submit, check_spec, check_timeout, timeout_bound}
use inference_grid.PacketTask.Admission.{
  PacketLane, packet_wall_seconds, packet_ledger_spec, admit_packet,
}

timeout_bound-le : (head : String) → timeout_bound head ≤ 14400
unfolding timeout_bound
timeout_bound-le head = ground arith

ok-injective : {a b : ℤ} → Result.ok a ≡ ok b → a ≡ b
ok-injective h = cc

record Impossible {ℓ} {A : Type ℓ} (a : A) : Type 0 where
  none_such : ⊥

check_timeout_refused :
    (head : String) (spec : Dict) (n : ℕ)
    → get_value "timeout" spec ≡ num (int (pos n))
    → 14400 < n
    → Ensures Impossible (check_timeout head spec)
unfolding check_timeout
check_timeout_refused head spec n given long =
    rw (given, check_timeout)
      (then_unless _ _ λ within. absurd (ground (arith, timeout_bound-le head)))

submit_refused :
    (env : Env) (task project : String) (spec : Dict) (s : State) (n : ℕ)
    → get_value "timeout" spec ≡ num (int (pos n))
    → 14400 < n
    → Ensures Impossible (submit env task project spec s)
unfolding submit check_spec
submit_refused env task project spec s n given long = then_bind _ λ workspace checked.
    absurd
      (Ensures-ok {P = Impossible}
        (then_bind _ λ head submitted. then_bind _ λ w isolated. then_check _ λ timed.
          absurd (Ensures-ok (check_timeout_refused head spec n given long) timed).none_such)
        checked).none_such

packet_ledger_spec-timeout :
    (env : Env) (lane : PacketLane) (task : Dict) (workspace : String) (n : ℕ)
    → packet_wall_seconds task ≡ ok (pos n)
    → Ensures
        (λ spec. get_value "timeout" spec ≡ num (int (pos n)))
        (packet_ledger_spec env lane task workspace)
unfolding packet_ledger_spec
packet_ledger_spec-timeout env lane task workspace n wall = then_bind _ λ spec spec_of.
    then_bind _ λ packet_id packet_id_of. then_bind _ λ id id_of. then_bind _ λ seconds timed.
      then_bind _ λ budget budget_of.
        then_bind _
          λ bytes bytes_of. gives (ap (λ x. num (int x)) (ok-injective (sym timed ∙ wall)))

-- A packet whose wall time is over four hours is refused by the ledger, whatever its tables hold:
-- `admit_packet` raises, and nothing is stored.
pub admit_packet_refused :
    (env : Env) (clock clock' : Clock) (lane : PacketLane) (task : Dict)
    (workspace project task_id aid alias : String) (s : State) (n : ℕ)
    → packet_wall_seconds task ≡ ok (pos n)
    → 14400 < n
    → (e : Error) × (admit_packet env clock clock' lane task workspace project task_id aid alias s
        ≡ (raised e, s))
unfolding admit_packet
admit_packet_refused env clock clock' lane task workspace project task_id aid alias s n wall long =
    let m =
      packet_ledger_spec env lane task workspace >>= λ spec. submit env task_id project spec s in
    let never : Ensures Impossible m = then_bind _ λ spec built.
      submit_refused env task_id project spec s n
        (Ensures-ok (packet_ledger_spec-timeout env lane task workspace n wall) built) long in
    elim (Result-cases m) [
      | inl (u, e) ↦ absurd (Ensures-ok never e).none_such
      | inr (e, failed) ↦ (e, rw (failed, admit_packet) refl)
    ]
