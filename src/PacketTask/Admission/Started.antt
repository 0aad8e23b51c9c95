-- ===== src/PacketTask/Admission/Started.antt =====
-- What an admission by `admit_packet` (src/inference_grid/board/packet_task.py) leaves in the ledger.
use inference_grid.Prelude.{
  ℕ, String, Bool, true, false, ◌≡◌, refl, sym, subst, ◌==◌, ◌&&◌, Option, none, some, eqb, ◌+◌,
  arith, inl, inr, if◌then◌else◌, eq_iff, first-update_rows, first-holds,
}
use inference_grid.Value.{Dict, str}
use inference_grid.Result.{
  Result, ok, raised, Ensures, Ensures-ok, Ensures-map, gives, then_bind, then_read, Result-cases,
  ◌>>=◌,
}
use inference_grid.Ledger.State.{
  AttemptState, dispatching, held, Attempt, State, Clock, Env, attempt_row, event, is_queued,
}
use inference_grid.Ledger.Submit.{submit}
use inference_grid.Ledger.Claim.{claim, admit, admitted_attempt}
use inference_grid.Ledger.Claim.Admission.{Admission, claim-Admission}
use inference_grid.Ledger.Dispatch.{start, start_row, hold_lost, lost_reason, dispatch}
use inference_grid.Ledger.Dispatch.Gate.{dispatched_row}
use inference_grid.PacketTask.Admission.{
  PacketLane, PacketAdmission, reported, account_windows, packet_ledger_spec, start_packet,
  claim_packet, admit_packet,
}

-- The admission and the row of its attempt: the attempt runs, and the loop is to be run, or it was
-- held.
pub data IsStartedAs : Option AttemptState → AttemptState → Type 0 where
  to_run : IsStartedAs none dispatching
  not_to_run : IsStartedAs (some held) held

pub record IsAdmitted (task : String) (a : PacketAdmission) (s : State) : Type 0 where
  pub attempt : Attempt
  pub row : attempt_row a.aid s ≡ some attempt
  pub of_task : attempt.task ≡ task
  pub of_generation : attempt.generation ≡ a.generation
  pub started : IsStartedAs a.state attempt.state

lost_row :
    (clock : Clock) (aid : String) (paused : Bool) (s : State) (r : Attempt)
    → attempt_row aid s ≡ some r
    → is_queued r.state ≡ true
    → (q : Attempt) × (attempt_row aid (hold_lost clock aid paused s) ≡ some q)
      × (q.state ≡ held)
      × (q.task ≡ r.task)
      × (q.generation ≡ r.generation)
unfolding event
lost_row clock aid paused s r known h =
    let found =
      first-update_rows (λ (q : Attempt). q.id == aid)
        (λ (q : Attempt). (q.id == aid) && is_queued q.state)
        (λ (q : Attempt). record q { state = held; reason = str (lost_reason paused) }) (λ x. refl)
        s.attempts r known in
    let same = first-holds (λ (q : Attempt). q.id == aid) s.attempts r known in
    (
      record r { state = held; reason = str (lost_reason paused) },
      ground (arith, found, same, h),
      refl,
      refl,
      refl,
    )

-- The answer of `start`, as the admission reports it.
abbrev answered : String → Option (Attempt × Dict) → State → Option AttemptState
answered aid none s = some (reported aid s)
answered aid (some started) s = none

abbrev IsAnswered : Attempt → Option (Attempt × Dict) × State → Type 0
IsAnswered r (o, s) =
    IsAdmitted r.task (record { aid = r.id; generation = r.generation; state = answered r.id o s })
      s

reported-row :
    (aid : String) (s : State) (q : Attempt) → attempt_row aid s ≡ some q → reported aid s ≡ q.state
reported-row aid s q row = rw (row, reported) refl

lost_cases-IsAnswered :
    (clock : Clock) (r : Attempt) (spec : Dict) (paused lost : Bool) (s : State)
    → attempt_row r.id s ≡ some r
    → is_queued r.state ≡ true
    → IsAnswered r (
        if lost then (none, hold_lost clock r.id paused s) else (
          some (record r { state = dispatching; updated = clock.time 2 }, spec),
          dispatch clock r.id r.generation s,
        ))
lost_cases-IsAnswered clock r spec paused true s known queued_now =
    let (q, row, is_held, of_task, of_generation) =
      lost_row clock r.id paused s r known queued_now in
    record {
      attempt = q;
      row = row;
      of_task = of_task;
      of_generation = of_generation;
      started =
          subst (λ st. IsStartedAs (some st) q.state)
            (sym (reported-row r.id (hold_lost clock r.id paused s) q row))
            (subst (λ st. IsStartedAs (some st) st) (sym is_held) not_to_run);
    }
lost_cases-IsAnswered clock r spec paused false s known queued_now = record {
  attempt = record r { state = dispatching; updated = clock.time 2 };
  row = dispatched_row clock r.id r.generation s r known queued_now;
  of_task = refl;
  of_generation = refl;
  started = to_run;
}

eqb_refl : (n : ℕ) → eqb n n ≡ true
eqb_refl n = ground arith

start_row-IsAnswered :
    (clock : Clock) (r : Attempt) (s : State)
    → attempt_row r.id s ≡ some r
    → is_queued r.state ≡ true
    → Ensures (IsAnswered r) (start_row clock r s)
unfolding start_row
start_row-IsAnswered clock r s known queued_now = then_read _ _ λ acct owner.
    then_read _ _ λ job task.
      then_bind _
        λ lost found. gives (lost_cases-IsAnswered clock r job.spec _ lost s known queued_now)

start-IsAnswered :
    (clock : Clock) (r : Attempt) (s : State)
    → attempt_row r.id s ≡ some r
    → is_queued r.state ≡ true
    → Ensures (IsAnswered r) (start clock r.id r.generation s)
unfolding start
start-IsAnswered clock r s known queued_now =
    rw (known, start)
      (rw (queued_now, eqb_refl r.generation) (start_row-IsAnswered clock r s known queued_now))

-- The row of an attempt that was just admitted.
admitted_row :
    (clock : Clock) (r : Attempt) (s : State) → attempt_row r.id (admit clock r s) ≡ some r
unfolding event
admitted_row clock r s = ground (arith, eq_iff r.id r.id)

-- What holds of an answer, and nothing of an error.
abbrev Admits : String → Result PacketAdmission × State → Type 0
Admits task (ok a, s) = IsAdmitted task a s
Admits task (raised e, s) = Unit

start_packet-Admits :
    (clock : Clock) (r : Attempt) (s : State)
    → attempt_row r.id s ≡ some r
    → is_queued r.state ≡ true
    → Admits r.task (start_packet clock (r.id, r.generation) s)
unfolding start_packet
start_packet-Admits clock r s known queued_now =
    elim (Result-cases (start clock r.id r.generation s)) [
      | inr (error, failed) ↦ rw (failed, start_packet) tt
      | inl ((none, after), started) ↦
          rw (started, start_packet)
            (Ensures-ok (start-IsAnswered clock r s known queued_now) started)
      | inl ((some given, after), started) ↦
          rw (started, start_packet)
            (Ensures-ok (start-IsAnswered clock r s known queued_now) started)
    ]

claim_packet-Admits :
    (clock clock' : Clock) (aid task alias : String) (s : State)
    → Admits task (claim_packet clock clock' aid task alias s)
unfolding claim_packet
claim_packet-Admits clock clock' aid task alias s =
    let m = account_windows alias s >>= λ estimate. claim clock aid task alias estimate s in
    let claims : Ensures
        (λ (out : (String × ℕ) × State). Admits task (start_packet clock' out.0 out.1)) m =
      then_bind _ λ estimate windows.
        Ensures-map
          (λ (out : (String × ℕ) × State) (h : Admission clock aid task alias estimate s out).
            let r =
              admitted_attempt aid task h.binding.account (h.acct.generation + 1) h.estimate
                h.workspace (clock.time 2) in
            subst (λ (x : (String × ℕ) × State). Admits task (start_packet clock' x.0 x.1))
              (sym h.result)
              (start_packet-Admits clock' r (admit clock r s) (admitted_row clock r s) refl))
          (claim-Admission clock aid task alias estimate s) in
    elim (Result-cases m) [
      | inr (error, failed) ↦ rw (failed, claim_packet) tt
      | inl (out, claimed) ↦ rw (claimed, claim_packet) (Ensures-ok claims claimed)
    ]

admit_packet-Admits :
    (env : Env) (clock clock' : Clock) (lane : PacketLane) (task : Dict)
    (workspace project task_id aid alias : String) (s : State)
    → Admits task_id (admit_packet env clock clock' lane task workspace project task_id aid alias s)
unfolding admit_packet
admit_packet-Admits env clock clock' lane task workspace project task_id aid alias s =
    elim (Result-cases
      (packet_ledger_spec env lane task workspace >>= λ spec. submit env task_id project spec s)) [
        | inr (error, failed) ↦ rw (failed, admit_packet) tt
        | inl ((u, after), submitted) ↦
            rw (submitted, admit_packet) (claim_packet-Admits clock clock' aid task_id alias after)
      ]

-- An admission that `admit_packet` returns is of an attempt of its task and generation that is in
-- the ledger's tables, and its state tells the caller the truth: None where the attempt was
-- dispatched and the loop is to be run, and "held" where `start` held it, and never another.
pub admit_packet-IsAdmitted :
    (env : Env) (clock clock' : Clock) (lane : PacketLane) (task : Dict)
    (workspace project task_id aid alias : String) (s s' : State) (a : PacketAdmission)
    → admit_packet env clock clock' lane task workspace project task_id aid alias s ≡ (ok a, s')
    → IsAdmitted task_id a s'
admit_packet-IsAdmitted env clock clock' lane task workspace project task_id aid alias s s' a e =
    subst (Admits task_id) e
      (admit_packet-Admits env clock clock' lane task workspace project task_id aid alias s)
