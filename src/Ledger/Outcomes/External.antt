-- ===== src/Ledger/Outcomes/External.antt =====
-- What `record_external` (src/inference_grid/ledger.py) leaves behind when it raises.
use inference_grid.Prelude.{
  String, Bool, true, false, ◌≡◌, refl, ◌≢◌, ◌==◌, eq_iff, some, List, ◌∷◌, arith, first, first-any,
}
use inference_grid.Value.{Value, Dict}
use inference_grid.Result.{
  Result, ok, raised, Error, Ensures, Ensures-ok, gives, then_bind, then_read, then_unless, ◌>>=◌,
}
use inference_grid.Ledger.State.{
  Attempt, State, Clock, clock_behind, Env, Task, attempt_row, task_row, is_known, event, completed,
}
use inference_grid.Ledger.Submit.{check_submission}
use inference_grid.Ledger.Outcomes.{
  Outcome, insert_external, record_outcome, record_external, record_behind,
}

-- The task and its completed attempt are in the tables.
pub record IsCommitted (aid task project : String) (s' : State) : Type 0 where
  pub row : (t : Task) × (task_row task s' ≡ some t) × (t.project ≡ project)
  pub attempt :
      (r : Attempt) × (attempt_row aid s' ≡ some r) × (r.task ≡ task) × (r.state ≡ completed)

first_new {ℓ} :
    {A : Type ℓ} (p : A → Bool) (x : A) (xs : List A) → p x ≡ true → first p (x ∷ xs) ≡ some x
first_new p x xs h = rw h refl

record Committed (aid task project : String) (out : Unit {0} × State) : Type 0 where
  committed : IsCommitted aid task project out.1

insert_external-Committed :
    (env : Env) (clock : Clock) (aid task project : String) (spec : Dict) (receipt category : Value)
    (s : State)
    → Ensures (Committed aid task project) (
        check_submission task project spec >>= λ _.
        insert_external env clock aid task project spec receipt category s)
unfolding insert_external event
insert_external-Committed env clock aid task project spec receipt category s =
    then_bind _ λ head headed. then_bind _ λ workspace w. then_read _ _ λ account a.
      then_unless _ _ λ named. then_read _ _ λ given g. then_unless _ _ λ verified.
        then_unless _ _ λ no_canary. then_unless _ _ λ elapsed. then_read _ _ λ acct known.
          then_unless _ _ λ new. then_unless _ _ λ free. gives (record {
            committed = record {
              row = (
                _,
                first_new (λ (t : Task). t.id == task) _ s.tasks ((eq_iff task task).1 refl),
                refl,
              );
              attempt = (
                _,
                first_new (λ (r : Attempt). r.id == aid) _ s.attempts ((eq_iff aid aid).1 refl),
                refl,
                refl,
              );
            };
          })

-- A task that is known is not recorded again.
record IsNewTask (task : String) (s : State) (out : Unit {0} × State) : Type 0 where
  new : is_known task s ≡ false

insert_external-IsNewTask :
    (env : Env) (clock : Clock) (aid task project : String) (spec : Dict) (receipt category : Value)
    (s : State)
    → Ensures (IsNewTask task s) (
        check_submission task project spec >>= λ _.
        insert_external env clock aid task project spec receipt category s)
unfolding insert_external
insert_external-IsNewTask env clock aid task project spec receipt category s =
    then_bind _ λ head headed. then_bind _ λ workspace w. then_read _ _ λ account a.
      then_unless _ _ λ named. then_read _ _ λ given g. then_unless _ _ λ verified.
        then_unless _ _ λ no_canary. then_unless _ _ λ elapsed.
          then_read _ _ λ acct known.
            then_unless _ _ λ new. then_unless _ _ λ free. gives (record { new = new })

record_behind_raised :
    (clock : Clock) (aid : String) (o : Outcome) (s : State) (m : Result (Unit {0} × State))
    → (record_behind clock aid o s m).0 ≡ ok tt
    → (out : Unit {0} × State) × (m ≡ ok out)
record_behind_raised clock aid o s (ok out) h = (out, refl)
record_behind_raised clock aid o s (raised e) h = cc

known_unrecorded :
    (env : Env) (clock : Clock) (aid task project : String) (spec : Dict) (receipt : Value)
    (o : Outcome) (s : State)
    → is_known task s ≡ true
    → (record_external env clock aid task project spec receipt o s).0 ≢ ok tt
unfolding record_external
known_unrecorded env clock aid task project spec receipt o s known h =
    let (out, e) = record_behind_raised clock aid o s _ h in
    let n =
      Ensures-ok (insert_external-IsNewTask env clock aid task project spec receipt o.category s)
        e in
    ground (arith, n.new, known)

-- Where the work is recorded and its outcome is then refused, `record_external` raises and leaves the
-- task and its completed attempt in the tables, and no further call can record that task's work,
-- whatever outcome, receipt or spec it gives.
pub record_external_half_done :
    (env : Env) (clock : Clock) (aid task project : String) (spec : Dict) (receipt : Value)
    (o : Outcome) (s s' : State) (e : Error)
    → (check_submission task project spec >>= λ _.
        insert_external env clock aid task project spec receipt o.category s)
      ≡ ok (tt, s')
    → record_outcome (clock_behind 2 clock) aid o s' ≡ raised e
    → (record_external env clock aid task project spec receipt o s ≡ (raised e, s'))
      × IsCommitted aid task project s'
      × ((clock' : Clock) (aid' project' : String) (spec' : Dict) (receipt' : Value) (o' : Outcome)
          → (record_external env clock' aid' task project' spec' receipt' o' s').0 ≢ ok tt)
unfolding record_external
record_external_half_done env clock aid task project spec receipt o s s' e inserted
      refused_outcome =
    let c =
      (Ensures-ok (insert_external-Committed env clock aid task project spec receipt o.category s)
        inserted).committed in
    (
      rw inserted (rw refused_outcome refl),
      c,
      λ clock' aid' project' spec' receipt' o'.
          known_unrecorded env clock' aid' task project' spec' receipt' o' s'
            (first-any (λ (t : Task). t.id == task) s'.tasks c.row.0 c.row.1),
    )
