-- ===== src/Ledger/Effects/Setup.antt =====
-- The effects of `submit`, `defer`, `record_lane` and `record_external`.
use inference_grid.Prelude.{
  ℕ, String, true, false, ◌≡◌, refl, subst, ◌==◌, Option, none, some, List, [], ◌∷◌, inl, inr,
  Option-cases, Bool-cases, any, All, arith, eq_iff, first, first-any, ltb,
}
use inference_grid.Value.{Value, Dict}
use inference_grid.Result.{Result, ok, raised, Ensures, gives, then_bind, then_read, then_unless}
use inference_grid.Ledger.State.{
  Task, Attempt, State, Clock, Env, task_row, is_known, event, cooldown_row,
}
use inference_grid.Ledger.Submit.{submit, store_once, store_task}
use inference_grid.Ledger.Cooldowns.{defer, store_deadline}
use inference_grid.Ledger.Lanes.{record_lane, store_lane}
use inference_grid.Ledger.Outcomes.{
  Outcome, insert_external, record_external, then_tx, record_behind,
}
use inference_grid.Ledger.Lifecycle.{updated}
use inference_grid.Ledger.Lifecycle.Evolution.{Evolves-refl}
use inference_grid.Ledger.Effects.{Effect, Leaves, IsConnected}
use inference_grid.Ledger.Effects.Quiet.{idle-Effect, Effect-refl, All_map}
use inference_grid.Ledger.Effects.Added.{added-Effect, before-Effect, behind-Effect}
use inference_grid.Ledger.Effects.Dispatches.{returns}
use inference_grid.Ledger.Effects.Resolves.{Notes, record_outcome-Effect}

-- A task under a new id stands in front of the others and hides none of them.
first_task-cons :
    (name : String) (t new : Task) (tasks : List Task)
    → first (λ q. q.id == name) tasks ≡ some t
    → first (λ q. q.id == new.id) tasks ≡ none
    → first (λ q. q.id == name) (new ∷ tasks) ≡ some t
first_task-cons name t new tasks h fresh = elim (Bool-cases (new.id == name)) [
  | inl same ↦
      let e = (eq_iff new.id name).0 same in
      cc (subst (λ x. first (λ (q : Task). q.id == x) tasks ≡ none) e fresh)
  | inr other ↦ rw other h
]

pub store_task-Effect :
    (task project : String) (spec : Dict) (s : State)
    → task_row task s ≡ none
    → Effect s (store_task task project spec s)
store_task-Effect task project spec s fresh = record {
  attempts = updated (Evolves-refl s.attempts);
  tasks = λ name t h. first_task-cons name t _ s.tasks h fresh;
  aliases = λ name a h. h;
  connected = λ c. record {
    tasks =
        All_map (λ r. is_known r.task s ≡ true)
          (λ r. is_known r.task (store_task task project spec s) ≡ true) (λ r h. ground arith)
          s.attempts c.tasks;
    accounts = c.accounts;
    bindings = c.bindings;
    observed = c.observed;
  };
}

store_once-Effect :
    (task project : String) (spec : Dict) (s : State)
    → Ensures (Leaves s) (store_once task project spec s)
unfolding store_once
store_once-Effect task project spec s = elim (Option-cases (task_row task s)) [
  | inl fresh ↦ rw (fresh, store_once) (returns (store_task-Effect task project spec s fresh))
  | inr (old, e) ↦ rw (e, store_once) (then_unless _ _ λ same. returns (Effect-refl s))
]

pub submit-Effect :
    (env : Env) (task project : String) (spec : Dict) (s : State)
    → Ensures (Leaves s) (submit env task project spec s)
unfolding submit
submit-Effect env task project spec s =
    then_bind _ λ workspace checked. store_once-Effect task project _ s

store_deadline-Effect :
    (account endpoint : String) (until : ℕ) (s : State)
    → Effect s (store_deadline account endpoint until s).1
unfolding store_deadline
store_deadline-Effect account endpoint until s =
    elim (Option-cases (cooldown_row account endpoint s)) [
      | inl e ↦ rw (e, store_deadline) (idle-Effect refl refl refl refl refl)
      | inr (old, e) ↦
          rw (e, store_deadline)
            (elim (Bool-cases (ltb old.until until)) [
              | inl later ↦ rw later (idle-Effect refl refl refl refl refl)
              | inr kept ↦ rw kept (Effect-refl s)
            ])
    ]

pub event-Effect :
    {s s' : State} (now : ℕ) (attempt : Option String) (kind : String) (detail : Dict)
    → Effect s s'
    → Effect s (event now attempt kind detail s')
unfolding event
event-Effect now attempt kind detail e = behind-Effect e (idle-Effect refl refl refl refl refl) refl

pub defer-Effect :
    (clock : Clock) (alias endpoint : String) (until : Value) (s : State)
    → Ensures (Leaves s) (defer clock alias endpoint until s)
unfolding defer
defer-Effect clock alias endpoint until s = then_unless _ _ λ known. then_read _ _ λ deadline valid.
    then_read _ _ λ binding bound. returns (event-Effect _ _ _ _ (store_deadline-Effect _ _ _ s))

store_lane-Effect :
    (now : ℕ) (provider : String) (facts : Value) (s : State)
    → Effect s (store_lane now provider facts s)
unfolding store_lane
store_lane-Effect now provider facts s =
    elim (Option-cases (first (λ l. l.provider == provider) s.lanes)) [
      | inl e ↦ rw (e, store_lane) (idle-Effect refl refl refl refl refl)
      | inr (old, e) ↦ rw (e, store_lane) (idle-Effect refl refl refl refl refl)
    ]

pub record_lane-Effect :
    (clock : Clock) (provider : String) (facts : Value) (s : State)
    → Ensures (Leaves s) (record_lane clock provider facts s)
unfolding record_lane
record_lane-Effect clock provider facts s = then_read _ _ λ d object. then_unless _ _ λ same.
    then_bind _
      λ classified accepted. returns (event-Effect _ _ _ _ (store_lane-Effect _ provider facts s))

-- No attempt names a task that is not in its table.
unnamed_task :
    (task : String) (s : State) (rows : List Attempt)
    → All (λ r. is_known r.task s ≡ true) rows
    → is_known task s ≡ false
    → any (λ r. r.task == task) rows ≡ false
unnamed_task task s [] h fresh = refl
unnamed_task task s (r ∷ rows) h fresh = elim (Bool-cases (r.task == task)) [
  | inl same ↦ cc (subst (λ x. is_known x s ≡ true) ((eq_iff r.task task).0 same) h.0)
  | inr other ↦ rw other (unnamed_task task s rows h.1 fresh)
]

first-none :
    (task : String) (tasks : List Task)
    → any (λ t. t.id == task) tasks ≡ false
    → first (λ t. t.id == task) tasks ≡ none
first-none task [] h = refl
first-none task (t ∷ tasks) h = ground (arith, first-none task tasks)

module _ (env : Env) (clock : Clock) (s : State) (c : IsConnected s) where
  insert_external-Effect :
      (aid task project : String) (spec : Dict) (receipt category : Value)
      → Ensures (Leaves s) (insert_external env clock aid task project spec receipt category s)
  unfolding insert_external
  insert_external-Effect aid task project spec receipt category = then_bind _ λ workspace absolute.
      then_read _ _ λ account named. then_unless _ _ λ nonempty. then_read _ _ λ receipt' object.
        then_unless _ _ λ verified. then_unless _ _ λ canary. then_unless _ _ λ elapsed.
          then_read _ _ λ acct known_account. then_unless _ _ λ fresh. then_unless _ _ λ new_id.
            returns (
              event-Effect _ _ _ _ (
                before-Effect (store_task-Effect task project _ s (first-none task s.tasks fresh))
                  (added-Effect _ refl refl refl (λ name h. h) refl
                    (record {
                      id = new_id;
                      task = unnamed_task task s s.attempts c.tasks fresh;
                      workspace = λ h. cc;
                    })
                    (ground (arith, eq_iff task task)) (first-any _ s.accounts acct known_account))
                  refl))

  then_tx-Effect :
      (t : State) (m : Result (Unit {0} × State))
      → Effect s t
      → Ensures (Notes t) m
      → Effect s (then_tx t m).1
  then_tx-Effect t (raised e) first_part h = first_part
  then_tx-Effect t (ok (_, u)) first_part (gives h) = behind-Effect first_part h.effect h.same

  record_behind-Effect :
      (aid : String) (o : Outcome) (m : Result (Unit {0} × State))
      → Ensures (Leaves s) m
      → Effect s (record_behind clock aid o s m).1
  record_behind-Effect aid o (raised e) h = Effect-refl s
  record_behind-Effect aid o (ok (_, t)) (gives h) =
      then_tx-Effect t _ h.effect (record_outcome-Effect env _ t aid o)

  pub record_external-Effect :
      (aid task project : String) (spec : Dict) (receipt : Value) (o : Outcome)
      → Effect s (record_external env clock aid task project spec receipt o s).1
  unfolding record_external
  record_external-Effect aid task project spec receipt o =
      record_behind-Effect aid o _ (
        then_bind _ λ head checked. insert_external-Effect aid task project spec receipt o.category)
