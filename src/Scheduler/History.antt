-- ===== src/Scheduler/History.antt =====
-- `tick` (src/inference_grid/scheduler.py) changes the tables by claims alone.
use inference_grid.Prelude.{
  All, ap, Bool, true, false, ℕ, String, inl, inr, List, [], ◌∷◌, ◌++◌, ◌≡◌, refl, subst, ◌+◌,
}
use inference_grid.Prelude.Int.{ℤ}
use inference_grid.Value.{Value, Dict, as_dict}
use inference_grid.Result.{
  Result, raised, Result-cases, ok, refused, other_error, type_error, value_error, key_error,
  overflow_error, no_result_found, integrity_error, out_of_fuel, Ensures, Ensures-ok, gives, raises,
  then_bind, then_read, ◌>>=◌, or_raise,
}
use inference_grid.Ledger.State.{Task, State, Clock, Env}
use inference_grid.Ledger.Claim.{claim}
use inference_grid.Ledger.Calls.{Call, claims, perform, run}
use inference_grid.Scheduler.Order.{IsQueue, sort-IsQueue}
use inference_grid.Scheduler.{
  Supply, Outcome, Keyed, try_candidate, try_candidates, tick_each, tick, candidates_of, keyed,
  sort, pending,
}

-- Whether a call returned, and raised nothing.
abbrev pub is_ok {ℓ} : {A : Type ℓ} → Result A → Bool
is_ok (ok a) = true
is_ok (raised e) = false

-- The admission of a task, as a call that the ledger answers from its tables.
pub record IsClaim (task : Task) (s : State) (call : Clock × Call) : Type 0 where
  pub aid : String
  pub alias : String
  pub estimate : Dict
  pub answer : (String × ℕ) × State
  pub is_claim : call.1 ≡ claims aid task.id alias estimate
  pub granted : claim call.0 aid task.id alias estimate s ≡ ok answer

-- The tables behind a candidate that was admitted are those behind its claim.
record Admits (env : Env) (task : Task) (s : State) (out : (String × ℕ) × State) : Type 0 where
  call : Clock × Call
  claim_of : IsClaim task s call
  tables : out.1 ≡ perform env call.0 call.1 s

claim-Admits :
    (env : Env) (clock : Clock) (aid : String) (task : Task) (alias : String) (estimate : Dict)
    (s : State)
    → Ensures (Admits env task s) (claim clock aid task.id alias estimate s)
unfolding perform
claim-Admits env clock aid task alias estimate s =
    elim (Result-cases (claim clock aid task.id alias estimate s)) [
      | inl (out, e) ↦ rw e (
          gives (record {
            call = (clock, claims aid task.id alias estimate);
            claim_of = record {
              aid = aid;
              alias = alias;
              estimate = estimate;
              answer = out;
              is_claim = refl;
              granted = e;
            };
            tables = rw e refl;
          }))
      | inr (x, e) ↦ rw e raises
    ]

module _ (env : Env) (supply : Supply) where
  try_candidate-Admits :
      (i : ℕ) (task : Task) (candidate : Dict) (s : State)
      → Ensures (Admits env task s) (try_candidate supply i task candidate s)
  unfolding try_candidate
  try_candidate-Admits i task candidate s = then_bind _ λ account e. then_bind _ λ alias e'.
      then_bind _ λ given e''. then_read _ _ λ estimate e'''.
        claim-Admits env (supply.next_clock i) (supply.next_id i) task alias estimate s

  try_value-Admits :
      (i : ℕ) (task : Task) (c : Value) (s : State)
      → Ensures
          (Admits env task s)
          (or_raise (as_dict c) type_error >>= λ d. try_candidate supply i task d s)
  try_value-Admits i task c s = then_read _ _ λ d e. try_candidate-Admits i task d s

module _ (env : Env) (supply : Supply) where
  -- A candidate that the ledger, or the reading of its alias, refuses.
  abbrev pub IsTurnedDown : Task → State → Value → Type 0
  IsTurnedDown task s c =
      (i : ℕ) × (reason : String) × ((or_raise (as_dict c) type_error >>= λ d.
      try_candidate supply i task d s)
        ≡ raised (refused reason))

  -- What a task's candidates came to: all refused, one claim of the task, or an exception.
  data Tried (task : Task) (s : State) (cs : List Value) : Bool → State → Type 0 where
    refused_all : All (IsTurnedDown task s) cs → Tried task s cs true s
    admitted :
        {s' : State} (call : Clock × Call)
        → IsClaim task s call
        → s' ≡ perform env call.0 call.1 s
        → Tried task s cs true s'
    ended : Tried task s cs false s

  -- The claims of a tick, in the order of its tasks, from the tables on; the Boolean tells whether it
  -- came to the end of the tasks.
  pub data Chosen : Bool → State → List Keyed → List (Clock × Call) → Type 0 where
    no_tasks : {s : State} → Chosen true s [] []
    interrupted : {s : State} {tasks : List Keyed} → Chosen false s tasks []
    passed :
        {b : Bool} {s : State} {p : ℤ} {t : Task} {tasks : List Keyed} {calls : List (Clock × Call)}
        → All (IsTurnedDown t s) (candidates_of t)
        → Chosen b s tasks calls
        → Chosen b s ((p, t) ∷ tasks) calls
    claimed :
        {b : Bool} {s : State} {p : ℤ} {t : Task} {tasks : List Keyed} {call : Clock × Call}
        {calls : List (Clock × Call)}
        → IsClaim t s call
        → Chosen b (perform env call.0 call.1 s) tasks calls
        → Chosen b s ((p, t) ∷ tasks) (call ∷ calls)

  -- The tables behind claims of the tasks.
  pub record Ticked (returns : Bool) (queue : List Keyed) (s s' : State) : Type 0 where
    pub calls : List (Clock × Call)
    pub chosen : Chosen returns s queue calls
    pub tables : s' ≡ run env calls s

  try_rest :
      (task : Task) (s s' : State) (c : Value) (cs : List Value) (b : Bool)
      → IsTurnedDown task s c
      → Tried task s cs b s'
      → Tried task s (c ∷ cs) b s'
  try_rest task s s' c cs b h (refused_all all) = refused_all (h, all)
  try_rest task s s' c cs b h (admitted call k e) = admitted call k e
  try_rest task s s' c cs b h ended = ended

  try_candidates-Tried :
      (i : ℕ) (task : Task) (reasons : List String) (cs : List Value) (s : State)
      → Tried task s cs
          (is_ok (try_candidates supply i task reasons cs s).0)
          (try_candidates supply i task reasons cs s).2
  unfolding try_candidates
  try_candidates-Tried i task reasons [] s = refused_all tt
  try_candidates-Tried i task reasons (c ∷ cs) s =
      elim (Result-cases
        (or_raise (as_dict c) type_error >>= λ d. try_candidate supply i task d s)) [
          | inl (out, e) ↦
              let a = Ensures-ok (try_value-Admits env supply i task c s) e in
              rw (e, try_candidates) (admitted a.call a.claim_of a.tables)
          | inr (refused reason, e) ↦
              rw (e, try_candidates)
                (try_rest task s _ c cs _ (i, reason, e)
                  (try_candidates-Tried (i + 1) task (reasons ++ reason ∷ []) cs s))
          | inr (other_error m, e) ↦ rw (e, try_candidates) ended
          | inr (value_error m, e) ↦ rw (e, try_candidates) ended
          | inr (type_error, e) ↦ rw (e, try_candidates) ended
          | inr (key_error, e) ↦ rw (e, try_candidates) ended
          | inr (overflow_error, e) ↦ rw (e, try_candidates) ended
          | inr (no_result_found, e) ↦ rw (e, try_candidates) ended
          | inr (integrity_error, e) ↦ rw (e, try_candidates) ended
          | inr (out_of_fuel, e) ↦ rw (e, try_candidates) ended
        ]

  then_Ticked :
      (b : Bool) (p : ℤ) (t : Task) (tasks : List Keyed) (s s' s'' : State)
      → Tried t s (candidates_of t) true s'
      → Ticked b tasks s' s''
      → Ticked b ((p, t) ∷ tasks) s s''
  unfolding run
  then_Ticked b p t tasks s s' s'' (refused_all all) k = record {
    calls = k.calls;
    chosen = passed all k.chosen;
    tables = k.tables;
  }
  then_Ticked b p t tasks s s' s'' (admitted call c e) k = record {
    calls = call ∷ k.calls;
    chosen = claimed c (subst (λ x. Chosen b x tasks k.calls) e k.chosen);
    tables = subst (λ x. s'' ≡ run env k.calls x) e k.tables;
  }

  -- An exception in a task's candidates leaves the tables as the task found them.
  interrupted_Ticked :
      (b : Bool) (p : ℤ) (t : Task) (tasks : List Keyed) (s s' : State)
      → b ≡ false
      → Tried t s (candidates_of t) b s'
      → Ticked false ((p, t) ∷ tasks) s s'
  unfolding run
  interrupted_Ticked b p t tasks s s' h (refused_all all) = cc
  interrupted_Ticked b p t tasks s s' h (admitted call c e) = cc
  interrupted_Ticked b p t tasks s s' h ended = record {
    calls = [];
    chosen = interrupted;
    tables = refl;
  }

  tick_each-Ticked :
      (tasks : List Keyed) (i : ℕ) (outcomes : List Outcome) (s : State)
      → Ticked
          (is_ok (tick_each supply i outcomes tasks s).0)
          tasks
          s
          (tick_each supply i outcomes tasks s).1
  unfolding tick_each run
  tick_each-Ticked [] i outcomes s = record { calls = []; chosen = no_tasks; tables = refl }
  tick_each-Ticked ((p, t) ∷ tasks) i outcomes s =
      let tried = try_candidates-Tried i t [] (candidates_of t) s in
      let at = try_candidates supply i t [] (candidates_of t) s in
      elim (Result-cases (at.0)) [
        | inl (o, e) ↦
            rw (e, tick_each)
              (then_Ticked _ p t tasks s _ _
                (subst (λ r. Tried t s (candidates_of t) (is_ok r) at.2) e tried)
                (tick_each-Ticked tasks _ _ _))
        | inr (x, e) ↦
            rw (e, tick_each) (interrupted_Ticked (is_ok at.0) p t tasks s _ (ap is_ok e) tried)
      ]

-- A tick whose pending tasks all have an integer priority takes them in one queue: each task that no
-- attempt names once, by ascending priority, and by ascending id where priorities are equal. It leaves
-- the tables that a history of claims leaves, and makes no other change: in the order of the queue,
-- each task has either one claim, which the ledger grants from the tables behind the claims before it,
-- or every one of its candidates was refused there. Only where an exception ends the tick are the
-- remaining tasks left alone.
pub tick-Ticked :
    (env : Env) (supply : Supply) (s : State) (tasks : List Keyed)
    → keyed (pending s) ≡ ok tasks
    → (queue : List Keyed) × IsQueue s queue
      × Ticked env supply (is_ok (tick supply s).0) queue s (tick supply s).1
unfolding tick
tick-Ticked env supply s tasks e = (
  sort tasks,
  sort-IsQueue s tasks e,
  rw (e, tick) (tick_each-Ticked env supply (sort tasks) 0 [] s),
)
