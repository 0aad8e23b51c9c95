-- ===== src/Ledger/Calls/History.antt =====
-- What holds after every history of calls.
use inference_grid.Prelude.{
  String, false, ◌≡◌, refl, ◌∙◌, ◌==◌, ◌⊎◌, inl, inr, some, List, [], ◌∷◌, any, first, arith,
  Bool-cases, eq_iff, subst, first-any,
}
use inference_grid.Ledger.State.{
  AttemptState, held, abandoned, failed, Task, Alias, Attempt, State, Clock, Env, task_row,
  alias_row, attempt_row,
}
use inference_grid.Ledger.Lifecycle.{
  Moves, stay, dispatch, lose, hold, complete, release, consume, approve, Keeps, Evolves, none_left,
  row, Rows, updated, added,
}
use inference_grid.Ledger.Lifecycle.Evolution.{Keeps-refl}
use inference_grid.Ledger.Lifecycle.Soundness.{IsSound, IsSound-Rows}
use inference_grid.Ledger.Effects.{IsConnected}
use inference_grid.Ledger.Calls.{Call, perform, run, initial}
use inference_grid.Ledger.Calls.Effects.{perform-Effect}

pub record IsReachable (s : State) : Type 0 where
  pub sound : IsSound s.attempts
  pub connected : IsConnected s

perform-IsReachable :
    (env : Env) (clock : Clock) (call : Call) (s : State)
    → IsReachable s
    → IsReachable (perform env clock call s)
perform-IsReachable env clock call s h =
    let e = perform-Effect env clock call s h.sound h.connected in
    record { sound = IsSound-Rows e.attempts h.sound; connected = e.connected h.connected }

-- From tables that satisfy the invariant, every history of calls leads to such tables: attempt ids
-- differ, no task has two attempts, no two active attempts share a workspace, and every attempt,
-- alias and observation refers to rows that are there.
pub run-IsReachable :
    (env : Env) (calls : List (Clock × Call)) (s : State)
    → IsReachable s
    → IsReachable (run env calls s)
unfolding run
run-IsReachable env [] s h = h
run-IsReachable env ((clock, call) ∷ calls) s h =
    run-IsReachable env calls (perform env clock call s) (perform-IsReachable env clock call s h)

pub initial-IsReachable : IsReachable initial
initial-IsReachable = record {
  sound = tt;
  connected = record { tasks = tt; accounts = tt; bindings = tt; observed = tt };
}

-- The moves of a row over a history.
pub data Reaches : AttemptState → AttemptState → Type 0 where
  here : {st : AttemptState} → Reaches st st
  next : {st st' st'' : AttemptState} → Moves st st' → Reaches st' st'' → Reaches st st''

pub record Stays (r r' : Attempt) : Type 0 where
  pub task : r'.task ≡ r.task
  pub account : r'.account ≡ r.account
  pub generation : r'.generation ≡ r.generation
  pub estimate : r'.estimate ≡ r.estimate
  pub workspace : r'.workspace ≡ r.workspace
  pub reaches : Reaches r.state r'.state

module _ (aid : String) where
  find-Evolves :
      {rows rows' : List Attempt} (r : Attempt)
      → Evolves rows rows'
      → first (λ q. q.id == aid) rows ≡ some r
      → (r' : Attempt) × (first (λ q. q.id == aid) rows' ≡ some r') × Keeps r r'
  find-Evolves r none_left h = cc
  find-Evolves r (row {r = q} {r' = q'} k e) h = elim (Bool-cases (q.id == aid)) [
    | inl same ↦ (q', rw (k.id, same), subst (λ x. Keeps x q') (ground arith) k)
    | inr other ↦
        let (r', found, keeps) = find-Evolves r e (ground arith) in
        (r', rw (k.id, other) found, keeps)
  ]

  find-Rows :
      {rows rows' : List Attempt} (r : Attempt)
      → Rows rows rows'
      → first (λ q. q.id == aid) rows ≡ some r
      → (r' : Attempt) × (first (λ q. q.id == aid) rows' ≡ some r') × Keeps r r'
  find-Rows r (updated e) h = find-Evolves r e h
  find-Rows {rows} r (added new n e) h = elim (Bool-cases (new.id == aid)) [
    | inl same ↦ cc (
      first-any (λ (q : Attempt). q.id == aid) rows r h,
      subst (λ x. any (λ (q : Attempt). q.id == x) rows ≡ false) ((eq_iff new.id aid).0 same) n.id,
    )
    | inr other ↦ (r, rw (e, other) h, Keeps-refl r)
  ]

-- An attempt that is in the table stays in it through every history, with its task, account,
-- generation, estimate and workspace, and its state changes only by the moves of the life cycle.
pub run-Stays :
    (env : Env) (calls : List (Clock × Call)) (s : State) (aid : String) (r : Attempt)
    → IsReachable s
    → attempt_row aid s ≡ some r
    → (r' : Attempt) × (attempt_row aid (run env calls s) ≡ some r') × Stays r r'
unfolding run
run-Stays env [] s aid r h found = (
  r,
  found,
  record {
    task = refl;
    account = refl;
    generation = refl;
    estimate = refl;
    workspace = refl;
    reaches = here;
  },
)
run-Stays env ((clock, call) ∷ calls) s aid r h found =
    let e = perform-Effect env clock call s h.sound h.connected in
    let (q, found', k) = find-Rows aid r e.attempts found in
    let (r', last, st) =
      run-Stays env calls (perform env clock call s) aid q (perform-IsReachable env clock call s h)
        found' in
    (
      r',
      last,
      record {
        task = st.task ∙ k.task;
        account = st.account ∙ k.account;
        generation = st.generation ∙ k.generation;
        estimate = st.estimate ∙ k.estimate;
        workspace = st.workspace ∙ k.workspace;
        reaches = next k.moves st.reaches;
      },
    )

-- What a held attempt can come to be.
abbrev pub IsHeldOrResolved : AttemptState → Type 0
IsHeldOrResolved st = (st ≡ held) ⊎ ((st ≡ abandoned) ⊎ (st ≡ failed))

Reaches-resolved :
    {st st' : AttemptState} → Reaches st st' → IsHeldOrResolved st → IsHeldOrResolved st'
Reaches-resolved here h = h
Reaches-resolved (next stay r) h = Reaches-resolved r h
Reaches-resolved (next dispatch r) h = absurd (ground arith)
Reaches-resolved (next lose r) h = Reaches-resolved r (inl refl)
Reaches-resolved (next hold r) h = Reaches-resolved r (inl refl)
Reaches-resolved (next complete r) h = absurd (ground arith)
Reaches-resolved (next release r) h = Reaches-resolved r (inr (inl refl))
Reaches-resolved (next consume r) h = Reaches-resolved r (inr (inr refl))
Reaches-resolved (next approve r) h = absurd (ground arith)

-- A held attempt is never dispatched or completed by any history of calls: it stays held until it is
-- resolved, and then stays resolved.
pub held_never_redispatched :
    (env : Env) (calls : List (Clock × Call)) (s : State) (aid : String) (r : Attempt)
    → IsReachable s
    → attempt_row aid s ≡ some r
    → r.state ≡ held
    → (r' : Attempt) × (attempt_row aid (run env calls s) ≡ some r') × IsHeldOrResolved r'.state
held_never_redispatched env calls s aid r h found is_held =
    let (r', found', st) = run-Stays env calls s aid r h found in
    (r', found', Reaches-resolved st.reaches (inl is_held))

-- A stored task keeps its project and its spec, and a bound alias keeps its account, through every
-- history of calls.
pub run_immutable :
    (env : Env) (calls : List (Clock × Call)) (s : State)
    → IsReachable s
    → ((name : String) (t : Task)
        → task_row name s ≡ some t
        → task_row name (run env calls s) ≡ some t)
      × ((name : String) (a : Alias)
          → alias_row name s ≡ some a
          → alias_row name (run env calls s) ≡ some a)
unfolding run
run_immutable env [] s h = (λ name t e. e, λ name a e. e)
run_immutable env ((clock, call) ∷ calls) s h =
    let e = perform-Effect env clock call s h.sound h.connected in
    let (later_tasks, later_aliases) =
      run_immutable env calls (perform env clock call s) (perform-IsReachable env clock call s h) in
    (
      λ name t found. later_tasks name t (e.tasks name t found),
      λ name a found. later_aliases name a (e.aliases name a found),
    )
