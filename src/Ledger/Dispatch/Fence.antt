-- ===== src/Ledger/Dispatch/Fence.antt =====
-- `finish` completes a dispatching attempt of the given generation, once, and debits its estimate.
use inference_grid.Prelude.{
  ℕ, String, true, false, ◌≡◌, refl, subst, ◌-◌, ◌≢◌, ◌==◌, some, List, [], ◌∷◌, inl, inr,
  Bool-cases, arith, eq_iff, any, first, first-update_rows, first-holds, length,
  length-where_rows_none, where_rows, update_rows, is_empty,
}
use inference_grid.Value.{Value, get?}
use inference_grid.Result.{ok, Ensures, Ensures-ok, gives, then_bind, then_read, then_unless}
use inference_grid.Receipts.{validate_receipt}
use inference_grid.Ledger.State.{
  Quota, AttemptState, Account, Task, Attempt, State, Clock, Env, dispatching, completed,
  is_dispatching, account_row, task_row, attempt_row, amount_of, item, event,
}
use inference_grid.Ledger.Dispatch.{finish, completable, debit, complete}
use inference_grid.Ledger.Lifecycle.Soundness.{IsSound, IsSound-Rows}
use inference_grid.Ledger.Effects.Dispatches.{finish-Effect}

pub get?-debit :
    (k : String) (v : ℕ) (windows estimate : Quota)
    → get? k windows ≡ some v
    → get? k (debit windows estimate) ≡ some (v - amount_of k estimate)
get?-debit k v [] estimate h = cc
get?-debit k v ((j, w) ∷ windows) estimate h = elim (Bool-cases (j == k)) [
  | inl same ↦ rw (same, (eq_iff j k).0 same) (ground arith)
  | inr other ↦ rw other (get?-debit k v windows estimate (ground arith))
]

module _ (aid : String) (generation : ℕ) where
  none_completable :
      (rows : List Attempt)
      → any (λ q. q.id == aid) rows ≡ false
      → any (completable aid generation) rows ≡ false
  none_completable [] h = refl
  none_completable (r ∷ rows) h = ground (arith, none_completable rows)

  -- With ids distinct, the one completable row is the row of the id.
  one_completable :
      (rows : List Attempt) (row : Attempt)
      → IsSound rows
      → first (λ q. q.id == aid) rows ≡ some row
      → length (where_rows (completable aid generation) rows) ≡ 1
      → completable aid generation row ≡ true
  one_completable [] row sound h n = cc
  one_completable (r ∷ rows) row sound h n = elim (Bool-cases (r.id == aid)) [
    | inl same ↦
        let others = none_completable rows (
          subst (λ x. any (λ (q : Attempt). q.id == x) rows ≡ false) ((eq_iff r.id aid).0 same)
            sound.0.id) in
        ground (arith, length-where_rows_none (completable aid generation) rows others)
    | inr other ↦ one_completable rows row sound.1 (ground arith) (ground arith)
  ]

pub record IsFinished (env : Env) (aid : String) (generation : ℕ) (receipt : Value) (s s' : State)
    : Type 0 where
  pub prior : Attempt
  pub task : Task
  pub acct : Account
  pub was : attempt_row aid s ≡ some prior
  pub was_dispatching : prior.state ≡ dispatching
  pub generation_of : prior.generation ≡ generation
  pub task_of : task_row prior.task s ≡ some task
  pub accepted_receipt :
      (model manifest : Value) × (item "model" task.spec ≡ ok model)
      × (item "manifest_sha256" task.spec ≡ ok manifest)
      × (is_empty (validate_receipt receipt model manifest) ≡ true)
  pub row :
      (now : ℕ) × (attempt_row aid s'
        ≡ some (record prior { state = completed; receipt = receipt; updated = now }))
  pub owner : account_row prior.account s ≡ some acct
  pub debited :
      account_row prior.account s'
      ≡ some (record acct { windows = debit acct.windows prior.estimate })
  pub less :
      (k : String) (v : ℕ)
      → get? k acct.windows ≡ some v
      → get? k (debit acct.windows prior.estimate) ≡ some (v - amount_of k prior.estimate)

dispatching_state : (st : AttemptState) → is_dispatching st ≡ true → st ≡ dispatching
dispatching_state dispatching h = refl
dispatching_state _ h = cc

module _ (env : Env) (clock : Clock) (aid : String) (generation : ℕ) (receipt : Value)
    (s : State) where
  completed_row :
      (prior : Attempt)
      → attempt_row aid s ≡ some prior
      → completable aid generation prior ≡ true
      → first (λ r. r.id == aid) (complete clock aid generation receipt s).attempts
        ≡ some (record prior { state = completed; receipt = receipt; updated = clock.time 0 })
  completed_row prior known current =
      let found =
        first-update_rows (λ (r : Attempt). r.id == aid) (completable aid generation)
          (λ (r : Attempt). record r {
            state = completed;
            receipt = receipt;
            updated = clock.time 0;
          })
          (λ x. refl) s.attempts prior known in
      ground (arith, found)

  debited_row :
      (name : String) (acct : Account) (windows : Quota)
      → account_row name s ≡ some acct
      → first
          (λ a. a.id == name)
          (update_rows (λ a. a.id == name) (λ a. record a { windows = windows }) s.accounts)
        ≡ some (record acct { windows = windows })
  debited_row name acct windows known =
      let found =
        first-update_rows (λ (a : Account). a.id == name) (λ (a : Account). a.id == name)
          (λ (a : Account). record a { windows = windows }) (λ x. refl) s.accounts acct known in
      let same = first-holds (λ (a : Account). a.id == name) s.accounts acct known in
      ground (arith, found, same)

  record Finished (out : Unit {0} × State) : Type 0 where
    finished : IsFinished env aid generation receipt s out.1

  finish-Finished :
      IsSound s.attempts → Ensures Finished (finish env clock aid generation receipt s)
  unfolding finish event
  finish-Finished sound = then_read _ _ λ prior was. then_read _ _ λ task task_of.
      then_bind _ λ model model_of. then_bind _ λ manifest manifest_of. then_unless _ _ λ valid.
        then_unless _ _ λ current. then_read _ _ λ acct owner.
          let here = one_completable aid generation s.attempts prior sound was (ground arith) in
          gives (record {
            finished = record {
              prior = prior;
              task = task;
              acct = acct;
              was = was;
              was_dispatching = dispatching_state prior.state (ground arith);
              generation_of = ground arith;
              task_of = task_of;
              accepted_receipt = (model, manifest, model_of, manifest_of, ground arith);
              row = (clock.time 0, completed_row prior was here);
              owner = owner;
              debited = debited_row prior.account acct _ owner;
              less = λ k v h. get?-debit k v acct.windows prior.estimate h;
            };
          })

-- `finish` completes an attempt only where it was dispatching under the given generation and the
-- receipt shows no error against the task's model and manifest; the attempt then holds the receipt,
-- and each window of its account is less its estimate, never below 0.
pub finish-IsFinished :
    (env : Env) (clock : Clock) (aid : String) (generation : ℕ) (receipt : Value) (s s' : State)
    → IsSound s.attempts
    → finish env clock aid generation receipt s ≡ ok (tt, s')
    → IsFinished env aid generation receipt s s'
finish-IsFinished env clock aid generation receipt s s' sound e =
    (Ensures-ok (finish-Finished env clock aid generation receipt s sound) e).finished

-- No attempt is completed twice: behind a `finish` that returned, every further `finish` of the attempt
-- is refused, with whatever generation, receipt and clock.
pub finish_once :
    (env : Env) (clock clock' : Clock) (aid : String) (generation generation' : ℕ)
    (receipt receipt' : Value) (s s' s'' : State)
    → IsSound s.attempts
    → finish env clock aid generation receipt s ≡ ok (tt, s')
    → finish env clock' aid generation' receipt' s' ≢ ok (tt, s'')
finish_once env clock clock' aid generation generation' receipt receipt' s s' s'' sound e e' =
    let done = finish-IsFinished env clock aid generation receipt s s' sound e in
    let effect = Ensures-ok (finish-Effect clock s env aid generation receipt) e in
    let again =
      finish-IsFinished env clock' aid generation' receipt' s' s''
        (IsSound-Rows effect.effect.attempts sound) e' in
    ground (arith, done.row.1, again.was, again.was_dispatching)
