-- ===== src/Ledger/Resolve/Holds.antt =====
-- What `resolve` (src/inference_grid/ledger.py) does to a held attempt and to the quota it reserves.
use inference_grid.Prelude.{
  ℕ, String, true, false, ◌≡◌, refl, ◌==◌, some, arith, first-update_rows, first-holds,
}
use inference_grid.Value.{Value, truthy, value_eq, is_str}
use inference_grid.Result.{ok, Ensures, Ensures-ok, gives, then_bind, then_read, then_unless}
use inference_grid.Ledger.State.{
  AttemptState, held, completed, accepted, is_held, Account, Task, Attempt, State, Clock, Env,
  account_row, attempt_row, task_row, item, event,
}
use inference_grid.Ledger.Dispatch.{debit}
use inference_grid.Ledger.Resolve.{
  Resolution, released, consumed, resolution, resolve, settle_quota, set_resolved, resolvable,
  resolved_state, bounded_text, is_machine, accept, is_completed,
}

held_state : (st : AttemptState) → is_held st ≡ true → st ≡ held
held_state held h = refl
held_state _ h = cc

-- What the resolution does to the quota of the attempt's account.
pub data IsSettled (account : String) (r : Attempt) (s s' : State) : Resolution → Type 0 where
  untouched : s'.accounts ≡ s.accounts → IsSettled account r s s' released
  debited :
      {acct : Account}
      → account_row account s ≡ some acct
      → account_row account s' ≡ some (record acct { windows = debit acct.windows r.estimate })
      → IsSettled account r s s' consumed

pub record IsResolved (aid : String) (outcome_in operator_in : Value) (s : State)
    (out : AttemptState × State) : Type 0 where
  pub outcome : Resolution
  pub operator : String
  pub prior : Attempt
  pub chosen : resolution outcome_in ≡ some outcome
  pub attested : (bounded_text 100 operator_in ≡ some operator) × (is_machine operator ≡ false)
  pub was : attempt_row aid s ≡ some prior
  pub was_held : prior.state ≡ held
  pub answer : out.0 ≡ resolved_state outcome
  pub row :
      (now : ℕ) × (attempt_row aid out.1
        ≡ some (record prior { state = resolved_state outcome; updated = now }))
  pub quota : IsSettled prior.account prior s out.1 outcome

module _ (clock : Clock) (aid : String) (s : State) where
  resolved_row :
      (o : Resolution) (prior : Attempt)
      → attempt_row aid s ≡ some prior
      → is_held prior.state ≡ true
      → attempt_row aid (set_resolved clock aid o s)
        ≡ some (record prior { state = resolved_state o; updated = clock.time 0 })
  resolved_row o prior known now_held =
      let found =
        first-update_rows (λ (r : Attempt). r.id == aid) (resolvable aid)
          (λ (r : Attempt). record r { state = resolved_state o; updated = clock.time 0 })
          (λ x. refl) s.attempts prior known in
      let same = first-holds (λ (r : Attempt). r.id == aid) s.attempts prior known in
      ground (arith, found, same)

  record Settles (o : Resolution) (prior : Attempt) (t : State) : Type 0 where
    attempts : t.attempts ≡ (set_resolved clock aid o s).attempts
    quota : IsSettled prior.account prior s t o

  settle_quota-Settles :
      (o : Resolution) (prior : Attempt)
      → Ensures (Settles o prior) (settle_quota o prior (set_resolved clock aid o s))
  unfolding settle_quota
  settle_quota-Settles released prior = gives (record { attempts = refl; quota = untouched refl })
  settle_quota-Settles consumed prior = then_read (account_row prior.account s) _ λ acct known.
      let found =
        first-update_rows (λ (a : Account). a.id == prior.account)
          (λ (a : Account). a.id == prior.account)
          (λ (a : Account). record a { windows = debit acct.windows prior.estimate }) (λ x. refl)
          s.accounts acct known in
      let same = first-holds (λ (a : Account). a.id == prior.account) s.accounts acct known in
      gives (record { attempts = refl; quota = debited known (ground (arith, found, same)) })

IsSettled-event :
    (account : String) (r : Attempt) (s t t' : State) (o : Resolution)
    → t'.accounts ≡ t.accounts
    → IsSettled account r s t o
    → IsSettled account r s t' o
IsSettled-event account r s t t' released e (untouched h) = untouched (cc)
IsSettled-event account r s t t' consumed e (debited known h) = debited known (rw e h)

resolve-Ensures :
    (env : Env) (clock : Clock) (aid : String) (outcome reason operator evidence : Value)
    (s : State)
    → Ensures
        (IsResolved aid outcome operator s)
        (resolve env clock aid outcome reason operator evidence s)
unfolding resolve event
resolve-Ensures env clock aid outcome_in reason_in operator_in evidence s =
    then_read _ _ λ o chosen. then_read _ _ λ reason bounded. then_read _ _ λ operator attested.
      then_unless _ _ λ human. then_unless _ _ λ object. then_read _ _ λ prior was.
        then_unless _ _ λ held_now. then_unless _ _ λ unchanged.
          then_bind (settle_quota o prior (set_resolved clock aid o s)) λ settled e.
            let done = Ensures-ok (settle_quota-Settles clock aid s o prior) e in
            gives (record {
              outcome = o;
              operator = operator;
              prior = prior;
              chosen = chosen;
              attested = (attested, human);
              was = was;
              was_held = held_state prior.state (ground arith);
              answer = refl;
              row = (
                clock.time 0,
                rw done.attempts (resolved_row clock aid s o prior was (ground arith)),
              );
              quota = IsSettled-event prior.account prior s settled _ o refl done.quota;
            })

-- A `resolve` that returns had a held attempt and an operator whose name is no machine's; the attempt
-- is then abandoned or failed as asked, and the quota of its account is debited by the attempt's
-- estimate where it was consumed, and left alone where it was released.
pub resolve-IsResolved :
    (env : Env) (clock : Clock) (aid : String) (outcome reason operator evidence : Value)
    (s : State) (out : AttemptState × State)
    → resolve env clock aid outcome reason operator evidence s ≡ ok out
    → IsResolved aid outcome operator s out
resolve-IsResolved env clock aid outcome reason operator evidence s out e =
    Ensures-ok (resolve-Ensures env clock aid outcome reason operator evidence s) e

completed_state : (st : AttemptState) → is_completed st ≡ true → st ≡ completed
completed_state completed h = refl
completed_state _ h = cc

pub record IsAccepted (env : Env) (aid : String) (receipt_digest family verdict : Value)
    (s s' : State) : Type 0 where
  pub prior : Attempt
  pub task : Task
  pub was : attempt_row aid s ≡ some prior
  pub was_completed : prior.state ≡ completed
  pub same_receipt : is_str (env.digest prior.receipt) receipt_digest ≡ true
  pub task_of : task_row prior.task s ≡ some task
  pub independent :
      (author : Value) × (item "family" task.spec ≡ ok author)
      × (truthy family ≡ true)
      × (value_eq family author ≡ false)
  pub approved : is_str "approved" verdict ≡ true
  pub row : attempt_row aid s' ≡ some (record prior { state = accepted })

record Accepted (env : Env) (aid : String) (receipt_digest family verdict : Value) (s : State)
    (out : Unit {0} × State) : Type 0 where
  accepted_now : IsAccepted env aid receipt_digest family verdict s out.1

accept-Ensures :
    (env : Env) (clock : Clock) (aid : String) (receipt_digest family verdict : Value) (s : State)
    → Ensures
        (Accepted env aid receipt_digest family verdict s)
        (accept env clock aid receipt_digest family verdict s)
unfolding accept event
accept-Ensures env clock aid receipt_digest family verdict s = then_read _ _ λ prior was.
    then_read _ _ λ task task_of. then_unless _ _ λ candidate. then_unless _ _ λ reviewed.
      then_bind _ λ author author_of. then_unless _ _ λ verdict_of.
        let found =
          first-update_rows (λ (r : Attempt). r.id == aid) (λ (r : Attempt). r.id == aid)
            (λ (r : Attempt). record r { state = accepted }) (λ x. refl) s.attempts prior was in
        let same = first-holds (λ (r : Attempt). r.id == aid) s.attempts prior was in
        gives (record {
          accepted_now = record {
            prior = prior;
            task = task;
            was = was;
            was_completed = completed_state prior.state (ground arith);
            same_receipt = ground arith;
            task_of = task_of;
            independent = (author, author_of, ground arith, ground arith);
            approved = ground arith;
            row = ground (arith, found, same);
          };
        })

-- An `accept` that returns had a completed attempt whose receipt has the given digest, an approving
-- verdict, and a reviewer's family that is there and is not the family of the attempt's task; the
-- attempt is then accepted and otherwise as it was.
pub accept-IsAccepted :
    (env : Env) (clock : Clock) (aid : String) (receipt_digest family verdict : Value)
    (s s' : State)
    → accept env clock aid receipt_digest family verdict s ≡ ok (tt, s')
    → IsAccepted env aid receipt_digest family verdict s s'
accept-IsAccepted env clock aid receipt_digest family verdict s s' e =
    (Ensures-ok (accept-Ensures env clock aid receipt_digest family verdict s) e).accepted_now
