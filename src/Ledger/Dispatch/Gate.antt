-- ===== src/Ledger/Dispatch/Gate.antt =====
-- What stands when `start` hands out an attempt, and that it hands it out once.
use inference_grid.Prelude.{
  ℕ, String, Bool, true, false, ◌≡◌, refl, subst, ◌≤◌, ◌<◌, ◌==◌, ◌&&◌, eqb, leb, Option, none,
  some, List, [], ◌∷◌, inl, inr, Option-cases, Bool-cases, arith, eq_iff, first-update_rows, length,
  where_rows, All, if◌then◌else◌,
}
use inference_grid.Value.{Value, Dict, get?}
use inference_grid.Result.{ok, Ensures, Ensures-ok, gives, then_bind, then_read}
use inference_grid.Ledger.State.{
  Quota, AttemptState, Account, Task, Attempt, State, Clock, queued, dispatching, is_queued,
  account_row, task_row, attempt_row, reserved, same_keys, has_model, item, event,
}
use inference_grid.Ledger.Claim.{inference_paused, holds_account}
use inference_grid.Ledger.Dispatch.{
  start, start_row, admission_lost, stale_or_ineligible, over_budget, changed_windows, dispatch,
  dispatchable, hold_lost,
}

over_budget-fits :
    (clock : Clock) (windows : Quota) (rows : List Attempt) (k : String) (v : ℕ)
    → over_budget clock windows rows ≡ false
    → get? k windows ≡ some v
    → reserved clock k rows ≤ v
unfolding over_budget
over_budget-fits clock [] rows k v h e = cc
over_budget-fits clock ((j, w) ∷ windows) rows k v h e = elim (Bool-cases (j == k)) [
  | inl same ↦ subst (λ x. reserved clock x rows ≤ v) ((eq_iff j k).0 same) (ground arith)
  | inr other ↦ over_budget-fits clock windows rows k v (ground arith) (ground arith)
]

changed_windows-All :
    (windows : Quota) (rows : List Attempt)
    → changed_windows windows rows ≡ false
    → All (λ r. same_keys r.estimate windows ≡ true) rows
changed_windows-All windows [] h = tt
changed_windows-All windows (r ∷ rows) h =
    (ground arith, changed_windows-All windows rows (ground arith))

-- An admission that stands at the moment of dispatch.
pub record IsStanding (clock : Clock) (prior : Attempt) (spec : Dict) (acct : Account) (s : State)
    : Type 0 where
  pub fresh : clock.time 1 < acct.expires
  pub eligible : (model : Value) × (item "model" spec ≡ ok model) × (has_model model acct ≡ true)
  pub quota :
      (k : String) (v : ℕ)
      → get? k acct.windows ≡ some v
      → reserved clock k (where_rows (holds_account prior.account) s.attempts) ≤ v
  pub slots : length (where_rows (holds_account prior.account) s.attempts) ≤ acct.capacity
  pub same_windows :
      All
        (λ r. same_keys r.estimate acct.windows ≡ true)
        (where_rows (holds_account prior.account) s.attempts)
  pub unpaused : inference_paused (clock.time 0) prior.account s ≡ false

-- The first test of the admission, where it passes.
record IsEligible (now : ℕ) (spec : Dict) (acct : Account) (stale : Bool) : Type 0 where
  unless :
      stale ≡ false
      → (now < acct.expires)
        × ((model : Value) × (item "model" spec ≡ ok model) × (has_model model acct ≡ true))

stale-IsEligible :
    (now : ℕ) (spec : Dict) (acct : Account)
    → Ensures (IsEligible now spec acct) (stale_or_ineligible now spec acct)
unfolding stale_or_ineligible
stale-IsEligible now spec acct = elim (Bool-cases (leb acct.expires now)) [
  | inl expired ↦ rw expired (gives (record { unless = λ h. cc }))
  | inr fresh ↦ rw fresh (
      then_bind _ λ model found.
        gives (record { unless = λ h. (ground arith, (model, found, ground arith)) }))
]

record StandsUnless (clock : Clock) (prior : Attempt) (spec : Dict) (acct : Account) (s : State)
    (lost : Bool) : Type 0 where
  unless : lost ≡ false → IsStanding clock prior spec acct s

lost-StandsUnless :
    (clock : Clock) (prior : Attempt) (spec : Dict) (acct : Account) (s : State)
    → Ensures (StandsUnless clock prior spec acct s) (admission_lost clock prior spec acct s)
unfolding admission_lost
lost-StandsUnless clock prior spec acct s = then_bind _ λ stale e.
    let passed = Ensures-ok (stale-IsEligible (clock.time 1) spec acct) e in
    gives (record {
      unless = λ h. record {
        fresh = (passed.unless (ground arith)).0;
        eligible = (passed.unless (ground arith)).1;
        quota = λ k v found. over_budget-fits clock acct.windows _ k v (ground arith) found;
        slots = ground arith;
        same_windows = changed_windows-All acct.windows _ (ground arith);
        unpaused = ground arith;
      };
    })

pub record IsDispatched (clock : Clock) (aid : String) (generation : ℕ) (s : State) (r : Attempt)
    (spec : Dict) (s' : State) : Type 0 where
  pub prior : Attempt
  pub acct : Account
  pub job : Task
  pub was : attempt_row aid s ≡ some prior
  pub was_queued : prior.state ≡ queued
  pub generation_of : prior.generation ≡ generation
  pub owner : account_row prior.account s ≡ some acct
  pub task : task_row prior.task s ≡ some job
  pub spec_of : spec ≡ job.spec
  pub standing : IsStanding clock prior job.spec acct s
  pub row : attempt_row aid s' ≡ some r
  pub now_dispatching : r.state ≡ dispatching

-- What `start` returned: nothing, or a dispatched attempt.
data Started (clock : Clock) (aid : String) (generation : ℕ) (s : State)
    : Option (Attempt × Dict) × State → Type 0 where
  skipped : {s' : State} → Started clock aid generation s (none, s')
  dispatched :
      {r : Attempt} {spec : Dict} {s' : State}
      → IsDispatched clock aid generation s r spec s'
      → Started clock aid generation s (some (r, spec), s')

queued_state : (st : AttemptState) → is_queued st ≡ true → st ≡ queued
queued_state queued h = refl
queued_state _ h = cc

module _ (clock : Clock) (aid : String) (generation : ℕ) (s : State) where
  -- The row is still found by its id, and its state is now `dispatching`.
  pub dispatched_row :
      (prior : Attempt)
      → attempt_row aid s ≡ some prior
      → is_queued prior.state ≡ true
      → attempt_row aid (dispatch clock prior.id prior.generation s)
        ≡ some (record prior { state = dispatching; updated = clock.time 2 })
  unfolding event
  dispatched_row prior known queued_now =
      let found =
        first-update_rows (λ (r : Attempt). r.id == aid) (dispatchable prior.id prior.generation)
          (λ (r : Attempt). record r { state = dispatching; updated = clock.time 2 }) (λ x. refl)
          s.attempts prior known in
      ground (arith, found, eq_iff prior.id prior.id)

  lost_cases-Started :
      (prior : Attempt) (acct : Account) (job : Task) (lost : Bool)
      → attempt_row aid s ≡ some prior
      → (eqb prior.generation generation && is_queued prior.state) ≡ true
      → account_row prior.account s ≡ some acct
      → task_row prior.task s ≡ some job
      → StandsUnless clock prior job.spec acct s lost
      → Started clock aid generation s (
          if lost
          then (none, hold_lost clock prior.id (inference_paused (clock.time 0) prior.account s) s)
          else (
            some (record prior { state = dispatching; updated = clock.time 2 }, job.spec),
            dispatch clock prior.id prior.generation s,
          ))
  lost_cases-Started prior acct job true known current owner task h = skipped
  lost_cases-Started prior acct job false known current owner task h = dispatched (record {
    prior = prior;
    acct = acct;
    job = job;
    was = known;
    was_queued = queued_state prior.state (ground arith);
    generation_of = ground arith;
    owner = owner;
    task = task;
    spec_of = refl;
    standing = h.unless refl;
    row = dispatched_row prior known (ground arith);
    now_dispatching = refl;
  })

  start_row-Started :
      (prior : Attempt)
      → attempt_row aid s ≡ some prior
      → (eqb prior.generation generation && is_queued prior.state) ≡ true
      → Ensures (Started clock aid generation s) (start_row clock prior s)
  unfolding start_row
  start_row-Started prior known current = then_read _ _ λ acct owner. then_read _ _ λ job task.
      then_bind _ λ lost found. gives (
        lost_cases-Started prior acct job lost known current owner task
          (Ensures-ok (lost-StandsUnless clock prior job.spec acct s) found))

  start-Started : Ensures (Started clock aid generation s) (start clock aid generation s)
  unfolding start
  start-Started = elim (Option-cases (attempt_row aid s)) [
    | inl absent ↦ rw (absent, start) (gives skipped)
    | inr (prior, known) ↦
        rw (known, start)
          (elim (Bool-cases (eqb prior.generation generation && is_queued prior.state)) [
            | inl current ↦ rw current (start_row-Started prior known current)
            | inr stale ↦ rw stale (gives skipped)
          ])
  ]

Started-IsDispatched :
    {clock : Clock} {aid : String} {generation : ℕ} {s : State} {r : Attempt} {spec : Dict}
    {s' : State}
    → Started clock aid generation s (some (r, spec), s')
    → IsDispatched clock aid generation s r spec s'
Started-IsDispatched (dispatched d) = d

-- `start` hands out an attempt only if it was queued under the given generation and its admission
-- still stands: the observation is fresh, the task's model is one of the account's, no inference
-- cooldown holds, the account's active attempts are within its capacity, each names the account's
-- windows, and their reservations, summed as Python's `sum` sums them, are within the quota of every
-- window. The attempt is then `dispatching`.
pub start-IsDispatched :
    (clock : Clock) (aid : String) (generation : ℕ) (s : State) (r : Attempt) (spec : Dict)
    (s' : State)
    → start clock aid generation s ≡ ok (some (r, spec), s')
    → IsDispatched clock aid generation s r spec s'
start-IsDispatched clock aid generation s r spec s' e =
    Started-IsDispatched (Ensures-ok (start-Started clock aid generation s) e)

-- Duplicate delivery: behind a `start` that handed the attempt out, every further `start` of it, with
-- any generation, returns nothing and changes nothing.
pub start_once :
    (clock clock' : Clock) (aid : String) (generation generation' : ℕ) (s : State) (r : Attempt)
    (spec : Dict) (s' : State)
    → start clock aid generation s ≡ ok (some (r, spec), s')
    → start clock' aid generation' s' ≡ ok (none, s')
unfolding start
start_once clock clock' aid generation generation' s r spec s' e =
    let d = start-IsDispatched clock aid generation s r spec s' e in
    ground (arith, d.row, d.now_dispatching)
