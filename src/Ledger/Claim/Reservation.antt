-- ===== src/Ledger/Claim/Reservation.antt =====
-- The reservation that a claim adds fits: quota, slots and refusals.
use inference_grid.Prelude.{
  ℕ, String, true, false, ◌≡◌, refl, sym, subst, ◌+◌, ◌≤◌, ◌<◌, All, ◌≢◌, ◌==◌, some, List, [], ◌∷◌,
  inl, inr, ◌⊎◌, Option-cases, Bool-cases, arith, eq_iff, any, length, where_rows,
}
use inference_grid.Value.{Number, Dict, get?, has_key}
use inference_grid.Result.{
  ok, Ensures, Ensures-ok, Result-cases, then_read, then_bind, then_unless, gives, raises, chain,
}
use inference_grid.Ledger.State.{
  Quota, Account, Alias, Attempt, State, Clock, Task, queued, text_item, task_row, attempt_row,
  account_row, alias_row, reserved, same_keys, all_keys_in, event,
}
use inference_grid.Ledger.Claim.{
  positive_quota, positive_amount, positive_amounts, claim, check_windows, holds_account,
  holds_workspace, inference_paused, admitted_attempt,
}
use inference_grid.Ledger.Claim.Admission.{Admission, claim-Admission}

-- The loop over the windows, read at one of them.
check_windows-fits :
    (clock : Clock) (k : String) (cost : ℕ) (estimate windows : Quota) (rows : List Attempt)
    → check_windows clock estimate windows rows ≡ ok tt
    → get? k estimate ≡ some cost
    → (v : ℕ) × (get? k windows ≡ some v) × (clock.plus (reserved clock k rows) cost ≤ v)
unfolding check_windows chain
check_windows-fits clock k cost [] windows rows h e = cc
check_windows-fits clock k cost ((j, c) ∷ estimate) windows rows h e =
    elim (Option-cases (get? j windows)) [
      | inl absent ↦ absurd (ground arith)
      | inr (v, found) ↦ elim (Bool-cases (j == k)) [
        | inl same ↦ (
          v,
          subst (λ x. get? x windows ≡ some v) ((eq_iff j k).0 same) found,
          subst (λ x. clock.plus (reserved clock x rows) cost ≤ v) ((eq_iff j k).0 same)
              (ground arith),
        )
        | inr other ↦
            check_windows-fits clock k cost estimate windows rows (ground arith) (ground arith)
      ]
    ]

has_key-get? : (k : String) (d : Quota) → has_key k d ≡ true → (v : ℕ) × (get? k d ≡ some v)
has_key-get? k [] h = cc
has_key-get? k ((j, w) ∷ d) h = elim (Bool-cases (j == k)) [
  | inl same ↦ (w, rw same)
  | inr other ↦ let (v, e) = has_key-get? k d (ground arith) in (v, rw other e)
]

all_keys_in-has_key :
    (k : String) (v : ℕ) (d e : Quota)
    → all_keys_in d e ≡ true
    → get? k d ≡ some v
    → has_key k e ≡ true
all_keys_in-has_key k v [] e h found = cc
all_keys_in-has_key k v ((j, w) ∷ d) e h found = elim (Bool-cases (j == k)) [
  | inl same ↦ subst (λ x. has_key x e ≡ true) ((eq_iff j k).0 same) (ground arith)
  | inr other ↦ all_keys_in-has_key k v d e (ground arith) (ground arith)
]

-- How an attempt's estimate fits its account: by slots with the rows behind the claim, and by quota
-- over the rows in front of it. The sums are those of Python, the reservations first.
pub record IsWithin (clock : Clock) (account : String) (acct : Account) (estimate : Quota)
    (before behind : List Attempt) : Type 0 where
  pub slots : length (where_rows (holds_account account) behind) ≤ acct.capacity
  pub quota :
      (k : String) (v : ℕ)
      → get? k acct.windows ≡ some v
      → (cost : ℕ) × (get? k estimate ≡ some cost)
        × (clock.plus (reserved clock k (where_rows (holds_account account) before)) cost ≤ v)

module _ {clock : Clock} {aid task alias : String} {estimate_in : Dict} {s : State}
    (out : (String × ℕ) × State) (a : Admission clock aid task alias estimate_in s out) where
  open a use {estimate, binding, acct, workspace}

  admitted_slots :
      length (
        where_rows (holds_account binding.account) (
          admitted_attempt aid task binding.account
            (acct.generation + 1)
            estimate
            workspace
            (clock.time 2)
          ∷ s.attempts))
      ≤ acct.capacity
  admitted_slots = ground (arith, eq_iff binding.account binding.account, a.slot_free)

  admitted_quota :
      (k : String) (v : ℕ)
      → get? k acct.windows ≡ some v
      → (cost : ℕ) × (get? k estimate ≡ some cost)
        × (clock.plus
              (reserved clock k (where_rows (holds_account binding.account) s.attempts))
              cost
            ≤ v)
  unfolding same_keys
  admitted_quota k v e =
      let both : same_keys estimate acct.windows ≡ true = ground (arith, a.all_windows) in
      let known = all_keys_in-has_key k v acct.windows estimate (ground arith) e in
      let (cost, reserved_cost) = has_key-get? k estimate known in
      let (v', found, fits) =
        check_windows-fits clock k cost estimate acct.windows _ a.fits reserved_cost in
      (cost, reserved_cost, ground (arith, found, fits, e))

positive_amount-pos : (n : Number) (q : ℕ) → positive_amount n ≡ ok q → 0 < q
unfolding positive_amount chain
positive_amount-pos n q h = ground arith

positive_amounts-All : (d : Dict) (q : Quota) → positive_amounts d ≡ ok q → All (λ e. 0 < e.1) q
unfolding positive_amounts
positive_amounts-All [] q h = Ensures-ok {P = All (λ e. 0 < e.1)} (gives tt) h
positive_amounts-All ((k, v) ∷ d) q h =
    Ensures-ok {P = All (λ e. 0 < e.1)}
      (then_read _ _ λ n number. then_bind _ λ cost positive. then_bind _ λ rest positive_rest.
        gives (positive_amount-pos n cost positive, positive_amounts-All d rest positive_rest))
      h

positive_quota-All : (d : Dict) → Ensures (All (λ (e : String × ℕ). 0 < e.1)) (positive_quota d)
unfolding positive_quota
positive_quota-All d = then_unless _ _ λ nonempty. elim (Result-cases (positive_amounts d)) [
  | inl (q, e) ↦ rw e (gives (positive_amounts-All d q e))
  | inr (x, e) ↦ rw e raises
]

-- What a claim that returns has found, and what its attempt is.
pub record IsAdmitted (clock : Clock) (task alias : String) (s : State) (out : (String × ℕ) × State)
    : Type 0 where
  pub binding : Alias
  pub acct : Account
  pub attempt : Attempt
  pub bound : alias_row alias s ≡ some binding
  pub owner : account_row binding.account s ≡ some acct
  pub unpaused : inference_paused (clock.time 0) binding.account s ≡ false
  pub fresh : clock.time 1 < acct.expires
  pub row : attempt_row out.0.0 out.1 ≡ some attempt
  pub for_task : attempt.task ≡ task
  pub on_account : attempt.account ≡ binding.account
  pub is_queued : attempt.state ≡ queued
  pub generation : (attempt.generation ≡ out.0.1) × (out.0.1 ≡ acct.generation + 1)
  pub costs : All (λ e. 0 < e.1) attempt.estimate
  pub all_windows : same_keys attempt.estimate acct.windows ≡ true
  pub within : IsWithin clock binding.account acct attempt.estimate s.attempts out.1.attempts

Admission-IsAdmitted :
    {clock : Clock} {aid task alias : String} {estimate : Dict} {s : State}
    (out : (String × ℕ) × State)
    → Admission clock aid task alias estimate s out
    → IsAdmitted clock task alias s out
unfolding event
Admission-IsAdmitted {clock} {aid} {task} {alias} {estimate} {s} out a =
    subst (IsAdmitted clock task alias s) (sym a.result) (record {
      binding = a.binding;
      acct = a.acct;
      attempt =
          admitted_attempt aid task a.binding.account (a.acct.generation + 1) a.estimate a.workspace
            (clock.time 2);
      bound = a.known_alias;
      owner = a.known_account;
      unpaused = a.not_paused;
      fresh = ground (arith, a.unexpired);
      row = ground (arith, eq_iff aid aid);
      for_task = refl;
      on_account = refl;
      is_queued = refl;
      generation = (refl, refl);
      costs = Ensures-ok (positive_quota-All estimate) a.positive;
      all_windows = ground (arith, a.all_windows);
      within = record { slots = admitted_slots out a; quota = admitted_quota out a };
    })

-- A claim that returns has admitted a queued attempt of the task on the alias's account, under a new
-- generation, while no inference cooldown held and the quota observation was fresh; its estimate
-- names exactly the account's windows, each at a cost above 0. With it the account's active attempts
-- are within the capacity, and in every window its cost, added to the sum of what the account's active
-- attempts had reserved, is within the quota, by Python's `sum` and `+`.
pub claim-IsAdmitted :
    (clock : Clock) (aid task alias : String) (estimate : Dict) (s : State)
    (out : (String × ℕ) × State)
    → claim clock aid task alias estimate s ≡ ok out
    → IsAdmitted clock task alias s out
claim-IsAdmitted clock aid task alias estimate s out e =
    Admission-IsAdmitted out (Ensures-ok (claim-Admission clock aid task alias estimate s) e)

-- A claim is never admitted where the task has an attempt, whatever became of that attempt, where an
-- active attempt holds the task's workspace, or where the account's inference cooldown lasts.
pub claim_refused :
    (clock : Clock) (aid task alias : String) (estimate : Dict) (s : State) (job : Task)
    (workspace : String) (binding : Alias)
    → task_row task s ≡ some job
    → text_item "workspace" job.spec ≡ ok workspace
    → alias_row alias s ≡ some binding
    → (any (λ r. r.task == task) s.attempts ≡ true)
      ⊎ ((any (holds_workspace workspace) s.attempts ≡ true)
          ⊎ (inference_paused (clock.time 0) binding.account s ≡ true))
    → (out : (String × ℕ) × State) → claim clock aid task alias estimate s ≢ ok out
claim_refused clock aid task alias estimate s job workspace binding known at bound h out e =
    let a = Ensures-ok (claim-Admission clock aid task alias estimate s) e in
    ground (
      arith, a.unattempted, a.workspace_free, a.not_paused, a.known_task, a.workspace_of,
      a.known_alias,
    )
