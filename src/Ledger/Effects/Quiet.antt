-- ===== src/Ledger/Effects/Quiet.antt =====
-- Calls that update rows of attempts or accounts and leave the other tables' keys alone.
use inference_grid.Prelude.{
  String, Bool, true, ◌≡◌, refl, sym, subst, List, [], ◌∷◌, ◌==◌, any, All, update_rows, arith,
}
use inference_grid.Ledger.State.{Account, Attempt, State, is_known}
use inference_grid.Ledger.Lifecycle.{Evolves, none_left, row, updated}
use inference_grid.Ledger.Lifecycle.Evolution.{Evolves-refl}
use inference_grid.Ledger.Effects.{Effect, has_account}

-- An update that leaves the ids of accounts alone leaves out none.
pub any_account-update_rows :
    (name : String) (p : Account → Bool) (f : Account → Account)
    → ((a : Account) → (f a).id ≡ a.id)
    → (accounts : List Account)
    → any (λ a. a.id == name) (update_rows p f accounts) ≡ any (λ a. a.id == name) accounts
any_account-update_rows name p f same [] = refl
any_account-update_rows name p f same (a ∷ rest) =
    ground (arith, same a, any_account-update_rows name p f same rest)

module _ (P Q : String → Type 0) (weaken : (x : String) → P x → Q x) where
  pub All_task-Evolves :
      {rows rows' : List Attempt}
      → Evolves rows rows'
      → All (λ r. P r.task) rows
      → All (λ r. Q r.task) rows'
  All_task-Evolves none_left h = tt
  All_task-Evolves (row k e) h = (subst Q (sym k.task) (weaken _ h.0), All_task-Evolves e h.1)

  pub All_account-Evolves :
      {rows rows' : List Attempt}
      → Evolves rows rows'
      → All (λ r. P r.account) rows
      → All (λ r. Q r.account) rows'
  All_account-Evolves none_left h = tt
  All_account-Evolves (row k e) h =
      (subst Q (sym k.account) (weaken _ h.0), All_account-Evolves e h.1)

pub All_map {ℓ} :
    {A : Type ℓ} (P Q : A → Type 0) → ((x : A) → P x → Q x) → (xs : List A) → All P xs → All Q xs
All_map P Q weaken [] h = tt
All_map P Q weaken (x ∷ xs) h = (weaken x h.0, All_map P Q weaken xs h.1)

module _ {s s' : State} (tasks : s'.tasks ≡ s.tasks) (aliases : s'.aliases ≡ s.aliases)
    (observations : s'.observations ≡ s.observations)
    (accounts : (name : String) → has_account name s ≡ true → has_account name s' ≡ true) where
  -- The tables' keys are as before, and the attempts evolve.
  pub quiet-Effect : Evolves s.attempts s'.attempts → Effect s s'
  quiet-Effect e = record {
    attempts = updated e;
    tasks = λ name t h. rw tasks h;
    aliases = λ name a h. rw aliases h;
    connected = λ c. record {
      tasks =
          All_task-Evolves (λ x. is_known x s ≡ true) (λ x. is_known x s' ≡ true)
            (λ x h. rw tasks h) e c.tasks;
      accounts =
          All_account-Evolves (λ x. has_account x s ≡ true) (λ x. has_account x s' ≡ true)
            (λ x h. accounts x h) e c.accounts;
      bindings = rw aliases (
          All_map (λ a. has_account a.account s ≡ true) (λ a. has_account a.account s' ≡ true)
            (λ a h. accounts a.account h) s.aliases c.bindings);
      observed = rw observations (
          All_map (λ o. has_account o.account s ≡ true) (λ o. has_account o.account s' ≡ true)
            (λ o h. accounts o.account h) s.observations c.observed);
    };
  }

-- Nothing but events, cooldowns, observations or lanes changes.
pub idle-Effect :
    {s s' : State}
    → s'.tasks ≡ s.tasks
    → s'.aliases ≡ s.aliases
    → s'.observations ≡ s.observations
    → s'.accounts ≡ s.accounts
    → s'.attempts ≡ s.attempts
    → Effect s s'
idle-Effect {s} {s'} tasks aliases observations accounts attempts =
    quiet-Effect tasks aliases observations (λ name h. rw accounts h)
      (subst (Evolves s.attempts) (sym attempts) (Evolves-refl s.attempts))

pub Effect-refl : (s : State) → Effect s s
Effect-refl s = idle-Effect refl refl refl refl refl
