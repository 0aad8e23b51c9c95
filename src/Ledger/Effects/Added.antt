-- ===== src/Ledger/Effects/Added.antt =====
-- Calls that add an attempt, and calls in two parts.
use inference_grid.Prelude.{String, true, ◌≡◌, sym, subst, ◌∷◌}
use inference_grid.Ledger.State.{Attempt, State, is_known}
use inference_grid.Ledger.Lifecycle.{IsNew, Rows, added}
use inference_grid.Ledger.Effects.{Effect, has_account}
use inference_grid.Ledger.Effects.Quiet.{All_map}

module _ {s s' : State} (r : Attempt) (tasks : s'.tasks ≡ s.tasks)
    (aliases : s'.aliases ≡ s.aliases) (observations : s'.observations ≡ s.observations)
    (accounts : (name : String) → has_account name s ≡ true → has_account name s' ≡ true)
    (attempts : s'.attempts ≡ r ∷ s.attempts) where
  pub added-Effect :
      IsNew r s.attempts → is_known r.task s ≡ true → has_account r.account s ≡ true → Effect s s'
  added-Effect new task account = record {
    attempts = added r new attempts;
    tasks = λ name t h. rw tasks h;
    aliases = λ name a h. rw aliases h;
    connected = λ c. record {
      tasks = rw attempts (
        rw tasks task,
        All_map (λ q. is_known q.task s ≡ true) (λ q. is_known q.task s' ≡ true) (λ q h. rw tasks h)
            s.attempts c.tasks,
      );
      accounts = rw attempts (
        accounts r.account account,
        All_map (λ q. has_account q.account s ≡ true) (λ q. has_account q.account s' ≡ true)
            (λ q h. accounts q.account h) s.attempts c.accounts,
      );
      bindings = rw aliases (
          All_map (λ a. has_account a.account s ≡ true) (λ a. has_account a.account s' ≡ true)
            (λ a h. accounts a.account h) s.aliases c.bindings);
      observed = rw observations (
          All_map (λ o. has_account o.account s ≡ true) (λ o. has_account o.account s' ≡ true)
            (λ o h. accounts o.account h) s.observations c.observed);
    };
  }

module _ {s t u : State} (first_part : Effect s t) (second_part : Effect t u) where
  -- Two parts of a call, of which only one touches the attempts.
  joined : Rows s.attempts u.attempts → Effect s u
  joined rows = record {
    attempts = rows;
    tasks = λ name x h. second_part.tasks name x (first_part.tasks name x h);
    aliases = λ name x h. second_part.aliases name x (first_part.aliases name x h);
    connected = λ c. second_part.connected (first_part.connected c);
  }

  pub before-Effect : t.attempts ≡ s.attempts → Effect s u
  before-Effect same = joined (subst (λ rows. Rows rows u.attempts) same second_part.attempts)

  pub behind-Effect : u.attempts ≡ t.attempts → Effect s u
  behind-Effect same = joined (subst (Rows s.attempts) (sym same) first_part.attempts)
