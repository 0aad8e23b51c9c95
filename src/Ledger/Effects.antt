-- ===== src/Ledger/Effects.antt =====
-- What a call may do to the tables, whatever it is: attempts change by `Rows`, stored tasks and bound
-- aliases stand, and what the rows refer to is there.
pub mod Quiet
pub mod Added
pub mod Admit
pub mod Dispatches
pub mod Resolves
pub mod Setup
pub mod Configures
use inference_grid.Prelude.{String, Bool, true, ◌≡◌, Option, some, ◌==◌, any, All}
use inference_grid.Ledger.State.{Task, Alias, Attempt, State, task_row, alias_row, is_known}
use inference_grid.Ledger.Lifecycle.{Rows}

abbrev pub has_account : String → State → Bool
has_account name s = any (λ a. a.id == name) s.accounts

-- What a row refers to has its row: an attempt's task and account, an alias's and an observation's
-- account.
pub record IsConnected (s : State) : Type 0 where
  pub tasks : All (λ r. is_known r.task s ≡ true) s.attempts
  pub accounts : All (λ r. has_account r.account s ≡ true) s.attempts
  pub bindings : All (λ a. has_account a.account s ≡ true) s.aliases
  pub observed : All (λ o. has_account o.account s ≡ true) s.observations

pub record Effect (s s' : State) : Type 0 where
  pub attempts : Rows s.attempts s'.attempts
  pub tasks : (name : String) (t : Task) → task_row name s ≡ some t → task_row name s' ≡ some t
  pub aliases : (name : String) (a : Alias) → alias_row name s ≡ some a → alias_row name s' ≡ some a
  pub connected : IsConnected s → IsConnected s'

-- The effect of a call that returns.
pub record Leaves {A : Type 0} (s : State) (out : A × State) : Type 0 where
  pub effect : Effect s out.1
