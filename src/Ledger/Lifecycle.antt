-- ===== src/Ledger/Lifecycle.antt =====
-- The life of an attempt: the moves between states, and how a call may change the table of attempts.
pub mod Evolution
pub mod Soundness
use inference_grid.Prelude.{ℕ, String, Bool, true, false, ◌≡◌, List, [], ◌∷◌, ◌==◌, any}
use inference_grid.Ledger.State.{
  AttemptState, queued, dispatching, held, completed, accepted, abandoned, failed, Attempt,
  is_active,
}
use inference_grid.Ledger.Claim.{holds_workspace}

-- The moves of docs/SPEC.md: nothing returns to `queued`, and a held attempt is only ever resolved.
pub data Moves : AttemptState → AttemptState → Type 0 where
  stay : {st : AttemptState} → Moves st st
  dispatch : Moves queued dispatching
  lose : Moves queued held
  hold : Moves dispatching held
  complete : Moves dispatching completed
  release : Moves held abandoned
  consume : Moves held failed
  approve : Moves completed accepted

-- A later version of a row: its identity and its reservation stand, and its state made a move.
pub record Keeps (r r' : Attempt) : Type 0 where
  pub id : r'.id ≡ r.id
  pub task : r'.task ≡ r.task
  pub account : r'.account ≡ r.account
  pub generation : r'.generation ≡ r.generation
  pub estimate : r'.estimate ≡ r.estimate
  pub workspace : r'.workspace ≡ r.workspace
  pub moves : Moves r.state r'.state

pub data Evolves : List Attempt → List Attempt → Type 0 where
  none_left : Evolves [] []
  row :
      {r r' : Attempt} {rows rows' : List Attempt}
      → Keeps r r'
      → Evolves rows rows'
      → Evolves (r ∷ rows) (r' ∷ rows')

-- A row that a table does not clash with.
pub record IsNew (r : Attempt) (rows : List Attempt) : Type 0 where
  pub id : any (λ q. q.id == r.id) rows ≡ false
  pub task : any (λ q. q.task == r.task) rows ≡ false
  pub workspace : is_active r.state ≡ true → any (holds_workspace r.workspace) rows ≡ false

-- One call updates rows, or adds one.
pub data Rows (rows rows' : List Attempt) : Type 0 where
  updated : Evolves rows rows' → Rows rows rows'
  added : (r : Attempt) → IsNew r rows → rows' ≡ r ∷ rows → Rows rows rows'
