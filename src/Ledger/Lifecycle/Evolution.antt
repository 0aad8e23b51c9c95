-- ===== src/Ledger/Lifecycle/Evolution.antt =====
-- Updates of the table of attempts as evolutions of its rows, and what evolutions keep.
use inference_grid.Prelude.{Bool, true, ◌≡◌, refl, List, [], ◌∷◌, update_rows, Bool-cases, inl, inr}
use inference_grid.Ledger.State.{
  AttemptState, queued, dispatching, held, completed, accepted, abandoned, failed, Attempt,
  is_active, is_queued, is_dispatching, is_held,
}
use inference_grid.Ledger.Resolve.{is_completed}
use inference_grid.Ledger.Lifecycle.{
  Moves, stay, dispatch, lose, hold, complete, release, consume, approve, Keeps, Evolves, none_left,
  row,
}

pub Keeps-refl : (r : Attempt) → Keeps r r
Keeps-refl r = record {
  id = refl;
  task = refl;
  account = refl;
  generation = refl;
  estimate = refl;
  workspace = refl;
  moves = stay;
}

pub Evolves-refl : (rows : List Attempt) → Evolves rows rows
Evolves-refl [] = none_left
Evolves-refl (r ∷ rows) = row (Keeps-refl r) (Evolves-refl rows)

pub update_rows-Evolves :
    (p : Attempt → Bool) (f : Attempt → Attempt)
    → ((r : Attempt) → p r ≡ true → Keeps r (f r))
    → (rows : List Attempt) → Evolves rows (update_rows p f rows)
update_rows-Evolves p f keeps [] = none_left
update_rows-Evolves p f keeps (r ∷ rows) = elim (Bool-cases (p r)) [
  | inl e ↦ rw e (row (keeps r e) (update_rows-Evolves p f keeps rows))
  | inr e ↦ rw e (row (Keeps-refl r) (update_rows-Evolves p f keeps rows))
]

-- The moves that the updates make from the state that they select.
pub queued-Moves : (st : AttemptState) → is_queued st ≡ true → Moves st dispatching × Moves st held
queued-Moves queued h = (dispatch, lose)
queued-Moves _ h = cc

pub dispatching-Moves :
    (st : AttemptState) → is_dispatching st ≡ true → Moves st held × Moves st completed
dispatching-Moves dispatching h = (hold, complete)
dispatching-Moves _ h = cc

pub held-Moves : (st : AttemptState) → is_held st ≡ true → Moves st abandoned × Moves st failed
held-Moves held h = (release, consume)
held-Moves _ h = cc

pub completed-Moves : (st : AttemptState) → is_completed st ≡ true → Moves st accepted
completed-Moves completed h = approve
completed-Moves _ h = cc

-- A row that is active was active before.
pub Moves-active :
    {st st' : AttemptState} → Moves st st' → is_active st' ≡ true → is_active st ≡ true
Moves-active stay h = h
Moves-active dispatch h = refl
Moves-active lose h = refl
Moves-active hold h = refl
Moves-active complete h = refl
Moves-active release h = refl
Moves-active consume h = refl
Moves-active approve h = cc
