-- ===== src/Ledger/Lifecycle/Soundness.antt =====
-- The invariant of the table of attempts, and that every change of `Rows` keeps it.
use inference_grid.Prelude.{String, false, ◌≡◌, refl, List, [], ◌∷◌, ◌==◌, any, arith, subst, sym}
use inference_grid.Ledger.State.{Attempt}
use inference_grid.Ledger.Claim.{holds_workspace}
use inference_grid.Ledger.Lifecycle.{Keeps, Evolves, none_left, row, IsNew, Rows, updated, added}
use inference_grid.Ledger.Lifecycle.Evolution.{Moves-active}

-- Ids differ, no task has two attempts, and no two active attempts share a workspace.
abbrev pub IsSound : List Attempt → Type 0
IsSound [] = Unit
IsSound (r ∷ rows) = IsNew r rows × IsSound rows

module _ (x : String) where
  pub any_id-Evolves :
      {rows rows' : List Attempt}
      → Evolves rows rows'
      → any (λ q. q.id == x) rows' ≡ any (λ q. q.id == x) rows
  any_id-Evolves none_left = refl
  any_id-Evolves (row k e) = cc (k.id, any_id-Evolves e)

  pub any_task-Evolves :
      {rows rows' : List Attempt}
      → Evolves rows rows'
      → any (λ q. q.task == x) rows' ≡ any (λ q. q.task == x) rows
  any_task-Evolves none_left = refl
  any_task-Evolves (row k e) = cc (k.task, any_task-Evolves e)

  pub workspace_free-Evolves :
      {rows rows' : List Attempt}
      → Evolves rows rows'
      → any (holds_workspace x) rows ≡ false
      → any (holds_workspace x) rows' ≡ false
  workspace_free-Evolves none_left h = refl
  workspace_free-Evolves (row k e) h =
      ground (arith, k.workspace, Moves-active k.moves, workspace_free-Evolves e)

IsNew-Evolves :
    {r r' : Attempt} {rows rows' : List Attempt}
    → Keeps r r'
    → Evolves rows rows'
    → IsNew r rows
    → IsNew r' rows'
IsNew-Evolves {r} {r'} k e n = record {
  id = rw (any_id-Evolves r'.id e, k.id) n.id;
  task = rw (any_task-Evolves r'.task e, k.task) n.task;
  workspace = λ h.
      workspace_free-Evolves r'.workspace e (rw k.workspace (n.workspace (Moves-active k.moves h)));
}

IsSound-Evolves : {rows rows' : List Attempt} → Evolves rows rows' → IsSound rows → IsSound rows'
IsSound-Evolves none_left h = tt
IsSound-Evolves (row k e) h = (IsNew-Evolves k e h.0, IsSound-Evolves e h.1)

pub IsSound-Rows : {rows rows' : List Attempt} → Rows rows rows' → IsSound rows → IsSound rows'
IsSound-Rows (updated e) h = IsSound-Evolves e h
IsSound-Rows (added r n e) h = subst IsSound (sym e) (n, h)
