-- ===== src/Ledger/Calls/Recovery.antt =====
-- `hold_abandoned` (src/inference_grid/ledger.py) as a history of holds.
use inference_grid.Prelude.{ℕ, String, ◌≡◌, refl, sym, subst, ◌+◌, List, [], ◌∷◌}
use inference_grid.Ledger.State.{State, Clock, Env}
use inference_grid.Ledger.Dispatch.{abandoned_ids, hold_each, hold_abandoned}
use inference_grid.Ledger.Calls.{Call, holds, perform, run}
use inference_grid.Ledger.Calls.History.{IsReachable, run-IsReachable}

abbrev pub holds_of : (ℕ → Clock) → ℕ → List String → List (Clock × Call)
holds_of clocks i [] = []
holds_of clocks i (aid ∷ ids) =
    (clocks i, holds aid "worker recovery requires native reconciliation")
    ∷ holds_of clocks (i + 1) ids

hold_each-run :
    (env : Env) (clocks : ℕ → Clock) (ids : List String) (i : ℕ) (s : State)
    → hold_each clocks i ids s ≡ run env (holds_of clocks i ids) s
unfolding hold_abandoned run perform
hold_each-run env clocks [] i s = refl
hold_each-run env clocks (aid ∷ ids) i s = hold_each-run env clocks ids (i + 1) _

-- The recovery of abandoned attempts does what holds of the attempts it read do, one after another,
-- and nothing else, and so keeps the tables' invariant.
pub hold_abandoned-run :
    (env : Env) (clocks : ℕ → Clock) (before : ℕ) (s : State)
    → ((hold_abandoned clocks before s).1
        ≡ run env (holds_of clocks 0 (abandoned_ids before s.attempts)) s)
      × (IsReachable s → IsReachable (hold_abandoned clocks before s).1)
unfolding hold_abandoned
hold_abandoned-run env clocks before s =
    let ids = abandoned_ids before s.attempts in
    let same = hold_each-run env clocks ids 0 s in
    (same, λ h. subst IsReachable (sym same) (run-IsReachable env (holds_of clocks 0 ids) s h))
