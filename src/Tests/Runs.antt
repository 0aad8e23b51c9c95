-- ===== src/Tests/Runs.antt =====
-- Runs of the scenario.
use inference_grid.Prelude.{◌≡◌, refl, some, Option, none}
use inference_grid.Ledger.State.{
  Attempt, AttemptState, completed, accepted, failed, queued, dispatching, attempt_row,
}
use inference_grid.Tests.Scenario.{program, claimed, started, finished, resolved, approved}

abbrev state_of : Option Attempt → Option AttemptState
state_of none = none
state_of (some r) = some r.state

claimed_ends : state_of (attempt_row "a1" claimed) ≡ some queued
unfolding program
claimed_ends = refl

started_ends : state_of (attempt_row "a1" started) ≡ some dispatching
unfolding program
started_ends = refl

finished_ends : state_of (attempt_row "a1" finished) ≡ some completed
unfolding program
finished_ends = refl

resolved_ends : state_of (attempt_row "a1" resolved) ≡ some failed
unfolding program
resolved_ends = refl

approved_ends : state_of (attempt_row "a1" approved) ≡ some accepted
unfolding program
approved_ends = refl
