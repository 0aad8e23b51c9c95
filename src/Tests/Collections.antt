-- ===== src/Tests/Collections.antt =====
-- The theorem on collections, at an account whose collection is under way.
use inference_grid.Prelude.{ℕ, String, ◌≢◌, ◌+◌, ◌*◌, refl, some, List, [], ◌∷◌}
use inference_grid.Value.{Value, one}
use inference_grid.Result.{ok}
use inference_grid.Ledger.Calls.{Call}
use inference_grid.Collector.{
  Grid, Move, admits, settles, serves, collecting, bounded_number, store_claim, claim_account,
  admit_collection, settle_collection, move, moves,
}
use inference_grid.Collector.SingleFlight.{IsHeldBy, collect_single_flight}
use inference_grid.Tests.Scenario.{program, at, env, whole, spec, configured}

abbrev idle : Grid
idle = record { tables = configured; claims = [] }

abbrev under_way : Grid
under_way = record {
  tables = configured;
  claims =
      record {
        account = "acct";
        token = some "t1";
        deadline = 2 * one + 30 * one;
        last_status = "collecting";
      }
      ∷ [];
}

-- Another collection, which answers "busy", a late settlement of a collection that is no more, and a
-- submission.
abbrev meanwhile : List Move
meanwhile =
    admits (3 * one) "t2" "acct" (whole 30) (whole 60)
    ∷ settles "acct" "t0" "observation"
    ∷ serves (at 4) (Call.submits "t1" "p" spec)
    ∷ []

unfoldable collections : Unit {0}
unfolding program bounded_number store_claim claim_account admit_collection settle_collection move
    moves
collections = tt

collect_single_flight_example :
    IsHeldBy "acct" "t1" (moves env meanwhile under_way)
    × ((now : ℕ) (token alias : String) (timeout fallback : Value) (deadline : ℕ) (after : Grid)
        → admit_collection now token alias timeout fallback (moves env meanwhile under_way)
          ≢ ok (collecting "acct" deadline, after))
unfolding collections
collect_single_flight_example =
    collect_single_flight env (2 * one) "t1" "acct" (whole 30) (whole 60) idle under_way "acct"
      (2 * one + 30 * one) meanwhile refl refl (tt, (refl, (tt, tt)))
