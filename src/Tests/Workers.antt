-- ===== src/Tests/Workers.antt =====
-- The theorems on one execution and on its supervision, at the scenario's attempt.
use inference_grid.Prelude.{String, true, ◌≡◌, ◌*◌, refl, List, [], ◌∷◌, leb, inl, arith}
use inference_grid.Value.{null, one}
use inference_grid.Result.{ok}
use inference_grid.Ledger.State.{Clock, Attempt, dispatching}
use inference_grid.Ledger.Calls.{Call, initial}
use inference_grid.Ledger.Calls.History.{IsReachable, run-IsReachable, initial-IsReachable}
use inference_grid.Worker.{Host, supervise, execute, cleaned, is_running, work}
use inference_grid.Worker.Supervision.{Ends, supervise_ends}
use inference_grid.Worker.Settlement.{IsSettlement, execute_settles}
use inference_grid.Tests.Scenario.{
  program, at, env, digest_text, whole, reading, estimate, spec, receipt, claimed, started,
}

-- A process that is seen gone at the third poll.
abbrev host : Host
host = record {
  make_directory = λ w a. ok tt;
  locate_input = λ v n. ok tt;
  input_digest = λ v n. ok digest_text;
  write_input = λ n. ok tt;
  launch = λ argv. ok tt;
  begun = 0;
  poll = λ i. record { exited = leb 2 i; now = i; bytes = 10 * i };
  stop_group = ok tt;
  stop_again = ok tt;
  succeeded = true;
  final_bytes = 20;
  receipt = ok receipt;
  locate_artifact = λ p. ok tt;
  artifact_bytes = λ p. ok 7;
  artifact_digest = λ p. ok digest_text;
  describe = λ e. "error";
}

supervise_ends_example : Ends host 60 1000 0 2 (supervise host 10 0 60 1000)
supervise_ends_example = supervise_ends host 10 60 1000 2 (omega arith) (inl refl)

abbrev before : List (Clock × Call)
before =
    (at 1, Call.configures "acct" reading [] (whole 1))
    ∷ (at 2, Call.submits "t1" "p" spec)
    ∷ (at 3, Call.claims "a1" "t1" "acct" estimate)
    ∷ []

claimed-IsReachable : IsReachable claimed
unfolding program
claimed-IsReachable = run-IsReachable env before initial initial-IsReachable

abbrev running : Attempt
running = record {
  id = "a1";
  task = "t1";
  account = "acct";
  generation = 1;
  state = dispatching;
  estimate = ("5h", 40 * one) ∷ [];
  workspace = "/work/t1";
  receipt = null;
  reason = null;
  updated = 4 * one;
}

-- An operator reports a lost worker while the process runs; the attempt ends held all the same.
abbrev others : List (Clock × Call)
others = (at 5, Call.holds "a1" "worker lost") ∷ []

execute_settles_example :
    (answer : String) × ((execute host env 10 (at 4) (at 9) others "a1" 1 claimed).0
      ≡ cleaned host (is_running host env 10 "a1" spec) answer)
    × IsSettlement "a1"
        (work host env 10 "a1" spec)
        (answer, (execute host env 10 (at 4) (at 9) others "a1" 1 claimed).1)
unfolding program
execute_settles_example =
    execute_settles host env 10 (at 4) (at 9) others "a1" 1 claimed started running spec
      claimed-IsReachable refl
