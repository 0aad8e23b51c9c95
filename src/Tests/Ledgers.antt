-- ===== src/Tests/Ledgers.antt =====
-- The ledger's theorems at the calls of the scenario.
use inference_grid.Prelude.{ℕ, ◌+◌, String, ◌≡◌, ◌≢◌, refl, inl, none, some, List, [], ◌∷◌, ◌*◌}
use inference_grid.Value.{Dict, null, str, one}
use inference_grid.Result.{ok}
use inference_grid.Ledger.State.{
  Alias, Attempt, Task, Clock, held, failed, dispatching, alias_row, attempt_row, task_row,
}
use inference_grid.Ledger.Claim.{claim}
use inference_grid.Ledger.Claim.Reservation.{IsAdmitted, claim-IsAdmitted, claim_refused}
use inference_grid.Ledger.Dispatch.{start, finish}
use inference_grid.Ledger.Dispatch.Gate.{IsDispatched, start-IsDispatched, start_once}
use inference_grid.Ledger.Dispatch.Fence.{IsFinished, finish-IsFinished, finish_once}
use inference_grid.Ledger.Resolve.Holds.{
  IsResolved, resolve-IsResolved, IsAccepted, accept-IsAccepted,
}
use inference_grid.Ledger.Calls.{Call, run, initial}
use inference_grid.Ledger.Calls.History.{
  IsReachable, run-IsReachable, initial-IsReachable, Stays, run-Stays, IsHeldOrResolved,
  held_never_redispatched, run_immutable,
}
use inference_grid.Tests.Scenario.{
  program, at, env, digest_text, whole, reading, estimate, spec, receipt, submitted, claimed,
  started, finished, stuck, resolved, approved,
}

claim-IsAdmitted_example : IsAdmitted (at 3) "t1" "acct" submitted (("a1", 1), claimed)
unfolding program
claim-IsAdmitted_example =
    claim-IsAdmitted (at 3) "a1" "t1" "acct" estimate submitted (("a1", 1), claimed) refl

abbrev admitted_row : Attempt
admitted_row = record {
  id = "a1";
  task = "t1";
  account = "acct";
  generation = 1;
  state = dispatching;
  estimate = ("5h", 40 * one) ∷ [];
  workspace = "/work/t1";
  receipt = null;
  reason = null;
  updated = 4 * one;
}

abbrev stored_spec : Dict
stored_spec = spec

start-IsDispatched_example : IsDispatched (at 4) "a1" 1 claimed admitted_row stored_spec started
unfolding program
start-IsDispatched_example =
    start-IsDispatched (at 4) "a1" 1 claimed admitted_row stored_spec started refl

start_once_example : start (at 5) "a1" 1 started ≡ ok (none, started)
unfolding program
start_once_example = start_once (at 4) (at 5) "a1" 1 1 claimed admitted_row stored_spec started refl

abbrev history : List (Clock × Call)
history =
    (at 1, Call.configures "acct" reading [] (whole 1))
    ∷ (at 2, Call.submits "t1" "p" spec)
    ∷ (at 3, Call.claims "a1" "t1" "acct" estimate)
    ∷ (at 4, Call.starts "a1" 1)
    ∷ []

run-IsReachable_example : IsReachable (run env history initial)
unfolding program
run-IsReachable_example = run-IsReachable env history initial initial-IsReachable

started-IsReachable : IsReachable started
unfolding program
started-IsReachable = run-IsReachable env history initial initial-IsReachable

finish-IsFinished_example : IsFinished env "a1" 1 receipt started finished
unfolding program
finish-IsFinished_example =
    finish-IsFinished env (at 5) "a1" 1 receipt started finished started-IsReachable.sound refl

finish_once_example : finish env (at 6) "a1" 1 receipt finished ≢ ok (tt, finished)
unfolding program
finish_once_example =
    finish_once env (at 5) (at 6) "a1" 1 1 receipt receipt started finished finished
      started-IsReachable.sound refl

abbrev later_calls : List (Clock × Call)
later_calls = (at 5, Call.holds "a1" "worker lost") ∷ (at 6, Call.starts "a1" 1) ∷ []

run-Stays_example :
    (r' : Attempt) × (attempt_row "a1" (run env later_calls started) ≡ some r')
    × Stays admitted_row r'
unfolding program
run-Stays_example = run-Stays env later_calls started "a1" admitted_row started-IsReachable refl

abbrev held_row : Attempt
held_row = record admitted_row { state = held; reason = str "worker lost"; updated = 5 * one }

stuck-IsReachable : IsReachable stuck
unfolding program
stuck-IsReachable =
    run-IsReachable env ((at 5, Call.holds "a1" "worker lost") ∷ []) started started-IsReachable

abbrev hopeful_calls : List (Clock × Call)
hopeful_calls =
    (at 6, Call.starts "a1" 1)
    ∷ (at 7, Call.finishes "a1" 1 receipt)
    ∷ (at 8, Call.resolves "a1" (str "consumed") (str "seen") (str "alice") null)
    ∷ []

held_never_redispatched_example :
    (r' : Attempt) × (attempt_row "a1" (run env hopeful_calls stuck) ≡ some r')
    × IsHeldOrResolved r'.state
unfolding program
held_never_redispatched_example =
    held_never_redispatched env hopeful_calls stuck "a1" held_row stuck-IsReachable refl refl

run_immutable_example :
    ((name : String) (t : Task)
      → task_row name stuck ≡ some t
      → task_row name (run env hopeful_calls stuck) ≡ some t)
    × ((name : String) (a : Alias)
        → alias_row name stuck ≡ some a
        → alias_row name (run env hopeful_calls stuck) ≡ some a)
unfolding program
run_immutable_example = run_immutable env hopeful_calls stuck stuck-IsReachable

abbrev task_one : Task
task_one = record { id = "t1"; project = "p"; spec = stored_spec }

abbrev acct_alias : Alias
acct_alias = record { id = "acct"; account = "acct" }

claim_refused_example : claim (at 5) "a2" "t1" "acct" estimate started ≢ ok (("a2", 2), started)
unfolding program
claim_refused_example =
    claim_refused (at 5) "a2" "t1" "acct" estimate started task_one "/work/t1" acct_alias refl refl
      refl (inl refl) (("a2", 2), started)

resolve-IsResolved_example : IsResolved "a1" (str "consumed") (str "alice") stuck (failed, resolved)
unfolding program
resolve-IsResolved_example =
    resolve-IsResolved env (at 6) "a1" (str "consumed") (str "seen") (str "alice") null stuck
      (failed, resolved) refl

accept-IsAccepted_example :
    IsAccepted env "a1" (str digest_text) (str "g") (str "approved") finished approved
unfolding program
accept-IsAccepted_example =
    accept-IsAccepted env (at 6) "a1" (str digest_text) (str "g") (str "approved") finished approved
      refl

abbrev clocks : ℕ → Clock
clocks i = at (100 + i)
