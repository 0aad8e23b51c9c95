-- ===== src/Tests/Stranded.antt =====
-- The theorem on `requeue_dead`, at a packet whose one attempt was abandoned.
use inference_grid.Prelude.{String, Bool, false, ◌≡◌, refl, Option, none, some, [], ◌∷◌}
use inference_grid.Prelude.Text.{codes, has_prefix}
use inference_grid.Value.{Dict, null, str, set_key}
use inference_grid.Result.{Result, ok, raised}
use inference_grid.Ledger.State.{State, Attempt, abandoned}
use inference_grid.Ledger.Calls.{initial}
use inference_grid.Failover.{Board}
use inference_grid.PacketTask.{packet_dict}
use inference_grid.BoardEntry.{validate_board_task}
use inference_grid.BoardRunner.{
  TickRow, is_attempt_tail, ledger_attempts, save_task, requeue, settle_dead, requeue_dead,
}
use inference_grid.BoardRunner.Stranded.{Requeues, requeue_dead_stranded}
use inference_grid.Tests.Packets.{packet_of, one_gate, checked, is_decimal, packets}

abbrev stranded : Dict
stranded =
    set_key "state" (str "dispatched")
      (packet_dict (packet_of one_gate) (checked one_gate (1800 ∷ [])))

abbrev dead_attempt : Attempt
dead_attempt = record {
  id = "a1";
  task = "t-1-20260101T120000-ab12";
  account = "acct";
  generation = 1;
  state = abandoned;
  estimate = [];
  workspace = "work";
  receipt = null;
  reason = null;
  updated = 7;
}

abbrev tables : State
tables = record initial { attempts = dead_attempt ∷ [] }

abbrev begins : String → String → Bool
begins p t = has_prefix (codes t) (codes p)

abbrev task_files : Board
task_files = ("t-1", stranded) ∷ []

requeue_dead_stranded_example :
    Requeues is_decimal begins "t-1" tables 9 false "t-1" stranded task_files
      (requeue_dead is_decimal begins 9 false "t-1" "t-1" stranded task_files tables)
requeue_dead_stranded_example =
    requeue_dead_stranded is_decimal begins "t-1" tables 9 false "t-1" stranded task_files
      (λ p t h. h)

abbrev answered : Result (Option TickRow × (Board × State)) → Option TickRow
answered (ok (row, after)) = row
answered (raised e) = none

requeued_at_once :
    answered (requeue_dead is_decimal begins 9 false "t-1" "t-1" stranded task_files tables)
    ≡ some (record { task = "t-1"; lane = none; attempt = some "a1"; result = "requeued" })
unfolding packets requeue_dead settle_dead requeue save_task ledger_attempts is_attempt_tail
    validate_board_task
requeued_at_once = refl
