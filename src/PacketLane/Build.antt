-- ===== src/PacketLane/Build.antt =====
-- src/inference_grid/lanes/packet.py: `build_loop` and the verdict it returns.
pub mod Report
use inference_grid.Prelude.{
  ℕ, zero, suc, ◌+◌, ◌*◌, String, Bool, true, false, not, ◌&&◌, ◌||◌, ◌==◌, ◌++◌, Option, none,
  some, List, [], ◌∷◌, map, eqb, ltb, leb, is_empty, if◌then◌else◌,
}
use inference_grid.Prelude.Int.{ℤ, pos, eqb_ℤ}
use inference_grid.Prelude.Text.{codes}
use inference_grid.Value.{Value}
use inference_grid.Result.{Result, ok, raised, type_error, other_error, ◌>>=◌, or_raise}
use inference_grid.PacketLane.IdleWatch.{
  Look, Turn, watch_from, wait_for_round, poll_step, AgentReason, process_exited, wall_deadline,
  agent_idle, agent_stopped_early,
}
use inference_grid.PacketLane.Transcript.{
  Line, Terminal, terminal_corroboration, provider_limit_message,
}
use inference_grid.PacketLane.Adapters.{Adapter}
use inference_grid.PacketLane.Gates.{
  Gate, GateResult, GateRun, run_gates, all_ok, gates_unchanged, idle_minutes, fix_prompt,
}
use inference_grid.PacketLane.Session.{
  AgentRun, Entry, Loop, Settings, Stop, World, at_wall, disk_low, fresh_loop, gates_passed,
  has_exited, has_session, idle, is_at_wall, is_idle, is_stopped_early, no_session_to_resume,
  no_time_for_round, poll_of, previous_results, provider_limit, reason_codes, rounds_exhausted,
  stands_still, stopped_early, window_of_idle,
}
use inference_grid.PacketLane.Loop.{
  after_limit, argv_of, entry_of, judge_round, known_session, limit_of, minutes_before, play,
  play_rounds, reason_after, record_round, run_round, text_of_fix,
}

-- The verdict, without the timings; the rounds stand newest first.
pub record Verdict : Type 0 where
  pub adapter_name : String
  pub stop : Stop
  pub played : List Entry
  pub session_id : Option String
  pub gate_names : List String
  pub for_operator : List String
  pub all_passed : Bool
  pub verified_in_lane : Bool
  pub min_free : ℕ
  pub disk_free_bytes : Option ℕ
  pub window : Option ℕ

abbrev pub final_results : List Entry → List GateResult
final_results [] = []
final_results (e ∷ es) = e.results

abbrev pub gates_pass : List GateResult → Bool
gates_pass final = not (is_empty final) && all_ok final

unfoldable pub verdict_of : Settings → Loop → Verdict
verdict_of s l = record {
  adapter_name = s.adapter.name;
  stop = l.reason;
  played = l.rounds;
  session_id = l.session;
  gate_names = map (λ (g : Gate). g.name) s.gates;
  for_operator = s.operator_gates;
  all_passed = gates_pass (final_results l.rounds);
  verified_in_lane = gates_pass (final_results l.rounds) && is_empty s.operator_gates;
  min_free = s.min_free_bytes;
  disk_free_bytes = l.disk_free;
  window = s.idle_seconds;
}

module _ (show : ℤ → String) (parse : List ℕ → Option Value) (matches : String → Bool)
    (s : Settings) (world : World) where
  unfoldable pub build_loop : Result Verdict
  unfolding play_rounds verdict_of
  build_loop =
      play_rounds show parse matches s world s.max_rounds 1 fresh_loop >>= λ l. ok (verdict_of s l)
