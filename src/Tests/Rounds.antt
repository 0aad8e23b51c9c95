-- ===== src/Tests/Rounds.antt =====
-- The theorems on the packet lane's rounds, at an idle agent and at a build that takes two rounds.
use inference_grid.Prelude.{
  ℕ, ◌+◌, ◌*◌, ◌≤◌, ◌-◌, ◌≡◌, refl, String, Bool, true, false, Option, none, some, List, [], ◌∷◌,
  eqb, arith, if◌then◌else◌,
}
use inference_grid.Prelude.Int.{ℤ, pos}
use inference_grid.Prelude.Text.{codes, strip}
use inference_grid.Value.{Value}
use inference_grid.Result.{Result, ok, raised, chain}
use inference_grid.PacketLane.IdleWatch.{
  Look, Turn, ended, expired, watch_from, wait_step, wait_for_round, poll_watch, watched,
  after_look, has_moved, agent_idle,
}
use inference_grid.PacketLane.IdleWatch.Waiting.{Ends, Expires, wait_for_round_ends}
use inference_grid.PacketLane.Transcript.{
  Line, first_match, row_of, terminal_corroboration, last_result_row,
}
use inference_grid.PacketLane.Adapters.{Opencode, opencode_adapter}
use inference_grid.PacketLane.Gates.{
  Gate, exited, run_gate, run_gates, gates_unchanged, fix_prompt, opening, idle_minutes,
}
use inference_grid.PacketLane.Session.{AgentRun, Settings, World, stands_still, window_of_idle}
use inference_grid.PacketLane.Loop.{
  after_limit, argv_of, entry_of, judge_round, limit_of, play, play_rounds, reason_after,
  record_round, run_round, text_of_fix,
}
use inference_grid.PacketLane.Build.{Verdict, build_loop, verdict_of}

abbrev quiet_look : ℕ → Look
quiet_look now = record { now = now; marker = some "head"; size = 10 }

-- An agent that does nothing, seen every fifteen seconds.
abbrev idle_turns : ℕ → Turn
idle_turns k = record {
  clock = 1500 * k;
  waited = expired (quiet_look (1500 * k + 1500));
  killed = pos 9;
}

wait_step-le : (remaining : ℕ) → wait_step (some 1500) remaining ≤ 1500
unfolding wait_step
wait_step-le remaining = ground arith

idle_turns-Expires : Expires (quiet_look 0) idle_turns 90000 (some 1500)
idle_turns-Expires k l e = omega (arith, wait_step-le (90000 - 1500 * k))

wait_for_round_ends_example :
    Ends
      (quiet_look 0)
      idle_turns
      90000
      (some 1500)
      (some 6000)
      (wait_for_round 90001 idle_turns 0 90000 (some 6000) (watch_from (quiet_look 0)))
wait_for_round_ends_example =
    wait_for_round_ends (quiet_look 0) idle_turns 90000 (some 1500) (some 6000) idle_turns-Expires

idle_after_a_minute :
    wait_for_round 90001 idle_turns 0 90000 (some 6000) (watch_from (quiet_look 0))
    ≡ ok (agent_idle, pos 9)
unfolding wait_for_round watched poll_watch after_look has_moved
idle_after_a_minute = refl

abbrev unit_gate : Gate
unit_gate = record { name = "unit"; argv = "pytest" ∷ []; cwd = "."; timeout = 1800; env = [] }

abbrev find_session : Line → Option String
find_session raw = some "s1"

abbrev parse_nothing : List ℕ → Option Value
parse_nothing text = none

abbrev matches_nothing : String → Bool
matches_nothing text = false

abbrev show_number : ℤ → String
show_number n = "n"

abbrev opencode : Opencode
opencode = record {
  opencode_model = "glm";
  directory = "work";
  opencode_binary = "opencode";
  title = none;
  debug = false;
}

abbrev settings : Settings
settings = record {
  adapter = opencode_adapter find_session opencode;
  sandbox_command = λ argv. "sandbox" ∷ argv;
  prompt = "build it";
  gates = unit_gate ∷ [];
  deadline = 100;
  max_rounds = 3;
  operator_gates = [];
  min_for_round = 10;
  min_free_bytes = 5;
  idle_seconds = some 60;
}

-- The gate fails in the first round, and passes in the next.
abbrev agent_run : ℕ → List String → AgentRun
agent_run n argv = record {
  before = some "a";
  after = some "b";
  first_look = quiet_look 0;
  turns = λ k. record { clock = k; waited = ended (pos 0); killed = pos 9 };
  native = some (codes "session" ∷ []);
  gate_runs = λ i gate. record {
    ran = exited (if eqb n 1 then pos 1 else pos 0);
    log_tail = "red";
    lasted = 3;
  };
}

abbrev world : World
world = record { free_bytes = λ n. 10; clock_at = λ n. n; agent = agent_run }

abbrev verified : Result Verdict → Bool
verified (ok v) = v.verified_in_lane
verified (raised e) = false

built_in_two_rounds :
    verified (build_loop show_number parse_nothing matches_nothing settings world) ≡ true
unfolding build_loop play_rounds play run_round argv_of text_of_fix judge_round limit_of after_limit
    record_round entry_of reason_after stands_still window_of_idle verdict_of chain wait_for_round
    run_gate run_gates gates_unchanged fix_prompt opening idle_minutes opencode_adapter first_match
    terminal_corroboration last_result_row row_of strip
built_in_two_rounds = refl
