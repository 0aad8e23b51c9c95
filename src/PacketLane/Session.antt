-- ===== src/PacketLane/Session.antt =====
-- src/inference_grid/lanes/packet.py: the world, the settings and the variables of `build_loop`.
use inference_grid.Prelude.{
  ℕ, ◌*◌, String, Bool, true, false, ◌==◌, ◌++◌, Option, none, some, List, [], ◌∷◌, eqb,
  if◌then◌else◌,
}
use inference_grid.Prelude.Int.{ℤ}
use inference_grid.Prelude.Text.{codes}
use inference_grid.PacketLane.IdleWatch.{
  Look, Turn, poll_step, AgentReason, process_exited, wall_deadline, agent_idle,
  agent_stopped_early,
}
use inference_grid.PacketLane.Transcript.{Line, Terminal}
use inference_grid.PacketLane.Adapters.{Adapter}
use inference_grid.PacketLane.Gates.{Gate, GateResult, GateRun}

-- What one run of the agent and of the gates behind it shows. A fingerprint that cannot be read is
-- `none`.
pub record AgentRun : Type 0 where
  pub before : Option String
  pub after : Option String
  pub first_look : Look
  pub turns : ℕ → Turn
  pub native : Option (List Line)
  pub gate_runs : ℕ → Gate → GateRun

-- The world, by the number of the round: the free bytes and the clock at its head, and what becomes of
-- a command line.
pub record World : Type 0 where
  pub free_bytes : ℕ → ℕ
  pub clock_at : ℕ → ℕ
  pub agent : ℕ → List String → AgentRun

-- The arguments of `build_loop`. The deadline and `min_for_round` are in hundredths of a second.
pub record Settings : Type 0 where
  pub adapter : Adapter
  pub sandbox_command : List String → List String
  pub prompt : String
  pub gates : List Gate
  pub deadline : ℕ
  pub max_rounds : ℕ
  pub operator_gates : List String
  pub min_for_round : ℕ
  pub min_free_bytes : ℕ
  pub idle_seconds : Option ℕ

-- The verdict's reason.
pub data Stop : Type 0 where
  gates_passed disk_low no_time_for_round at_wall idle no_session_to_resume stopped_early
        rounds_exhausted :
      Stop
  provider_limit : List ℕ → Stop

abbrev pub reason_codes : Stop → List ℕ
reason_codes gates_passed = codes "gates_passed"
reason_codes disk_low = codes "disk_low"
reason_codes no_time_for_round = codes "wall_deadline_before_round"
reason_codes at_wall = codes "wall_deadline"
reason_codes idle = codes "agent_idle"
reason_codes no_session_to_resume = codes "no_session_to_resume"
reason_codes stopped_early = codes "agent_stopped_early"
reason_codes rounds_exhausted = codes "rounds_exhausted"
reason_codes (provider_limit limit) = codes "transport_error: provider limit: " ++ limit

-- One round; `argv` is the command line that was started.
pub record Entry : Type 0 where
  pub round : ℕ
  pub argv : List String
  pub agent_returncode : ℤ
  pub agent_reason : AgentReason
  pub agent_terminal : Option Terminal
  pub results : List GateResult

-- The loop's variables; the rounds stand newest first.
pub record Loop : Type 0 where
  pub rounds : List Entry
  pub session : Option String
  pub reason : Stop
  pub disk_free : Option ℕ
  pub idle_rounds : ℕ

abbrev pub fresh_loop : Loop
fresh_loop = record {
  rounds = [];
  session = none;
  reason = gates_passed;
  disk_free = none;
  idle_rounds = 0;
}

-- The watchdog's window, where one is set.
unfoldable pub window_of_idle : Option ℕ → Option ℕ
window_of_idle none = none
window_of_idle (some s) = if eqb s 0 then none else some (100 * s)

-- How often the watchdog looks, where it does.
unfoldable pub poll_of : Option ℕ → Option ℕ
unfolding poll_step
poll_of none = none
poll_of (some s) = if eqb s 0 then none else some (poll_step s)

abbrev pub is_idle : AgentReason → Bool
is_idle agent_idle = true
is_idle _ = false

abbrev pub is_at_wall : AgentReason → Bool
is_at_wall wall_deadline = true
is_at_wall _ = false

abbrev pub is_stopped_early : AgentReason → Bool
is_stopped_early agent_stopped_early = true
is_stopped_early _ = false

abbrev pub has_exited : AgentReason → Bool
has_exited process_exited = true
has_exited _ = false

abbrev pub has_session : Option String → Bool
has_session none = false
has_session (some s) = true

-- `before is not None and after is not None and after == before`.
unfoldable pub stands_still : Option String → Option String → Bool
stands_still (some before) (some after) = after == before
stands_still _ _ = false

abbrev pub previous_results : List Entry → Option (List GateResult)
previous_results [] = none
previous_results (e ∷ es) = some e.results
