-- ===== src/PacketLane/Loop.antt =====
-- src/inference_grid/lanes/packet.py: the rounds of `build_loop`, the agent and the gates, over a world
-- that answers for the disk, the clock, the agent's process and the gates.
pub mod Rounds
pub mod Judgement
pub mod Outcome
use inference_grid.Prelude.{
  ℕ, zero, suc, ◌+◌, ◌*◌, String, Bool, true, false, not, ◌&&◌, ◌||◌, ◌==◌, ◌++◌, Option, none,
  some, List, [], ◌∷◌, map, eqb, ltb, leb, is_empty, if◌then◌else◌,
}
use inference_grid.Prelude.Int.{ℤ, pos, eqb_ℤ}
use inference_grid.Prelude.Text.{codes}
use inference_grid.Value.{Value}
use inference_grid.Result.{Result, ok, raised, type_error, other_error, ◌>>=◌, or_raise}
use inference_grid.PacketLane.IdleWatch.{
  Look, Turn, watch_from, wait_for_round, poll_step, AgentReason, process_exited, wall_deadline,
  agent_idle, agent_stopped_early,
}
use inference_grid.PacketLane.Transcript.{
  Line, Terminal, terminal_corroboration, provider_limit_message,
}
use inference_grid.PacketLane.Adapters.{Adapter}
use inference_grid.PacketLane.Gates.{
  Gate, GateResult, GateRun, run_gates, all_ok, gates_unchanged, idle_minutes, fix_prompt,
}
use inference_grid.PacketLane.Session.{
  AgentRun, Entry, Loop, Settings, Stop, World, at_wall, disk_low, fresh_loop, gates_passed,
  has_exited, has_session, idle, is_at_wall, is_idle, is_stopped_early, no_session_to_resume,
  no_time_for_round, poll_of, previous_results, provider_limit, reason_codes, rounds_exhausted,
  stands_still, stopped_early, window_of_idle,
}

unfoldable pub reason_after :
    List Entry → AgentRun → AgentReason → ℤ → List GateResult → AgentReason
unfolding stands_still gates_unchanged
reason_after rounds run reason code results =
    if eqb_ℤ code (pos 0)
      && (has_exited reason
          && (stands_still run.before run.after
              && gates_unchanged (previous_results rounds) results))
    then agent_stopped_early
    else reason

abbrev pub minutes_before : Settings → Entry → Option ℕ
minutes_before s previous =
    if is_idle previous.agent_reason
    then (elim (s.idle_seconds) [ none ↦ none | some n ↦ some (idle_minutes n) ])
    else none

-- `show` is `str` of an integer, `parse` is `json.loads`, and `matches` whether one of the provider's
-- patterns is found in a text.
module _ (show : ℤ → String) (s : Settings) where
  unfoldable pub text_of_fix : ℕ → Entry → String
  unfolding fix_prompt idle_minutes
  text_of_fix n previous =
      fix_prompt show previous.results n s.max_rounds (is_stopped_early previous.agent_reason)
        (minutes_before s previous)

  -- The command line of a round.
  unfoldable pub argv_of : ℕ → Loop → Result (List String)
  unfolding text_of_fix
  argv_of n l = if eqb n 1 then ok (s.adapter.first s.prompt) else (elim (l.rounds) [
    | [] ↦ raised (other_error "IndexError")
    | previous ∷ rest ↦ do
      session ← or_raise l.session type_error
      ok (s.adapter.resume session (text_of_fix n previous))
  ])

module _ (s : Settings) where
  abbrev pub known_session : Option String → AgentRun → Option String
  known_session none run = s.adapter.session_id run.native
  known_session (some session) run = some session

module _ (parse : List ℕ → Option Value) (s : Settings) where
  -- A round's entry, once the agent has ended and the gates have run.
  unfoldable pub entry_of : ℕ → List String → AgentRun → List Entry → AgentReason → ℤ → Entry
  unfolding reason_after run_gates terminal_corroboration
  entry_of n argv run rounds reason code =
      let results = run_gates run.gate_runs 0 s.gates in
      record {
        round = n;
        argv = argv;
        agent_returncode = code;
        agent_reason = reason_after rounds run reason code results;
        agent_terminal = terminal_corroboration parse run.native;
        results = results;
      }

  unfoldable pub record_round : ℕ → List String → AgentRun → AgentReason → ℤ → Loop → Loop
  unfolding entry_of
  record_round n argv run reason code l =
      let e = entry_of n argv run l.rounds reason code in
      record l {
        rounds = e ∷ l.rounds;
        session = known_session s l.session run;
        idle_rounds = if is_idle e.agent_reason then suc l.idle_rounds else l.idle_rounds;
      }

module _ (s : Settings) where
  -- Whether the loop stops behind a round with a red gate, and on what reason.
  unfoldable pub after_limit : ℕ → Option (List ℕ) → Entry → Loop → Bool × Stop
  after_limit n (some message) e l = (true, provider_limit message)
  after_limit n none e l =
      if is_idle e.agent_reason
        && (leb 2 l.idle_rounds || (eqb n s.max_rounds || not (has_session l.session)))
      then (true, idle)
      else if not (has_session l.session)
      then (true, no_session_to_resume)
      else (false, if is_stopped_early e.agent_reason then stopped_early else rounds_exhausted)

module _ (parse : List ℕ → Option Value) (matches : String → Bool) (s : Settings) where
  unfoldable pub limit_of : AgentRun → Entry → Result (Option (List ℕ))
  unfolding provider_limit_message
  limit_of run e =
      if eqb_ℤ e.agent_returncode (pos 0)
      then ok none
      else provider_limit_message parse matches run.native

  unfoldable pub judge_round : ℕ → AgentRun → Entry → Loop → Result (Bool × Stop)
  unfolding limit_of after_limit
  judge_round n run e l =
      if is_at_wall e.agent_reason
      then ok (true, at_wall)
      else if all_ok e.results
      then ok (true, gates_passed)
      else (limit_of run e >>= λ message. ok (after_limit s n message e l))

  -- From the start of the agent to the end of the loop's body.
  unfoldable pub run_round : ℕ → List String → AgentRun → Loop → Result (Bool × Loop)
  unfolding wait_for_round record_round entry_of window_of_idle judge_round
  run_round n argv run l = do
    out ←
        wait_for_round (suc s.deadline) run.turns 0 s.deadline (window_of_idle s.idle_seconds)
          (watch_from run.first_look)
    let after = record_round parse s n argv run out.0 out.1 l
    let e = entry_of parse s n argv run l.rounds out.0 out.1
    answer ← judge_round n run e after
    ok (answer.0, record after { reason = answer.1 })

module _ (show : ℤ → String) (parse : List ℕ → Option Value) (matches : String → Bool)
    (s : Settings) (world : World) where
  -- The loop's body: whether it breaks, and the variables that are left.
  unfoldable pub play : ℕ → Loop → Result (Bool × Loop)
  unfolding argv_of run_round
  play n l =
      let measured = record l { disk_free = some (world.free_bytes n) } in
      if ltb (world.free_bytes n) s.min_free_bytes
      then ok (true, record measured { reason = disk_low })
      else if ltb 1 n && ltb s.deadline (world.clock_at n + s.min_for_round)
      then ok (true, record measured { reason = no_time_for_round })
      else (argv_of show s n measured >>= λ argv.
          run_round parse matches s n argv (world.agent n (s.sandbox_command argv)) measured)

  -- The rounds from `n` on, of which `left` may be played.
  unfoldable pub play_rounds : ℕ → ℕ → Loop → Result Loop
  unfolding play
  play_rounds zero n l = ok l
  play_rounds (suc left) n l =
      play n l >>= λ out. elim (out.0) [ true ↦ ok out.1 | false ↦ play_rounds left (suc n) out.1 ]
