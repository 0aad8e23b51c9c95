-- ===== src/PacketLane/Loop/Rounds.antt =====
-- The rounds of `build_loop` (src/inference_grid/lanes/packet.py) and how they end.
use inference_grid.Prelude.{
  ◌+◌, ◌&&◌, inl, inr, ℕ, suc, ◌≤◌, ◌<◌, String, Bool, true, false, ◌≡◌, refl, sym, ◌∙◌, subst, ◌⊎◌,
  Option, none, some, List, [], ◌∷◌, map, length, where_rows, All, arith, eqb, is_empty,
  if◌then◌else◌, ap,
}
use inference_grid.Prelude.Int.{ℤ, pos, eqb_ℤ}
use inference_grid.Value.{Value}
use inference_grid.Result.{ok, chain}
use inference_grid.PacketLane.IdleWatch.{
  AgentReason, wall_deadline, agent_stopped_early, wait_for_round, watch_from,
}
use inference_grid.PacketLane.Transcript.{provider_limit_message}
use inference_grid.PacketLane.Gates.{
  Gate, GateResult, GateRun, run_gate, run_gates, all_ok, gates_unchanged,
}
use inference_grid.PacketLane.Session.{
  AgentRun, Entry, Loop, Settings, Stop, World, window_of_idle, has_exited, stands_still,
  previous_results, at_wall, disk_low, gates_passed, idle, is_at_wall, is_idle, is_stopped_early,
  no_session_to_resume, no_time_for_round, provider_limit, rounds_exhausted, stopped_early,
}
use inference_grid.PacketLane.Loop.{
  argv_of, entry_of, known_session, reason_after, record_round, text_of_fix,
}

-- A round with a red gate, that the wall did not end.
abbrev pub IsRed : Entry → Type 0
IsRed e = (all_ok e.results ≡ false) × (is_at_wall e.agent_reason ≡ false)

if_either :
    (b : Bool) (reason : AgentReason)
    → ((if b then agent_stopped_early else reason) ≡ reason)
      ⊎ ((if b then agent_stopped_early else reason) ≡ agent_stopped_early)
if_either true reason = inr refl
if_either false reason = inl refl

-- Each declared gate ran, in its order.
abbrev pub RanGates : List Gate → Entry → Type 0
RanGates gates e =
    map (λ (r : GateResult). r.gate_name) e.results ≡ map (λ (g : Gate). g.name) gates

abbrev pub idle_count : List Entry → ℕ
idle_count rounds = length (where_rows (λ (e : Entry). is_idle e.agent_reason) rounds)

abbrev pub spent_reason : Entry → Stop
spent_reason e = if is_stopped_early e.agent_reason then stopped_early else rounds_exhausted

abbrev pub spent : List Entry → Stop
spent [] = gates_passed
spent (e ∷ es) = spent_reason e

run_gates-names :
    (world : ℕ → Gate → GateRun) (i : ℕ) (gates : List Gate)
    → map (λ (r : GateResult). r.gate_name) (run_gates world i gates)
      ≡ map (λ (g : Gate). g.name) gates
unfolding run_gates run_gate
run_gates-names world i [] = refl
run_gates-names world i (g ∷ gates) =
    ap (λ names. g.name ∷ names) (run_gates-names world (suc i) gates)

module _ (show : ℤ → String) (s : Settings) where
  -- The first round starts a session; each later one enters the session that was found, with the
  -- prompt that the round before it makes.
  abbrev pub Chained : Option String → List Entry → Type 0
  Chained session [] = Unit
  Chained session (e ∷ []) = e.argv ≡ s.adapter.first s.prompt
  Chained session (e ∷ previous ∷ rest) =
      ((sid : String) × (session ≡ some sid)
        × (e.argv ≡ s.adapter.resume sid (text_of_fix show s e.round previous)))
      × Chained session (previous ∷ rest)

  abbrev pub NextArgv : ℕ → Option String → List Entry → List String → Type 0
  NextArgv n session [] argv = argv ≡ s.adapter.first s.prompt
  NextArgv n session (previous ∷ rest) argv =
      (sid : String) × (session ≡ some sid)
      × (argv ≡ s.adapter.resume sid (text_of_fix show s n previous))

  pub argv_known :
      (n : ℕ) (rounds : List Entry) (l : Loop)
      → l.rounds ≡ rounds
      → suc (length rounds) ≡ n
      → (is_empty rounds ≡ false → (sid : String) × (l.session ≡ some sid))
      → (argv : List String) × (argv_of show s n l ≡ ok argv) × NextArgv n l.session rounds argv
  unfolding argv_of chain
  argv_known n [] l e count entered = (s.adapter.first s.prompt, rw (← count) refl, refl)
  argv_known n (previous ∷ rest) l e count entered =
      let known = entered refl in
      let later : eqb n 1 ≡ false = ground (arith, count) in
      (
        s.adapter.resume known.0 (text_of_fix show s n previous),
        rw (later, e, known.1, argv_of) refl,
        (known.0, known.1, refl),
      )

  known_session-Chained :
      (e : Entry) (run : AgentRun) (session : Option String) (rounds : List Entry)
      → NextArgv e.round session rounds e.argv
      → Chained session rounds
      → Chained (known_session s session run) (e ∷ rounds)
  known_session-Chained e run session [] next before = next
  known_session-Chained e run session (previous ∷ rest) (sid, known, argv) before =
      let same : known_session s session run ≡ session = rw known refl in
      ((sid, same ∙ known, argv), subst (λ o. Chained o (previous ∷ rest)) (sym same) before)

  still_known :
      (run : AgentRun) (session : Option String) (sid : String)
      → session ≡ some sid
      → known_session s session run ≡ some sid
  still_known run session sid h = rw h refl

  idles_after :
      (b : Bool) (n : ℕ) (e : Entry) (es : List Entry)
      → is_idle e.agent_reason ≡ b
      → n ≡ idle_count es
      → (if b then suc n else n) ≡ idle_count (e ∷ es)
  idles_after true n e es same h = rw (same, h) refl
  idles_after false n e es same h = rw (same, h) refl

-- The numbers of the rounds, of which the newest stands first.
abbrev pub Numbered : List Entry → Type 0
Numbered [] = Unit
Numbered (e ∷ es) = (e.round ≡ suc (length es)) × Numbered es

module _ (parse : List ℕ → Option Value) (matches : String → Bool) (s : Settings)
    (world : World) where
  -- The agent's run in a round.
  abbrev pub run_of : Entry → AgentRun
  run_of e = world.agent e.round (s.sandbox_command e.argv)

  -- The agent ended well, or its transcript names no limit of the provider.
  abbrev pub FoundNoLimit : Entry → Type 0
  FoundNoLimit e =
      (eqb_ℤ e.agent_returncode (pos 0) ≡ true)
      ⊎ (provider_limit_message parse matches (run_of e).native ≡ ok none)

  -- A round behind which another may follow.
  abbrev pub IsOpen : Entry → Type 0
  IsOpen e = IsRed e × FoundNoLimit e

  -- How a round came about: the disk had room and, behind the first round, the deadline was far enough;
  -- the wait for the agent ended with this code, and its reason is that of the wait, unless the agent
  -- stopped early; and the gates ran on what the agent left.
  pub record WasPlayed (e : Entry) : Type 0 where
    pub room : s.min_free_bytes ≤ world.free_bytes e.round
    pub in_time : 2 ≤ e.round → world.clock_at e.round + s.min_for_round ≤ s.deadline
    pub waited :
        (reason : AgentReason) × (wait_for_round
            (suc s.deadline)
            (run_of e).turns
            0
            s.deadline
            (window_of_idle s.idle_seconds)
            (watch_from (run_of e).first_look)
          ≡ ok (reason, e.agent_returncode))
        × ((e.agent_reason ≡ reason) ⊎ (e.agent_reason ≡ agent_stopped_early))
    pub gated : e.results ≡ run_gates (run_of e).gate_runs 0 s.gates

module _ (show : ℤ → String) (parse : List ℕ → Option Value) (matches : String → Bool)
    (s : Settings) (world : World) where
  -- What holds of the rounds whichever way the loop ends.
  pub record IsPlayed (l : Loop) : Type 0 where
    pub bounded : length l.rounds ≤ s.max_rounds
    pub numbered : Numbered l.rounds
    pub played : All (WasPlayed parse matches s world) l.rounds
    pub chained : Chained show s l.session l.rounds
    pub ran : All (RanGates s.gates) l.rounds
    pub idles : l.idle_rounds ≡ idle_count l.rounds

  -- The head of round `n`.
  pub record IsUnderway (n : ℕ) (l : Loop) : Type 0 where
    pub played : IsPlayed l
    pub count : suc (length l.rounds) ≡ n
    pub red : All (IsOpen parse matches s world) l.rounds
    pub told : l.reason ≡ spent l.rounds
    pub entered : (is_empty l.rounds ≡ false) → (sid : String) × (l.session ≡ some sid)

  -- Why the loop ended; the round that was not started has the number `suc (length l.rounds)`.
  pub data IsEnding (l : Loop) : Stop → Type 0 where
    ends_disk_low :
        l.disk_free ≡ some (world.free_bytes (suc (length l.rounds)))
        → world.free_bytes (suc (length l.rounds)) < s.min_free_bytes
        → All (IsOpen parse matches s world) l.rounds
        → IsEnding l disk_low
    ends_no_time :
        1 ≤ length l.rounds
        → s.min_free_bytes ≤ world.free_bytes (suc (length l.rounds))
        → s.deadline < world.clock_at (suc (length l.rounds)) + s.min_for_round
        → All (IsOpen parse matches s world) l.rounds
        → IsEnding l no_time_for_round
    ends_at_wall :
        (e : Entry) (es : List Entry)
        → l.rounds ≡ e ∷ es
        → e.agent_reason ≡ wall_deadline
        → All (IsOpen parse matches s world) es
        → IsEnding l at_wall
    ends_passed :
        (e : Entry) (es : List Entry)
        → l.rounds ≡ e ∷ es
        → is_at_wall e.agent_reason ≡ false
        → all_ok e.results ≡ true
        → All (IsOpen parse matches s world) es
        → IsEnding l gates_passed
    ends_limit :
        (e : Entry) (es : List Entry) (message : List ℕ)
        → l.rounds ≡ e ∷ es
        → IsRed e
        → eqb_ℤ e.agent_returncode (pos 0) ≡ false
        → provider_limit_message parse matches (run_of parse matches s world e).native
          ≡ ok (some message)
        → All (IsOpen parse matches s world) es
        → IsEnding l (provider_limit message)
    ends_idle :
        (e : Entry) (es : List Entry)
        → l.rounds ≡ e ∷ es
        → is_idle e.agent_reason ≡ true
        → (2 ≤ idle_count l.rounds) ⊎ ((length l.rounds ≡ s.max_rounds) ⊎ (l.session ≡ none))
        → All (IsOpen parse matches s world) l.rounds
        → IsEnding l idle
    ends_no_session :
        (e : Entry) (es : List Entry)
        → l.rounds ≡ e ∷ es
        → is_idle e.agent_reason ≡ false
        → l.session ≡ none
        → All (IsOpen parse matches s world) l.rounds
        → IsEnding l no_session_to_resume
    -- Every round was played: none, or each with a red gate.
    ends_spent :
        length l.rounds ≡ s.max_rounds
        → All (IsOpen parse matches s world) l.rounds
        → IsEnding l (spent l.rounds)

  -- The variables behind a round.
  pub record IsRecorded (n : ℕ) (before l : Loop) (e : Entry) : Type 0 where
    pub rounds : l.rounds ≡ e ∷ before.rounds
    pub number : e.round ≡ n
    pub played : IsPlayed l
    pub kept : (sid : String) → before.session ≡ some sid → l.session ≡ some sid

  pub record_round-IsRecorded :
      (n : ℕ) (argv : List String) (run : AgentRun) (reason : AgentReason) (code : ℤ) (l : Loop)
      → n ≤ s.max_rounds
      → suc (length l.rounds) ≡ n
      → IsPlayed l
      → WasPlayed parse matches s world (entry_of parse s n argv run l.rounds reason code)
      → NextArgv show s n l.session l.rounds argv
      → IsRecorded n l
          (record_round parse s n argv run reason code l)
          (entry_of parse s n argv run l.rounds reason code)
  unfolding record_round entry_of
  record_round-IsRecorded n argv run reason code l within count before was next =
      let e = entry_of parse s n argv run l.rounds reason code in
      record {
        rounds = refl;
        number = refl;
        played = record {
          bounded = omega (arith, count);
          numbered = (sym count, before.numbered);
          played = (was, before.played);
          chained = known_session-Chained show s e run l.session l.rounds next before.chained;
          ran = (run_gates-names run.gate_runs 0 s.gates, before.ran);
          idles =
              idles_after show s (is_idle e.agent_reason) l.idle_rounds e l.rounds refl
                before.idles;
        };
        kept = still_known show s run l.session;
      }

module _ (parse : List ℕ → Option Value) (s : Settings) where
  -- The reason of a round is that of its wait, or an early stop.
  pub reason_after-either :
      (rounds : List Entry) (run : AgentRun) (reason : AgentReason) (code : ℤ)
      (results : List GateResult)
      → (reason_after rounds run reason code results ≡ reason)
        ⊎ (reason_after rounds run reason code results ≡ agent_stopped_early)
  unfolding reason_after
  reason_after-either rounds run reason code results =
      if_either
        (eqb_ℤ code (pos 0)
          && (has_exited reason
              && (stands_still run.before run.after
                  && gates_unchanged (previous_results rounds) results)))
        reason
