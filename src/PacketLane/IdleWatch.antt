-- ===== src/PacketLane/IdleWatch.antt =====
-- src/inference_grid/lanes/packet.py: the wait for one round of an agent, under the wall clock and the
-- idle watchdog. Times are in hundredths of a second.
pub mod Waiting
use inference_grid.Prelude.{
  ℕ, zero, suc, ◌+◌, ◌*◌, ◌-◌, String, Bool, true, false, not, ◌&&◌, ◌||◌, ◌==◌, Option, none, some,
  leb, ltb, if◌then◌else◌,
}
use inference_grid.Prelude.Int.{ℤ}
use inference_grid.Result.{Result, ok, raised, out_of_fuel}

abbrev pub idle_transcript_bytes : ℕ
idle_transcript_bytes = 2048

abbrev pub idle_poll : ℕ
idle_poll = 1500

-- What one look at a running round shows: the clock, the tree's marker and the transcript's size.
pub record Look : Type 0 where
  pub now : ℕ
  pub marker : Option String
  pub size : ℕ

-- The fields that `IdleWatch` changes.
pub record Watch : Type 0 where
  pub seen_marker : Option String
  pub seen_size : ℕ
  pub since : ℕ

-- `IdleWatch.__init__`, and the reset on activity.
abbrev pub watch_from : Look → Watch
watch_from l = record { seen_marker = l.marker; seen_size = l.size; since = l.now }

-- `marker is not None and marker != self.marker`.
unfoldable pub has_moved : Option String → Option String → Bool
has_moved none old = false
has_moved (some m) none = true
has_moved (some m) (some k) = not (m == k)

abbrev pub is_readable : Option String → Bool
is_readable none = false
is_readable (some m) = true

unfoldable pub after_look : Look → Watch → Watch
unfolding has_moved
after_look l w =
    if has_moved l.marker w.seen_marker || leb (w.seen_size + idle_transcript_bytes) l.size
    then watch_from l
    else w

-- `IdleWatch.poll`: the answer, and the watch that is left.
unfoldable pub poll_watch : ℕ → Look → Watch → Bool × Watch
unfolding after_look
poll_watch idle l w =
    (is_readable l.marker && leb ((after_look l w).since + idle) l.now, after_look l w)

-- `_poll_seconds`, of a window in seconds.
unfoldable pub poll_step : ℕ → ℕ
poll_step idle_seconds =
    let quarter = 25 * idle_seconds in
    let slow = if leb 5 quarter then quarter else 5 in
    if leb slow idle_poll then slow else idle_poll

-- How long one wait for the process may last.
unfoldable pub wait_step : Option ℕ → ℕ → ℕ
wait_step poll remaining =
    let step : ℕ = elim poll [
      | none ↦ remaining
      | some p ↦ if leb p remaining then p else remaining
    ] in
    if leb 1 step then step else 1

pub data AgentReason : Type 0 where
  process_exited wall_deadline agent_idle agent_stopped_early : AgentReason

pub data Waited : Type 0 where
  -- The process ended with this code.
  ended : ℤ → Waited
  -- `TimeoutExpired`, and what the watchdog then sees.
  expired : Look → Waited

-- One turn of the loop: the clock at its head, the wait, and the code that a kill would leave.
pub record Turn : Type 0 where
  pub clock : ℕ
  pub waited : Waited
  pub killed : ℤ

-- The watchdog's answer, where there is one.
unfoldable pub watched : Option ℕ → Look → Watch → Bool × Watch
unfolding poll_watch
watched none l w = (false, w)
watched (some idle) l w = poll_watch idle l w

-- `_wait_for_round`, from the turn `k` on; the turns are the world's, and the fuel is the model's.
unfoldable pub wait_for_round : ℕ → (ℕ → Turn) → ℕ → ℕ → Option ℕ → Watch → Result (AgentReason × ℤ)
unfolding watched
wait_for_round zero turns k deadline idle w = raised out_of_fuel
wait_for_round (suc fuel) turns k deadline idle w = elim (leb deadline (turns k).clock) [
  | true ↦ ok (wall_deadline, (turns k).killed)
  | false ↦ elim ((turns k).waited) [
    | ended code ↦ ok (process_exited, code)
    | expired l ↦ elim ((watched idle l w).0) [
      | true ↦ ok (agent_idle, (turns k).killed)
      | false ↦ wait_for_round fuel turns (suc k) deadline idle (watched idle l w).1
    ]
  ]
]
