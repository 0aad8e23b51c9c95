-- ===== src/PacketLane/Build/Report.antt =====
-- `build_loop` (src/inference_grid/lanes/packet.py) returns a verdict that tells what happened.
use inference_grid.Prelude.{
  ℕ, String, Bool, true, false, ◌&&◌, ◌≡◌, ◌⊎◌, Option, List, ◌∷◌, is_empty, any,
}
use inference_grid.Prelude.Int.{ℤ}
use inference_grid.Value.{Value}
use inference_grid.Prelude.Text.{codes}
use inference_grid.Failover.{failover_reasons}
use inference_grid.Routing.Route.{has_part}
use inference_grid.PacketLane.Gates.{all_ok}
use inference_grid.PacketLane.Session.{
  Entry, Loop, Settings, Stop, World, at_wall, gates_passed, provider_limit, reason_codes,
  rounds_exhausted, stopped_early,
}
use inference_grid.PacketLane.Build.{Verdict, verdict_of}
use inference_grid.PacketLane.Loop.Rounds.{RanGates}
use inference_grid.PacketLane.Loop.Outcome.{IsFinal}

-- The reasons on which the runner hands a packet to another family.
abbrev pub is_retryable : Stop → Bool
is_retryable stopped_early = true
is_retryable rounds_exhausted = true
is_retryable (provider_limit limit) = true
is_retryable _ = false

abbrev pub names_failover : Stop → Bool
names_failover stop = any (λ reason. has_part (codes reason) (reason_codes stop)) failover_reasons

-- A verdict on which the gates of the last round passed.
pub record IsGreen (s : Settings) (v : Verdict) : Type 0 where
  pub last : Entry
  pub before : List Entry
  pub rounds : v.played ≡ last ∷ before
  pub passed_all : all_ok last.results ≡ true
  pub ran : RanGates s.gates last
  pub some_gate : is_empty s.gates ≡ false
  pub stop : (v.stop ≡ gates_passed) ⊎ (v.stop ≡ at_wall)

pub record IsVerdict (show : ℤ → String) (parse : List ℕ → Option Value) (matches : String → Bool)
    (s : Settings) (world : World) (v : Verdict) : Type 0 where
  pub variables : Loop
  pub told : v ≡ verdict_of s variables
  pub final : IsFinal show parse matches s world variables
  pub green : v.all_passed ≡ true → IsGreen s v
  pub verified : v.verified_in_lane ≡ (v.all_passed && is_empty s.operator_gates)
  pub cue : names_failover v.stop ≡ is_retryable v.stop
