-- ===== src/Tests/Packets.antt =====
-- The theorems on packets, at a packet of one gate and at one of six.
use inference_grid.Prelude.{
  ℕ, Bool, ◌≡◌, refl, none, List, [], ◌∷◌, ◌+◌, ◌*◌, ◌≤◌, ◌&&◌, length, leb, arith,
}
use inference_grid.Prelude.Int.{pos}
use inference_grid.Value.{Value, Dict, null, str, obj, arr, of_dict, of_items}
use inference_grid.Result.{ok, raised, Error}
use inference_grid.Ledger.State.{State}
use inference_grid.BoardTask.{validate_task}
use inference_grid.PacketTask.{
  PacketSpec, validate_packet_task, packet_dict, check_depends, core_of, check_landed, is_base,
  check_gate, check_gates, check_packet_spec, check_packet,
}
use inference_grid.PacketTask.Validity.{IsPacketTask, validate_packet_task-IsPacketTask}
use inference_grid.PacketTask.Admission.{
  PacketLane, PacketAdmission, gate_timeout, sum_timeouts, packet_wall_seconds, account_windows,
  packet_ledger_spec, start_packet, claim_packet, admit_packet,
}
use inference_grid.PacketTask.Admission.Bounds.{gates_of, packet_wall_seconds-bounds}
use inference_grid.PacketTask.Admission.Refusal.{admit_packet_refused}
use inference_grid.PacketTask.Admission.Started.{IsAdmitted, admit_packet-IsAdmitted}
use inference_grid.Tests.Scenario.{program, at, env, whole, configured}

abbrev pub gate : Value
gate = obj (of_dict (("name", str "tests") ∷ ("argv", arr (of_items (str "pytest" ∷ []))) ∷ []))

abbrev pub spec_of : List Value → Value
spec_of gates = obj (
    of_dict (
      ("brief", str "brief.txt")
      ∷ ("packet_id", str "A1")
      ∷ ("gates", arr (of_items gates))
      ∷ ("base", str "main")
      ∷ []))

abbrev pub packet_of : List Value → Dict
packet_of gates =
    ("id", str "t-1")
    ∷ ("category", str "packet")
    ∷ ("brief", str "brief.txt")
    ∷ ("inputs", arr (of_items (str "brief.txt" ∷ [])))
    ∷ ("tests", arr (of_items []))
    ∷ ("artifacts", arr (of_items (str "out.py" ∷ [])))
    ∷ ("lanes", arr (of_items (str "zai" ∷ [])))
    ∷ ("author_family", null)
    ∷ (
      "budget",
      obj (
          of_dict (
            ("wall_seconds", whole 3600)
            ∷ ("output_bytes", whole 1000)
            ∷ ("thinking_tokens", null)
            ∷ [])),
    )
    ∷ ("state", str "ready")
    ∷ ("blocked_reason", null)
    ∷ ("spec", spec_of gates)
    ∷ []

abbrev pub is_decimal : ℕ → Bool
is_decimal c = leb b'0' c && leb c b'9'

abbrev pub checked : List Value → List ℕ → PacketSpec
checked gates times = record {
  brief = str "brief.txt";
  packet_id = str "A1";
  gates = arr (of_items gates);
  base = str "main";
  rounds = 3;
  idle = 900;
  gate_times = times;
}

abbrev pub one_gate : List Value
one_gate = gate ∷ []

abbrev six_gates : List Value
six_gates = gate ∷ gate ∷ gate ∷ gate ∷ gate ∷ gate ∷ []

abbrev short : Dict
short = packet_dict (packet_of one_gate) (checked one_gate (1800 ∷ []))

abbrev long : Dict
long =
    packet_dict (packet_of six_gates)
      (checked six_gates (1800 ∷ 1800 ∷ 1800 ∷ 1800 ∷ 1800 ∷ 1800 ∷ []))

unfoldable pub packets : Unit {0}
unfolding program validate_task validate_packet_task check_depends core_of check_landed is_base
    check_gate check_gates check_packet_spec check_packet gate_timeout sum_timeouts
    packet_wall_seconds account_windows packet_ledger_spec start_packet claim_packet admit_packet
packets = tt

validate_packet_task-IsPacketTask_example :
    IsPacketTask is_decimal (obj (of_dict (packet_of six_gates))) long
unfolding packets
validate_packet_task-IsPacketTask_example =
    validate_packet_task-IsPacketTask is_decimal (obj (of_dict (packet_of six_gates))) long refl

packet_wall_seconds-bounds_example :
    (seconds : ℕ) × (packet_wall_seconds long ≡ ok (pos seconds))
    × (1 ≤ length (gates_of long))
    × (90 + length (gates_of long) ≤ seconds)
    × (seconds ≤ 4080 + 3600 * length (gates_of long))
unfolding packets
packet_wall_seconds-bounds_example =
    packet_wall_seconds-bounds is_decimal (obj (of_dict (packet_of six_gates))) long refl

abbrev goat : PacketLane
goat = record { kind = "goat_cli"; model = str "m"; family = str "f" }

-- Six gates of the default timeout make a valid task, whose wall time is 14580 seconds.
admit_packet_refused_example :
    (e : Error) × (admit_packet env
        (at 3)
        (at 4)
        goat
        long
        "/work/attempts"
        "p"
        "t-1-x"
        "a1"
        "acct"
        configured
      ≡ (raised e, configured))
unfolding packets
admit_packet_refused_example =
    admit_packet_refused env (at 3) (at 4) goat long "/work/attempts" "p" "t-1-x" "a1" "acct"
      configured 14580 refl (omega arith)

abbrev admission : PacketAdmission
admission = record { aid = "a1"; generation = 1; state = none }

abbrev admitted : State
admitted =
    (admit_packet env (at 3) (at 4) goat short "/work/attempts" "p" "t-1-x" "a1" "acct"
      configured).1

admit_packet-IsAdmitted_example : IsAdmitted "t-1-x" admission admitted
unfolding packets
admit_packet-IsAdmitted_example =
    admit_packet-IsAdmitted env (at 3) (at 4) goat short "/work/attempts" "p" "t-1-x" "a1" "acct"
      configured admitted admission refl
