-- ===== src/PacketTask/Validity.antt =====
-- What a packet task is that `validate_packet_task` (src/inference_grid/board/packet_task.py) takes.
use inference_grid.Prelude.{
  ℕ, String, Bool, true, false, ◌≡◌, refl, sym, ◌≤◌, Option, none, some, List, [], ◌∷◌, arith,
  is_empty,
}
use inference_grid.Prelude.Int.{pos}
use inference_grid.Value.{
  Value, str, num, int, obj, of_dict, null, Dict, as_dict, as_list, is_str, get_value, get?,
  has_key, value_eq,
}
use inference_grid.Result.{
  ok, Ensures, Ensures-map, Ensures-ok, gives, then_bind, then_check, then_read, then_unless,
}
use inference_grid.BoardTask.{TaskFields, read_fields, write_fields, validate_task, bounded_int}
use inference_grid.BoardTask.Validity.{
  IsTask, validate_task-IsTask, last_check, validate_task-read_fields,
}
use inference_grid.PacketTask.Fields.{unless_none, landed-packet_dict}
use inference_grid.PacketTask.{
  PacketSpec, gate_seconds, check_gate, check_gates, int_or, is_sha, is_how, is_base, is_packet_id,
  check_landed, check_packet_spec, check_packet, validate_packet_task, packet_dict, core_of,
}

abbrev pub Within : ℕ → ℕ → ℕ → Type 0
Within lo hi n = (lo ≤ n) × (n ≤ hi)

bounded_int-Within : (lo hi : ℕ) (v : Value) (n : ℕ) → bounded_int lo hi v ≡ some n → Within lo hi n
unfolding bounded_int
bounded_int-Within lo hi (num (int (pos m))) n h = (ground arith, ground arith)
bounded_int-Within lo hi _ n h = cc

int_or-Within :
    (default lo hi : ℕ) (o : Option Value) (n : ℕ)
    → lo ≤ default
    → default ≤ hi
    → int_or default lo hi o ≡ some n
    → Within lo hi n
int_or-Within default lo hi none n low high h = (ground arith, ground arith)
int_or-Within default lo hi (some v) n low high h = bounded_int-Within lo hi v n h

-- A gate that was read, with its seconds.
pub record IsGate (v : Value) (seconds : ℕ) : Type 0 where
  pub gate : Dict
  pub object : as_dict v ≡ some gate
  pub timed : gate_seconds gate ≡ some seconds
  pub within : Within 1 3600 seconds

check_gate-IsGate : (v : Value) → Ensures (IsGate v) (check_gate v)
unfolding check_gate
check_gate-IsGate v = then_read _ _ λ gate object. then_unless _ _ λ keyed. then_unless _ _ λ known.
    then_unless _ _ λ named. then_unless _ _ λ argued. then_unless _ _ λ placed.
      then_read _ _ λ seconds timed. then_unless _ _ λ set. gives (record {
        gate = gate;
        object = object;
        timed = timed;
        within = int_or-Within 1800 1 3600 _ seconds (omega arith) (omega arith) timed;
      })

-- Every gate of a list, with its seconds, in their order.
abbrev pub AreGates : List Value → List ℕ → Type 0
AreGates [] [] = Unit
AreGates (v ∷ vs) (n ∷ ns) = IsGate v n × AreGates vs ns
AreGates _ _ = ⊥

check_gates-AreGates : (vs : List Value) → Ensures (AreGates vs) (check_gates vs)
unfolding check_gates
check_gates-AreGates [] = gives tt
check_gates-AreGates (v ∷ vs) = then_bind _ λ n timed. then_bind _ λ ns rest.
    gives (Ensures-ok (check_gate-IsGate v) timed, Ensures-ok (check_gates-AreGates vs) rest)

-- The landed record: none, or two commits and a way to land.
pub data IsLanded : Value → Type 0 where
  unlanded : IsLanded null
  landed_by :
      {v : Value}
      → (d : Dict) → as_dict v ≡ some d
      → is_sha (get_value "base_head" d) ≡ true
      → is_sha (get_value "merge_commit" d) ≡ true
      → is_how (get_value "how" d) ≡ true
      → IsLanded v

record Landed (v : Value) (u : Unit {0}) : Type 0 where
  landed : IsLanded v

check_landed-Landed : (v : Value) → Ensures (Landed v) (check_landed v)
unfolding check_landed
check_landed-Landed null = gives (record { landed = unlanded })
check_landed-Landed v = then_read _ _ λ d object. then_unless _ _ λ exact. then_unless _ _ λ base.
    then_unless _ _ λ commit.
      last_check _ _
        λ how. record { landed = landed_by d object (ground arith) (ground arith) (ground arith) }

-- A packet spec within its bounds, for the brief of its task.
pub record IsPacketSpec (is_decimal : ℕ → Bool) (brief : Value) (p : PacketSpec) : Type 0 where
  pub same_brief : value_eq p.brief brief ≡ true
  pub identified : is_packet_id is_decimal p.packet_id ≡ true
  pub based : (s : String) × (p.base ≡ str s) × (is_base s ≡ true)
  pub rounds : Within 1 8 p.rounds
  pub idle : Within 1 3600 p.idle
  pub gates :
      (vs : List Value) × (as_list p.gates ≡ some vs)
      × (is_empty vs ≡ false)
      × AreGates vs p.gate_times

check_packet_spec-IsPacketSpec :
    (is_decimal : ℕ → Bool) (brief v : Value)
    → Ensures (IsPacketSpec is_decimal brief) (check_packet_spec is_decimal brief v)
unfolding check_packet_spec
check_packet_spec-IsPacketSpec is_decimal brief v = then_read _ _ λ spec object.
    then_unless _ _ λ required. then_unless _ _ λ known. then_unless _ _ λ same.
      then_unless _ _ λ identified. then_read _ _ λ base base_of. then_unless _ _ λ based.
        then_read _ _ λ rounds rounds_of. then_read _ _ λ idle idle_of.
          then_read _ _ λ gates gates_of. then_unless _ _ λ some_gates. then_bind _ λ times timed.
            gives (record {
              same_brief = ground arith;
              identified = ground arith;
              based = (base, refl, ground arith);
              rounds =
                  int_or-Within 3 1 8 (get? "max_rounds" spec) rounds (omega arith) (omega arith)
                    rounds_of;
              idle =
                  int_or-Within 900 1 3600 (get? "idle_seconds" spec) idle (omega arith)
                    (omega arith) idle_of;
              gates = (gates, gates_of, some_gates, Ensures-ok (check_gates-AreGates gates) timed);
            })

-- What `validate_packet_task` read: the task under the shared check, the landed record and the spec.
pub record IsPacket (is_decimal : ℕ → Bool) (raw : Dict) (p : PacketSpec) : Type 0 where
  pub core : TaskFields
  pub checked : validate_task (obj (of_dict (core_of raw))) ≡ ok (write_fields core)
  pub read : core ≡ read_fields (core_of raw)
  pub task : IsTask core
  pub packet : is_str "packet" (get_value "category" raw) ≡ true
  pub together : has_key "landed" raw ≡ is_str "landed" (get_value "state" raw)
  pub landed : IsLanded (get_value "landed" raw)
  pub spec : IsPacketSpec is_decimal (get_value "brief" raw) p

check_packet-IsPacket :
    (is_decimal : ℕ → Bool) (raw : Dict)
    → Ensures (IsPacket is_decimal raw) (check_packet is_decimal raw)
unfolding check_packet
check_packet-IsPacket is_decimal raw = then_unless _ _ λ category. then_unless _ _ λ given.
    then_check _ λ depends. then_unless _ _ λ failover. then_unless _ _ λ predecessor.
      then_bind _ λ core checked. then_unless _ _ λ together. then_check _ λ landed.
        let (given, object, keyed, written, task) =
          validate_task-IsTask (obj (of_dict (core_of raw))) core checked in
        let f = read_fields given in
        Ensures-map
          (λ p spec. record {
            core = f;
            checked = rw (sym written) checked;
            read = validate_task-read_fields (core_of raw) f (rw (sym written) checked);
            task = task;
            packet = ground arith;
            together = ground arith;
            landed = (Ensures-ok (check_landed-Landed (get_value "landed" raw)) landed).landed;
            spec = spec;
          })
          (check_packet_spec-IsPacketSpec is_decimal _ _)

pub record IsPacketTask (is_decimal : ℕ → Bool) (v : Value) (out : Dict) : Type 0 where
  pub raw : Dict
  pub object : as_dict v ≡ some raw
  pub spec : PacketSpec
  pub written : out ≡ packet_dict raw spec
  pub record_kept : get? "landed" out ≡ unless_none (get_value "landed" raw)
  pub packet : IsPacket is_decimal raw spec

-- A packet task that `validate_packet_task` returns is the given one, written back with its spec's
-- defaults filled in: as an accepted or unlanded task of a pure function it passes the shared check
-- and is well formed. The given task has the key `landed` exactly in the landed state. Under it stands
-- a record that names two commits and a way to land, which is returned as it is, or None, which is
-- taken too, and then the returned task has no such key although its state is landed. The spec is for
-- the task's own brief, has one to eight rounds, one to 3600 idle seconds and at least one gate, each
-- with a timeout of one to 3600 seconds.
pub validate_packet_task-IsPacketTask :
    (is_decimal : ℕ → Bool) (v : Value) (out : Dict)
    → validate_packet_task is_decimal v ≡ ok out
    → IsPacketTask is_decimal v out
unfolding validate_packet_task
validate_packet_task-IsPacketTask is_decimal v out e =
    Ensures-ok {P = IsPacketTask is_decimal v}
      (then_read _ _ λ raw object. then_bind _ λ p read. gives (record {
        raw = raw;
        object = object;
        spec = p;
        written = refl;
        record_kept = landed-packet_dict raw p;
        packet = Ensures-ok (check_packet-IsPacket is_decimal raw) read;
      }))
      e
