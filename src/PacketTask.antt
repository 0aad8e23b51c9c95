-- ===== src/PacketTask.antt =====
-- src/inference_grid/board/packet_task.py: `validate_packet_task`, the shape of a packet task.
pub mod Validity
pub mod Fields
pub mod Admission
use inference_grid.Prelude.{
  ℕ, String, Bool, true, false, not, ◌||◌, ◌&&◌, ◌+◌, ◌*◌, Option, none, some, List, [], ◌∷◌, ◌++◌,
  ◌==◌, ltb, leb, eqb, if◌then◌else◌, any, all, is_empty, length,
}
use inference_grid.Prelude.Int.{pos}
use inference_grid.Prelude.Text.{codes, text_length, is_text, has_code, has_prefix}
use inference_grid.Value.{
  Value, null, bool, str, num, int, arr, obj, Dict, dict, as_dict, as_list, as_str, get?, get_value,
  or_else, set_key, has_key, has_name, keys, value_eq, is_str, of_dict,
}
use inference_grid.Result.{
  Result, ok, raised, value_error, type_error, ◌>>=◌, ◌>>◌, raise_if, or_raise,
}
use inference_grid.BoardTask.{validate_task, distinct, texts_where, bounded_int, has_exactly}
use inference_grid.Routing.Route.{has_part}

-- The keys that the shared check does not know.
abbrev pub extra_keys : List String
extra_keys = "spec" ∷ "landed" ∷ "failover" ∷ "failover_from" ∷ "depends_on" ∷ []

abbrev pub without_extras : Dict → Dict
without_extras [] = []
without_extras ((k, v) ∷ d) =
    let rest = without_extras d in if has_name k extra_keys then rest else (k, v) ∷ rest

abbrev pub is_task_id : String → Bool
is_task_id s = is_text s && not (ltb 60 (text_length s))

-- `depends_on`: None, or a list of distinct ids. A value of another kind fails before the set is built.
unfoldable pub check_depends : Value → Result (Unit {0})
unfolding texts_where
check_depends null = ok tt
check_depends v = do
  vs ←
      or_raise (as_list v) (value_error "depends_on: must be a non-empty list of distinct task ids")
  raise_if (is_empty vs) (value_error "depends_on: must be a non-empty list of distinct task ids")
  names ← texts_where is_task_id "depends_on: must be a non-empty list of distinct task ids" vs
  raise_if (not (distinct names))
      (value_error "depends_on: must be a non-empty list of distinct task ids")

abbrev pub is_bool : Value → Bool
is_bool (bool b) = true
is_bool _ = false

abbrev is_predecessor : Value → Bool
is_predecessor null = true
is_predecessor (str s) = is_task_id s
is_predecessor _ = false

-- `core`: the task as the shared check takes it.
unfoldable pub core_of : Dict → Dict
core_of raw =
    let core = set_key "category" (str "pure_function") (without_extras raw) in
    if is_str "landed" (get_value "state" core) then set_key "state" (str "accepted") core else core

abbrev is_hex : ℕ → Bool
is_hex c = (leb b'0' c && leb c b'9') || (leb b'a' c && leb c b'f')

-- `SHA.fullmatch`.
abbrev pub is_sha : Value → Bool
is_sha (str s) = eqb (length (codes s)) 40 && all is_hex (codes s)
is_sha _ = false

abbrev pub is_how : Value → Bool
is_how (str s) = has_name s ("ff" ∷ "merge" ∷ "union" ∷ [])
is_how _ = false

abbrev landed_keys : List String
landed_keys = "base_head" ∷ "merge_commit" ∷ "how" ∷ []

-- The landed record, where it is not None.
unfoldable pub check_landed : Value → Result (Unit {0})
check_landed null = ok tt
check_landed v = do
  d ←
      or_raise (as_dict v)
        (value_error "landed: must be a dict with exactly base_head, merge_commit, how")
  raise_if (not (has_exactly landed_keys d))
      (value_error "landed: must be a dict with exactly base_head, merge_commit, how")
  raise_if (not (is_sha (get_value "base_head" d)))
      (value_error "landed: base_head must be a 40-hex commit sha")
  raise_if (not (is_sha (get_value "merge_commit" d)))
      (value_error "landed: merge_commit must be a 40-hex commit sha")
  raise_if (not (is_how (get_value "how" d)))
      (value_error "landed: how must be one of ff, merge, union")

abbrev is_upper : ℕ → Bool
is_upper c = leb b'A' c && leb c b'Z'

abbrev is_alnum : ℕ → Bool
is_alnum c = is_upper c || ((leb b'a' c && leb c b'z') || (leb b'0' c && leb c b'9'))

-- The rest of `BASE_REF`: letters, digits and `._/@+-`.
abbrev is_ref_code : ℕ → Bool
is_ref_code c = is_alnum c || any (eqb c) (codes "._/@+-")

abbrev ref_codes : List ℕ → Bool
ref_codes [] = false
ref_codes (c ∷ s) = is_alnum c && all is_ref_code s

unfoldable pub is_base : String → Bool
unfolding has_part
is_base s =
    ref_codes (codes s) && (not (has_part (codes "..") (codes s)) && not (ltb 80 (text_length s)))

abbrev required_spec : List String
required_spec = "brief" ∷ "packet_id" ∷ "gates" ∷ "base" ∷ []

abbrev known_spec : List String
known_spec = "brief" ∷ "packet_id" ∷ "gates" ∷ "base" ∷ "max_rounds" ∷ "idle_seconds" ∷ []

abbrev known_gate : List String
known_gate = "name" ∷ "argv" ∷ "cwd" ∷ "timeout" ∷ "env" ∷ []

abbrev is_string : Value → Bool
is_string (str s) = true
is_string _ = false

abbrev pub is_gate_name : Value → Bool
is_gate_name (str s) = is_text s && not (ltb 80 (text_length s))
is_gate_name _ = false

abbrev pub is_argv : Value → Bool
is_argv v = elim (as_list v) [
  | none ↦ false
  | some [] ↦ false
  | some (x ∷ xs) ↦ all is_string (x ∷ xs)
]

abbrev absent_or : (Value → Bool) → Option Value → Bool
absent_or test none = true
absent_or test (some v) = test v

abbrev is_cwd : Value → Bool
is_cwd (str s) = is_text s
is_cwd _ = false

abbrev is_env : Value → Bool
is_env v = elim (as_dict v) [ none ↦ false | some d ↦ all (λ e. is_string e.1) d ]

-- `d.get(key, default)` of a bounded int.
abbrev pub int_or : ℕ → ℕ → ℕ → Option Value → Option ℕ
int_or default lo hi none = some default
int_or default lo hi (some v) = bounded_int lo hi v

-- The seconds of a gate: its own timeout, or 1800.
abbrev pub gate_seconds : Dict → Option ℕ
gate_seconds gate = int_or 1800 1 3600 (get? "timeout" gate)

unfoldable pub check_gate : Value → Result ℕ
check_gate v = do
  gate ← or_raise (as_dict v) (value_error "spec: each gate needs a name and argv")
  raise_if (not (has_key "name" gate && has_key "argv" gate))
      (value_error "spec: each gate needs a name and argv")
  raise_if (not (all (λ k. has_name k known_gate) (keys gate)))
      (value_error "spec: unknown gate keys")
  raise_if (not (is_gate_name (get_value "name" gate)))
      (value_error "spec: gate name must be a non-empty str of at most 80 chars")
  raise_if (not (is_argv (get_value "argv" gate)))
      (value_error "spec: gate argv must be a non-empty list of strs")
  raise_if (not (absent_or is_cwd (get? "cwd" gate)))
      (value_error "spec: gate cwd must be a non-empty str")
  seconds ←
      or_raise (gate_seconds gate) (value_error "spec: gate timeout must be an int in 1..3600")
  raise_if (not (absent_or is_env (get? "env" gate)))
      (value_error "spec: gate env must be a dict of strs")
  ok seconds

-- The gates, and the seconds of each.
unfoldable pub check_gates : List Value → Result (List ℕ)
unfolding check_gate
check_gates [] = ok []
check_gates (v ∷ vs) = do seconds ← check_gate v; rest ← check_gates vs; ok (seconds ∷ rest)

-- A checked packet spec, with the numbers that the admission reads.
pub record PacketSpec : Type 0 where
  pub brief : Value
  pub packet_id : Value
  pub gates : Value
  pub base : Value
  pub rounds : ℕ
  pub idle : ℕ
  pub gate_times : List ℕ

abbrev pub spec_dict : PacketSpec → Dict
spec_dict p =
    ("brief", p.brief)
    ∷ ("packet_id", p.packet_id)
    ∷ ("gates", p.gates)
    ∷ ("base", p.base)
    ∷ ("max_rounds", num (int (pos p.rounds)))
    ∷ ("idle_seconds", num (int (pos p.idle)))
    ∷ []

-- A key that is there unless its value is None.
abbrev pub unless_null : String → Value → Dict
unless_null k null = []
unless_null k v = (k, v) ∷ []

-- `out`: the shared keys as they are, and then the packet's.
abbrev pub packet_dict : Dict → PacketSpec → Dict
packet_dict raw p =
    without_extras raw
    ++ (("failover", or_else (get? "failover" raw) (bool true))
        ∷ (unless_null "failover_from" (get_value "failover_from" raw)
            ++ (unless_null "depends_on" (get_value "depends_on" raw)
                ++ (("spec", obj (of_dict (spec_dict p)))
                    ∷ unless_null "landed" (get_value "landed" raw)))))

-- `is_decimal` is `\d` of Python's regular expressions: a decimal digit of any script.
module _ (is_decimal : ℕ → Bool) where
  -- `PACKET_ID.fullmatch`.
  abbrev pub is_packet_id : Value → Bool
  is_packet_id (str s) = elim (codes s) [
    | [] ↦ false
    | c ∷ ds ↦ is_upper c && (all is_decimal ds && (leb 1 (length ds) && leb (length ds) 3))
  ]
  is_packet_id _ = false

  unfoldable pub check_packet_spec : Value → Value → Result PacketSpec
  unfolding is_base check_gates value_eq bounded_int
  check_packet_spec brief v = do
    spec ← or_raise (as_dict v) (value_error "spec: expected a dict")
    raise_if (not (all (λ k. has_key k spec) required_spec)) (value_error "spec: missing keys")
    raise_if (not (all (λ k. has_name k known_spec) (keys spec))) (value_error "spec: unknown keys")
    raise_if (not (value_eq (get_value "brief" spec) brief))
        (value_error "spec: brief must be the task's own brief file")
    raise_if (not (is_packet_id (get_value "packet_id" spec)))
        (value_error "spec: packet_id must be a brief heading id like A1")
    base ←
        or_raise (as_str (get_value "base" spec))
          (value_error "spec: base must be a branch or ref name in the project repository")
    raise_if (not (is_base base))
        (value_error "spec: base must be a branch or ref name in the project repository")
    rounds ←
        or_raise (int_or 3 1 8 (get? "max_rounds" spec))
          (value_error "spec: max_rounds must be an int in 1..8")
    idle ←
        or_raise (int_or 900 1 3600 (get? "idle_seconds" spec))
          (value_error "spec: idle_seconds must be an int in 1..3600")
    gates ←
        or_raise (as_list (get_value "gates" spec))
          (value_error "spec: gates must be a non-empty list")
    raise_if (is_empty gates) (value_error "spec: gates must be a non-empty list")
    times ← check_gates gates
    ok (record {
      brief = get_value "brief" spec;
      packet_id = get_value "packet_id" spec;
      gates = get_value "gates" spec;
      base = str base;
      rounds = rounds;
      idle = idle;
      gate_times = times;
    })

  -- The checks in front of the spec's, and the spec.
  unfoldable pub check_packet : Dict → Result PacketSpec
  unfolding check_depends core_of validate_task check_landed check_packet_spec
  check_packet raw = do
    raise_if (not (is_str "packet" (get_value "category" raw)))
        (value_error "category: expected packet")
    raise_if (not (has_key "spec" raw)) (value_error "task: missing spec key")
    check_depends (get_value "depends_on" raw)
    raise_if (not (is_bool (or_else (get? "failover" raw) (bool true))))
        (value_error "failover: must be a bool")
    raise_if (not (is_predecessor (get_value "failover_from" raw)))
        (value_error "failover_from: must be a non-empty str of at most 60 chars")
    core ← validate_task (obj (of_dict (core_of raw)))
    raise_if
        (not (
          if has_key "landed" raw
          then is_str "landed" (get_value "state" raw)
          else not (is_str "landed" (get_value "state" raw))))
        (value_error "landed: the landed record and the landed state come together or not at all")
    check_landed (get_value "landed" raw)
    check_packet_spec (get_value "brief" raw) (get_value "spec" raw)

  unfoldable pub validate_packet_task : Value → Result Dict
  unfolding check_packet
  validate_packet_task v = do
    raw ← or_raise (as_dict v) (value_error "task: expected a dict")
    p ← check_packet raw
    ok (packet_dict raw p)
