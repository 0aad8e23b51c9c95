-- ===== src/BoardEntry.antt =====
-- The load and save entry of a board's tasks: `validate_board_task` (src/inference_grid/board/
-- packet_task.py) and the validators of plan, verify_merge and calibration_run tasks.
use inference_grid.Prelude.{
  ℕ, String, Bool, true, false, not, ◌||◌, ◌&&◌, none, some, List, [], ◌∷◌, ◌++◌, leb, eqb,
  if◌then◌else◌, all, is_empty, length,
}
use Prim.Native.String.{◌++◌ as ◌~◌}
use inference_grid.Prelude.Text.{codes, is_text}
use inference_grid.Value.{
  Value, null, str, arr, obj, Dict, as_dict, as_list, as_str, get?, get_value, of_dict, of_items,
  set_key, has_key, has_name, keys, is_str, truthy,
}
use inference_grid.Result.{Result, ok, value_error, key_error, ◌>>=◌, ◌>>◌, raise_if, or_raise}
use inference_grid.BoardTask.{validate_task, bounded_int}
use inference_grid.PacketTask.{validate_packet_task, is_base, is_gate_name, is_argv}

abbrev pub without_spec : Dict → Dict
without_spec [] = []
without_spec ((k, v) ∷ d) =
    let rest = without_spec d in if has_name k ("spec" ∷ []) then rest else (k, v) ∷ rest

-- `core`, before the placeholders.
abbrev pub shared_core : Dict → Dict
shared_core raw = set_key "category" (str "pure_function") (without_spec raw)

-- `core[key] or [placeholder]`, of a key that must be there.
abbrev pub or_placeholder : String → String → Dict → Result Dict
or_placeholder key placeholder core = or_raise (get? key core) key_error >>= λ v.
    ok (if truthy v then core else set_key key (arr (of_items (str placeholder ∷ []))) core)

-- The task that the shared check sees of a code node.
unfoldable pub code_node_core : String → Dict → Result Dict
code_node_core artifact raw = do
  let core = shared_core raw
  brief ← or_raise (as_str (get_value "brief" core)) (value_error "brief: must be a non-empty str")
  raise_if (not (is_text brief)) (value_error "brief: must be a non-empty str")
  with_artifacts ←
      or_placeholder "artifacts" artifact (set_key "inputs" (arr (of_items (str brief ∷ []))) core)
  or_placeholder "lanes" "code-node" with_artifacts

-- The checks in front of a spec's own.
abbrev pub checked_spec : List String → List String → Dict → Result Dict
checked_spec required known raw = do
  spec ← or_raise (as_dict (get_value "spec" raw)) (value_error "spec: expected a dict")
  raise_if (not (all (λ k. has_key k spec) required)) (value_error "spec: missing keys")
  raise_if (not (all (λ k. has_name k known) (keys spec))) (value_error "spec: unknown keys")
  ok spec

abbrev pub head_of : String → Value → Result Dict
head_of category v = do
  raw ← or_raise (as_dict v) (value_error "task: expected a dict")
  raise_if (not (is_str category (get_value "category" raw)))
      (value_error ("category: expected " ~ category))
  raise_if (not (has_key "spec" raw)) (value_error "task: missing spec key")
  ok raw

-- The shared keys as they are, and the spec behind them.
abbrev pub with_spec : Dict → Dict → Dict
with_spec spec raw = without_spec raw ++ (("spec", obj (of_dict spec)) ∷ [])

-- A text that is a branch or ref name.
unfoldable pub ref_text : String → Value → Result String
unfolding is_base
ref_text message v = do
  s ← or_raise (as_str v) (value_error message)
  raise_if (not (is_base s)) (value_error message)
  ok s

abbrev pub is_filled : Value → Bool
is_filled (str s) = is_text s
is_filled _ = false

unfoldable pub validate_plan_task : Value → Result Dict
unfolding validate_task ref_text
validate_plan_task v = do
  raw ← head_of "plan" v
  core ← validate_task (obj (of_dict (shared_core raw)))
  spec ← checked_spec ("base" ∷ []) ("base" ∷ "paths" ∷ []) raw
  base ←
      ref_text "spec: base must be a branch or ref name in the project repository"
        (get_value "base" spec)
  paths ←
      or_raise (if has_key "paths" spec then as_list (get_value "paths" spec) else some [])
        (value_error "spec: paths must be a list of non-empty strs")
  raise_if (not (all is_filled paths)) (value_error "spec: paths must be a list of non-empty strs")
  ok (with_spec (("base", str base) ∷ ("paths", arr (of_items paths)) ∷ []) raw)

abbrev pub known_merge_gate : List String
known_merge_gate = "name" ∷ "argv" ∷ "cwd" ∷ "timeout" ∷ []

-- A key that may be missing.
abbrev pub missing_or : String → (Value → Bool) → Dict → Bool
missing_or key test gate = if has_key key gate then test (get_value key gate) else true

abbrev pub is_timeout : Value → Bool
is_timeout v = elim (bounded_int 1 3600 v) [ none ↦ false | some n ↦ true ]

unfoldable pub check_merge_gate : Value → Result (Unit {0})
unfolding bounded_int
check_merge_gate v = do
  gate ← or_raise (as_dict v) (value_error "spec: each gate needs a name and argv")
  raise_if (not (has_key "name" gate && has_key "argv" gate))
      (value_error "spec: each gate needs a name and argv")
  raise_if (not (all (λ k. has_name k known_merge_gate) (keys gate)))
      (value_error "spec: unknown gate keys")
  raise_if (not (is_gate_name (get_value "name" gate)))
      (value_error "spec: gate name must be a non-empty str of at most 80 chars")
  raise_if (not (is_argv (get_value "argv" gate)))
      (value_error "spec: gate argv must be a non-empty list of strs")
  raise_if (not (missing_or "cwd" is_filled gate))
      (value_error "spec: gate cwd must be a non-empty str")
  raise_if (not (missing_or "timeout" is_timeout gate))
      (value_error "spec: gate timeout must be an int in 1..3600")

unfoldable pub check_merge_gates : List Value → Result (Unit {0})
unfolding check_merge_gate
check_merge_gates [] = ok tt
check_merge_gates (v ∷ vs) = check_merge_gate v >> check_merge_gates vs

abbrev pub merge_keys : List String
merge_keys = "branch" ∷ "target" ∷ "gates" ∷ []

unfoldable pub validate_verify_merge_task : Value → Result Dict
unfolding validate_task code_node_core ref_text check_merge_gates
validate_verify_merge_task v = do
  raw ← head_of "verify_merge" v
  core ← code_node_core "out.json" raw >>= λ d. validate_task (obj (of_dict d))
  spec ← checked_spec merge_keys merge_keys raw
  branch ←
      ref_text "spec: branch must be a branch or ref name in the project repository"
        (get_value "branch" spec)
  target ←
      ref_text "spec: target must be a branch or ref name in the project repository"
        (get_value "target" spec)
  gates ←
      or_raise (as_list (get_value "gates" spec))
        (value_error "spec: gates must be a non-empty list")
  raise_if (is_empty gates) (value_error "spec: gates must be a non-empty list")
  check_merge_gates gates
  ok (
      with_spec
        (("branch", str branch) ∷ ("target", str target) ∷ ("gates", arr (of_items gates)) ∷ [])
        raw)

abbrev is_low_code : ℕ → Bool
is_low_code c = (leb b'a' c && leb c b'z') || (leb b'0' c && leb c b'9')

abbrev low_codes : List ℕ → Bool
low_codes [] = false
low_codes (c ∷ s) = is_low_code c && all (λ d. is_low_code d || eqb d b'-') s

-- `NAME.fullmatch`.
abbrev pub is_case_name : Value → Bool
is_case_name (str s) = low_codes (codes s)
is_case_name _ = false

abbrev pub is_null_value : Value → Bool
is_null_value null = true
is_null_value _ = false

unfoldable pub check_case : Value → List Value → Result Dict
check_case case lanes = if is_null_value case then ok [] else (do
  raise_if (not (is_case_name case)) (value_error "spec: case must match [a-z0-9-]")
  raise_if (not (eqb (length lanes) 1))
      (value_error "spec: a single-case run names exactly one lane")
  ok (("case", case) ∷ []))

unfoldable pub validate_calibration_run_task : Value → Result Dict
unfolding validate_task code_node_core check_case
validate_calibration_run_task v = do
  raw ← head_of "calibration_run" v
  core ← code_node_core "report.json" raw >>= λ d. validate_task (obj (of_dict d))
  spec ←
      checked_spec ("corpus_dir" ∷ "lanes" ∷ "run_id" ∷ [])
        ("corpus_dir" ∷ "lanes" ∷ "run_id" ∷ "case" ∷ []) raw
  raise_if (not (is_filled (get_value "corpus_dir" spec)))
      (value_error "spec: corpus_dir must be a non-empty str")
  raise_if (not (is_case_name (get_value "run_id" spec)))
      (value_error "spec: run_id must match [a-z0-9-]")
  lanes ←
      or_raise (as_list (get_value "lanes" spec))
        (value_error "spec: lanes must be a non-empty list of lane ids")
  raise_if (is_empty lanes || not (all is_case_name lanes))
      (value_error "spec: lanes must be a non-empty list of lane ids")
  single ← check_case (get_value "case" spec) lanes
  ok (
      with_spec
        (("corpus_dir", get_value "corpus_dir" spec)
          ∷ ("lanes", arr (of_items lanes))
          ∷ ("run_id", get_value "run_id" spec)
          ∷ single)
        raw)

-- `isinstance(raw, dict) and raw.get("category") == category`.
abbrev pub is_of_category : String → Value → Bool
is_of_category category v = elim (as_dict v) [
  | none ↦ false
  | some d ↦ is_str category (get_value "category" d)
]

-- `is_decimal` is `\d` of Python's regular expressions.
module _ (is_decimal : ℕ → Bool) where
  unfoldable pub validate_board_task : Value → Result Dict
  unfolding validate_packet_task validate_plan_task validate_verify_merge_task
      validate_calibration_run_task validate_task
  validate_board_task v =
      if is_of_category "packet" v
      then validate_packet_task is_decimal v
      else if is_of_category "plan" v
      then validate_plan_task v
      else if is_of_category "verify_merge" v
      then validate_verify_merge_task v
      else if is_of_category "calibration_run" v
      then validate_calibration_run_task v
      else validate_task v
