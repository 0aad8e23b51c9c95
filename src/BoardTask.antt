-- ===== src/BoardTask.antt =====
-- src/inference_grid/board/task.py: `validate_task`, the shape of a board's task.
pub mod Validity
use inference_grid.Prelude.{
  ℕ, String, Bool, true, false, not, ◌||◌, ◌&&◌, Option, none, some, List, [], ◌∷◌, ◌==◌, ltb, leb,
  eqb, if◌then◌else◌, any, all, is_empty,
}
use Prim.Native.String.{◌++◌}
use inference_grid.Prelude.Int.{pos}
use inference_grid.Prelude.Text.{
  codes, codes_eq, text_length, is_text, has_code, has_prefix, split_on,
}
use inference_grid.Value.{
  Value, null, str, num, int, arr, obj, Dict, as_dict, as_list, is_str, get_value, has_key,
  has_name, keys,
}
use inference_grid.Result.{
  Result, ok, raised, value_error, type_error, ◌>>=◌, ◌>>◌, raise_if, or_raise,
}
use inference_grid.Receipts.{is_plain_part}

-- The values of the eleven keys.
pub record TaskFields : Type 0 where
  pub id : Value
  pub category : Value
  pub brief : Value
  pub inputs : Value
  pub tests : Value
  pub artifacts : Value
  pub lanes : Value
  pub author_family : Value
  pub budget : Value
  pub state : Value
  pub blocked_reason : Value

-- `want`.
abbrev pub task_keys : List String
task_keys =
    "id" ∷ "category" ∷ "brief" ∷ "inputs" ∷ "tests" ∷ "artifacts" ∷ "lanes" ∷ "author_family"
    ∷ "budget" ∷ "state" ∷ "blocked_reason" ∷ []

-- `set(d) == set(names)`.
abbrev pub has_exactly : List String → Dict → Bool
has_exactly names d = all (λ k. has_key k d) names && all (λ k. has_name k names) (keys d)

abbrev pub read_fields : Dict → TaskFields
read_fields d = record {
  id = get_value "id" d;
  category = get_value "category" d;
  brief = get_value "brief" d;
  inputs = get_value "inputs" d;
  tests = get_value "tests" d;
  artifacts = get_value "artifacts" d;
  lanes = get_value "lanes" d;
  author_family = get_value "author_family" d;
  budget = get_value "budget" d;
  state = get_value "state" d;
  blocked_reason = get_value "blocked_reason" d;
}

-- `{k: cp(raw[k]) for k in want}`: a deep copy has the same value.
abbrev pub write_fields : TaskFields → Dict
write_fields f =
    ("id", f.id)
    ∷ ("category", f.category)
    ∷ ("brief", f.brief)
    ∷ ("inputs", f.inputs)
    ∷ ("tests", f.tests)
    ∷ ("artifacts", f.artifacts)
    ∷ ("lanes", f.lanes)
    ∷ ("author_family", f.author_family)
    ∷ ("budget", f.budget)
    ∷ ("state", f.state)
    ∷ ("blocked_reason", f.blocked_reason)
    ∷ []

abbrev is_name_code : ℕ → Bool
is_name_code c = eqb c b'-' || ((leb b'a' c && leb c b'z') || (leb b'0' c && leb c b'9'))

-- `lset`.
unfoldable pub is_lane_id : String → Bool
is_lane_id s = is_text s && all is_name_code (codes s)

-- `safe`.
unfoldable pub is_safe : String → Bool
unfolding is_plain_part
is_safe s =
    is_text s
    && (not (has_prefix (codes s) (codes "/"))
        && (not (has_code 92 (codes s))
            && (not (has_code 0 (codes s)) && all is_plain_part (split_on 47 (codes s)))))

abbrev pub has_suffix : List ℕ → List ℕ → Bool
has_suffix [] t = codes_eq [] t
has_suffix (c ∷ s) t = codes_eq (c ∷ s) t || has_suffix s t

-- `uniq`, of texts.
abbrev pub distinct : List String → Bool
distinct [] = true
distinct (s ∷ names) = not (has_name s names) && distinct names

-- A text that passes a test.
abbrev pub text_where : (String → Bool) → Value → Option String
text_where p (str s) = if p s then some s else none
text_where p _ = none

unfoldable pub texts_where : (String → Bool) → String → List Value → Result (List String)
texts_where p message [] = ok []
texts_where p message (v ∷ vs) = do
  s ← or_raise (text_where p v) (value_error message)
  rest ← texts_where p message vs
  ok (s ∷ rest)

-- The list checks of `inputs`, `tests` and `artifacts`.
unfoldable pub path_list : String → Value → Result (List String)
unfolding texts_where is_safe
path_list key v = do
  vs ← or_raise (as_list v) (value_error (key ++ ": must be a list"))
  texts_where is_safe (key ++ ": contains an unsafe path") vs

-- A list or a dictionary among the lanes makes `set(lanes)` raise TypeError.
abbrev is_unhashable : Value → Bool
is_unhashable (arr vs) = true
is_unhashable (obj fs) = true
is_unhashable _ = false

abbrev pub lanes_message : String
lanes_message = "lanes: must be non-empty list of distinct lane ids"

unfoldable pub lane_list : Value → Result (List String)
unfolding texts_where is_lane_id
lane_list v = do
  vs ← or_raise (as_list v) (value_error lanes_message)
  raise_if (is_empty vs) (value_error lanes_message)
  raise_if (any is_unhashable vs) type_error
  names ← texts_where is_lane_id lanes_message vs
  raise_if (not (distinct names)) (value_error lanes_message)
  ok names

-- `isint(v)` and `lo <= v <= hi`, where `lo` is not negative.
unfoldable pub bounded_int : ℕ → ℕ → Value → Option ℕ
bounded_int lo hi (num (int (pos n))) = if leb lo n && leb n hi then some n else none
bounded_int lo hi _ = none

abbrev pub is_one_of : List String → Value → Bool
is_one_of names (str s) = has_name s names
is_one_of names _ = false

abbrev pub categories : List String
categories =
    "pure_function" ∷ "tests_multi_file" ∷ "fixtures_multi_file" ∷ "independent_review" ∷ "canary"
    ∷ []

abbrev pub task_states : List String
task_states = "ready" ∷ "dispatched" ∷ "passed" ∷ "review_pending" ∷ "accepted" ∷ "blocked" ∷ []

abbrev pub budget_keys : List String
budget_keys = "wall_seconds" ∷ "output_bytes" ∷ "thinking_tokens" ∷ []

unfoldable pub is_family : Value → Bool
is_family null = true
is_family (str s) = is_text s && not (ltb 40 (text_length s))
is_family _ = false

-- `thinking_tokens`: None or an int.
unfoldable pub is_thinking : Value → Bool
is_thinking null = true
is_thinking (num (int (pos n))) = leb n 100_000
is_thinking _ = false

unfoldable pub check_budget : Value → Result (Unit {0})
unfolding bounded_int is_thinking
check_budget v = do
  let shape =
      value_error "budget: must be dict with exactly wall_seconds, output_bytes, thinking_tokens"
  b ← or_raise (as_dict v) shape
  raise_if (not (has_exactly budget_keys b)) shape
  wall ←
      or_raise (bounded_int 30 3600 (get_value "wall_seconds" b))
        (value_error "budget: wall_seconds must be int 30..3600")
  bytes ←
      or_raise (bounded_int 1 10_000_000 (get_value "output_bytes" b))
        (value_error "budget: output_bytes must be int 1..10000000")
  raise_if (not (is_thinking (get_value "thinking_tokens" b)))
      (value_error "budget: thinking_tokens must be None or int 0..100000")

abbrev pub is_reason : String → Bool
is_reason s = is_text s && not (ltb 300 (text_length s))

-- A reason where the state is blocked, and None elsewhere.
unfoldable pub check_reason : Bool → Value → Result (Unit {0})
check_reason true reason = do
  s ←
      or_raise (text_where is_reason reason)
        (value_error "blocked_reason: must be non-empty str of at most 300 chars when blocked")
  ok tt
check_reason false null = ok tt
check_reason false _ = raised (value_error "blocked_reason: must be None unless state is blocked")

abbrev pub is_id : String → Bool
is_id s = is_lane_id s && not (ltb 60 (text_length s))

abbrev pub is_brief : String → Bool
is_brief s = is_text s && has_suffix (codes s) (codes ".txt")

unfoldable pub check_fields : TaskFields → Result (Unit {0})
unfolding is_lane_id path_list lane_list is_family check_budget check_reason
check_fields f = do
  id ←
      or_raise (text_where is_id f.id)
        (value_error "id: must be non-empty str, max 60 chars, [a-z0-9-]")
  raise_if (not (is_one_of categories f.category)) (value_error "category: unknown category")
  brief ←
      or_raise (text_where is_brief f.brief)
        (value_error "brief: must be non-empty str ending in .txt")
  inputs ← path_list "inputs" f.inputs
  tests ← path_list "tests" f.tests
  artifacts ← path_list "artifacts" f.artifacts
  raise_if (is_empty inputs || not (distinct inputs))
      (value_error "inputs: must be non-empty with distinct entries")
  raise_if (not (distinct tests)) (value_error "tests: must contain distinct entries")
  raise_if (is_empty artifacts || not (distinct artifacts))
      (value_error "artifacts: must be non-empty with distinct entries")
  lanes ← lane_list f.lanes
  raise_if (not (is_family f.author_family))
      (value_error "author_family: must be None or non-empty str of at most 40 chars")
  check_budget f.budget
  raise_if (not (is_one_of task_states f.state)) (value_error "state: unknown state")
  check_reason (is_str "blocked" f.state) f.blocked_reason
  raise_if (not (has_name brief inputs)) (value_error "inputs: brief must appear in inputs")

unfoldable pub validate_task : Value → Result Dict
unfolding check_fields
validate_task raw = do
  d ← or_raise (as_dict raw) (value_error "task: expected a dict")
  raise_if (not (has_exactly task_keys d)) (value_error "task: extra or missing keys")
  check_fields (read_fields d)
  ok (write_fields (read_fields d))
