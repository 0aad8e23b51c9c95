-- ===== src/Ledger/Submit.antt =====
-- ledger.py, `submit` (297-351): the checks of a task and its immutable row.
pub mod Once
use inference_grid.Prelude.{
  ℕ, String, Bool, true, false, not, ◌||◌, ◌&&◌, Option, none, some, List, [], ◌∷◌, ◌==◌, leb, any,
  all, if◌then◌else◌, is_empty, ◌*◌,
}
use inference_grid.Prelude.Int.{ℤ, pos, negsuc}
use inference_grid.Prelude.Text.{codes, is_text, has_prefix}
use inference_grid.Value.{
  Value, null, str, num, int, obj, arr, Dict, as_str, as_dict, as_list, as_int, get?, get_value,
  or_else, is_true, truthy, set_key, dict_eq, value_eq, dict, of_dict, no_fields, no_items, items,
  is_object,
}
use inference_grid.Result.{
  Result, ok, raised, refused, type_error, Error, ◌>>=◌, ◌>>◌, raise_if, or_raise,
}
use inference_grid.Receipts.{safe_path, sha256}
use inference_grid.Aliases.{canonical_account}
use inference_grid.Ledger.State.{Task, State, Env, task_row, Attempt}

abbrev is_string : Value → Bool
is_string (str s) = true
is_string _ = false

-- `isinstance(argv, list) and argv and all(isinstance(x, str) for x in argv)`: its first word.
unfoldable pub argv_head : Value → Option String
argv_head (arr vs) = elim (items vs) [
  | [] ↦ none
  | v ∷ rest ↦ if all is_string rest then as_str v else none
]
argv_head _ = none

-- The checks that `submit` and `record_external` begin with (300-309 and 740-749).
unfoldable pub check_submission : String → String → Dict → Result String
unfolding argv_head
check_submission task project spec = do
  raise_if
      (not (is_text task) || (not (is_text project) || not (is_true (get_value "authorized" spec))))
      (refused "explicit local authorization required")
  raise_if (not (truthy (get_value "model" spec)) || not (truthy (get_value "family" spec)))
      (refused "model and family required")
  or_raise (argv_head (get_value "argv" spec)) (refused "argv required")

-- `Path(p).is_absolute()` of a text, and the TypeError of `Path` on anything else.
unfoldable pub absolute_path : Value → String → Result String
absolute_path v message = do
  path ← or_raise (as_str v) type_error
  raise_if (not (has_prefix (codes path) (codes "/"))) (refused message)
  ok path

unfoldable pub check_workspace : Dict → Result String
unfolding absolute_path
check_workspace spec =
    absolute_path (or_else (get? "workspace" spec) (str "")) "absolute isolated workspace required"

-- `type(v) is int and 1 <= v <= bound`.
abbrev is_bounded : ℕ → Value → Bool
is_bounded bound (num (int (pos n))) = leb 1 n && leb n bound
is_bounded bound _ = false

abbrev is_int : Value → Bool
is_int (num (int n)) = true
is_int _ = false

unfoldable pub timeout_bound : String → ℕ
timeout_bound head = if has_prefix (codes head) (codes "packet-loop:") then 4 * 3600 else 3600

-- A candidate names an account and holds an estimate.
unfoldable pub candidate_account : Value → Option String
candidate_account (obj fs) = elim (as_str (get_value "account" (dict fs))) [
  | none ↦ none
  | some account ↦
      if is_text account && is_object (get_value "estimate" (dict fs)) then some account else none
]
candidate_account _ = none

candidate_accounts : List Value → Option (List String)
unfolding candidate_account
candidate_accounts [] = some []
candidate_accounts (v ∷ vs) = elim (candidate_account v) [
  | none ↦ none
  | some account ↦ elim (candidate_accounts vs) [ none ↦ none | some rest ↦ some (account ∷ rest) ]
]

check_aliases : Value → List String → Result (Unit {0})
check_aliases aliases [] = ok tt
check_aliases aliases (account ∷ rest) = do
  target ← canonical_account (str account) aliases
  check_aliases aliases rest

unfoldable pub check_candidates : Dict → Result (Unit {0})
unfolding candidate_accounts check_aliases
check_candidates spec = do
  candidates ←
      or_raise (as_list (or_else (get? "candidates" spec) (arr no_items)))
        (refused "invalid route candidates")
  accounts ← or_raise (candidate_accounts candidates) (refused "invalid route candidates")
  check_aliases (or_else (get? "account_aliases" spec) (obj no_fields)) accounts

abbrev is_input : String × Value → Bool
is_input (k, v) = safe_path (str k) && sha256 v

-- The input manifest, its digest and its root (332-340).
unfoldable pub check_inputs : Env → Dict → Result (Unit {0})
unfolding safe_path sha256 value_eq absolute_path
check_inputs env spec = do
  let given = or_else (get? "inputs" spec) (obj no_fields)
  inputs ← or_raise (as_dict given) (refused "invalid input manifest")
  raise_if (not (all is_input inputs)) (refused "invalid input manifest")
  raise_if (not (value_eq (get_value "manifest_sha256" spec) (str (env.digest given))))
      (refused "manifest digest required")
  if is_empty inputs then ok tt else (do
    root ← absolute_path (or_else (get? "input_root" spec) (str "")) "absolute input root required"
    ok tt)

-- The numbers of a spec (314-318, 341-342).
unfoldable pub check_timeout : String → Dict → Result (Unit {0})
unfolding timeout_bound
check_timeout head spec = do
  raise_if (not (is_bounded (timeout_bound head) (get_value "timeout" spec)))
      (refused "bounded timeout required")
  raise_if (not (is_int (or_else (get? "priority" spec) (num (int (pos 100))))))
      (refused "integer priority required")

-- Every check of `submit`, in its order; the result is the workspace as given.
unfoldable pub check_spec : Env → String → String → Dict → Result String
unfolding check_submission check_workspace check_timeout check_candidates check_inputs
check_spec env task project spec = do
  head ← check_submission task project spec
  workspace ← check_workspace spec
  check_timeout head spec
  check_candidates spec
  check_inputs env spec
  raise_if (not (is_bounded 10_000_000 (get_value "output_bytes" spec)))
      (refused "bounded output bytes required")
  ok workspace

abbrev pub store_task : String → String → Dict → State → State
store_task task project spec s = record s {
  tasks = record { id = task; project = project; spec = spec } ∷ s.tasks;
}

-- A task is written once; the same task again changes nothing, and another one is refused.
unfoldable pub store_once : String → String → Dict → State → Result (Unit {0} × State)
unfolding dict_eq
store_once task project spec s = elim (task_row task s) [
  | none ↦ ok (tt, store_task task project spec s)
  | some old ↦ do
    raise_if (not (dict_eq old.spec spec) || not (old.project == project))
        (refused "immutable task changed")
    ok (tt, s)
]

unfoldable pub submit : Env → String → String → Dict → State → Result (Unit {0} × State)
unfolding check_spec store_once
submit env task project spec s = do
  workspace ← check_spec env task project spec
  store_once task project (set_key "workspace" (str (env.resolve workspace)) spec) s
