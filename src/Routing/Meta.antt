-- ===== src/Routing/Meta.antt =====
-- src/inference_grid/lanes/meta.py: the lane facts that are policy.
use inference_grid.Prelude.{
  String, Bool, true, false, not, ◌&&◌, Option, none, some, List, [], ◌∷◌, ◌==◌, if◌then◌else◌, any,
  all, is_empty,
}
use inference_grid.Prelude.Text.{is_text, is_blank}
use inference_grid.Value.{
  Value, null, str, Dict, as_dict, as_list, get?, or_else, has_key, has_name, keys, is_str,
}
use inference_grid.Result.{Result, ok, value_error, ◌>>=◌, ◌>>◌, raise_if, or_raise}

-- `ENUMS`.
abbrev pub enum_of : String → Option (List String)
enum_of key =
    if key == "residency"
    then some ("us" ∷ "eu" ∷ "unknown" ∷ [])
    else if key == "retention"
    then some ("zero" ∷ "days" ∷ "unknown" ∷ [])
    else none

-- A value among texts.
abbrev pub is_among : List String → Value → Bool
is_among names (str s) = has_name s names
is_among names _ = false

abbrev is_note : Value → Bool
is_note (str s) = not (is_blank s)
is_note _ = false

abbrev known_keys : List String
known_keys = "residency" ∷ "retention" ∷ "retention_source" ∷ []

-- One key of the record that may be absent.
abbrev absent_or : (Value → Bool) → Option Value → Bool
absent_or test none = true
absent_or test (some v) = test v

-- The record of a lane in the sidecar. The messages are their fixed parts.
unfoldable pub check_meta : String → Value → Result Dict
unfolding is_blank
check_meta lid v = do
  raise_if (not (is_text lid)) (value_error "lanes-meta: lane id must be a non-empty str")
  d ← or_raise (as_dict v) (value_error "lanes-meta: must be a dict")
  raise_if (not (all (λ k. has_name k known_keys) (keys d)))
      (value_error "lanes-meta: carries unknown key(s)")
  raise_if (not (absent_or (is_among ("us" ∷ "eu" ∷ "unknown" ∷ [])) (get? "residency" d)))
      (value_error "lanes-meta: residency must be one of us, eu, unknown")
  raise_if (not (absent_or (is_among ("zero" ∷ "days" ∷ "unknown" ∷ [])) (get? "retention" d)))
      (value_error "lanes-meta: retention must be one of zero, days, unknown")
  raise_if (not (absent_or is_note (get? "retention_source" d)))
      (value_error "lanes-meta: retention_source must be a non-empty str")
  ok d

unfoldable pub check_metas : Dict → Result (List (String × Dict))
unfolding check_meta
check_metas [] = ok []
check_metas ((lid, v) ∷ lanes) = do
  d ← check_meta lid v
  rest ← check_metas lanes
  ok ((lid, d) ∷ rest)

-- The sidecar document; the result is its `lanes`.
unfoldable pub validate_lane_meta : Value → Result (List (String × Dict))
unfolding check_metas
validate_lane_meta raw = do
  d ←
      or_raise (as_dict raw)
        (value_error "lanes-meta: expected a dict with exactly one key 'lanes'")
  raise_if (not (has_key "lanes" d && all (λ k. k == "lanes") (keys d)))
      (value_error "lanes-meta: expected a dict with exactly one key 'lanes'")
  lanes ←
      or_raise (as_dict (or_else (get? "lanes" d) null))
        (value_error "lanes-meta: 'lanes' must be a dict")
  check_metas lanes

abbrev as_word : Value → Option String
as_word (str s) = if is_text s then some s else none
as_word _ = none

unfoldable pub words_of : List Value → Option (List String)
words_of [] = some []
words_of (v ∷ vs) = elim (as_word v) [
  | none ↦ none
  | some s ↦ elim (words_of vs) [ none ↦ none | some rest ↦ some (s ∷ rest) ]
]

-- One key of a requirement: the values that the board accepts.
unfoldable pub allowed_values : String → Value → Result (List String)
unfolding words_of
allowed_values key v = do
  enum ← or_raise (enum_of key) (value_error "require_lane_meta: unknown key")
  vs ← or_raise (as_list v) (value_error "require_lane_meta: must be a non-empty list of values")
  raise_if (is_empty vs) (value_error "require_lane_meta: must be a non-empty list of values")
  raise_if (any (is_str "unknown") vs)
      (value_error "require_lane_meta: unknown never satisfies, it cannot be allowed")
  names ← or_raise (words_of vs) (value_error "require_lane_meta: takes non-empty strings")
  raise_if (not (all (λ s. has_name s enum) names))
      (value_error "require_lane_meta: values outside the enum")
  ok names

-- A requirement, checked.
abbrev pub Requirement : Type 0
Requirement = List (String × List String)

unfoldable pub check_requirement : Dict → Result Requirement
unfolding allowed_values
check_requirement [] = ok []
check_requirement ((key, v) ∷ d) = do
  names ← allowed_values key v
  rest ← check_requirement d
  ok ((key, names) ∷ rest)

unfoldable pub validate_requirement : Value → Result Requirement
unfolding check_requirement
validate_requirement v = do
  d ←
      or_raise (as_dict v)
        (value_error "require_lane_meta: expected a non-empty dict of key -> allowed values")
  raise_if (is_empty d)
      (value_error "require_lane_meta: expected a non-empty dict of key -> allowed values")
  check_requirement d

-- The first listed key that a lane's record fails, with its value there.
unfoldable pub first_failed : Dict → Requirement → Option (String × Value)
first_failed d [] = none
first_failed d ((key, allowed) ∷ require) =
    let rest = first_failed d require in
    let value = or_else (get? key d) (str "unknown") in
    if is_among allowed value then rest else some (key, value)

unfoldable pub policy_drop : Value → Requirement → Option (String × Value)
unfolding first_failed
policy_drop v require = first_failed (or_else (as_dict v) []) require
