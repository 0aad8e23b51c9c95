-- ===== src/LaneConfig.antt =====
-- src/inference_grid/lanes/config.py: `validate_lane_config`.
pub mod Validity
use inference_grid.Prelude.{
  ℕ, String, Bool, true, false, not, ◌||◌, ◌&&◌, Option, none, some, List, [], ◌∷◌, ltb, eqb,
  if◌then◌else◌, any, all, is_empty,
}
use inference_grid.Prelude.Int.{ℤ, pos, ltb_ℤ}
use inference_grid.Prelude.Text.{codes, text_length, is_text, has_prefix}
use inference_grid.Value.{
  Value, null, str, obj, of_dict, Dict, as_dict, as_list, as_number, get_value, get?, set_key,
  has_name, is_str, is_finite, amount,
}
use inference_grid.Result.{
  Result, ok, value_error, type_error, overflow_error, ◌>>=◌, ◌>>◌, raise_if, or_raise,
}
use inference_grid.BoardTask.{bounded_int, distinct, texts_where, has_exactly}

abbrev config_keys : List String
config_keys =
    "provider" ∷ "family" ∷ "model" ∷ "kind" ∷ "credential_path" ∷ "executable" ∷ "plan_units"
    ∷ "window" ∷ "max_concurrency" ∷ "wall_seconds" ∷ "categories" ∷ []

abbrev pub config_kinds : List String
config_kinds = "go_http" ∷ "goat_cli" ∷ "claude_headless" ∷ "zcode_cli" ∷ "codex_cli" ∷ []

-- A non-empty text of at most so many characters.
abbrev pub is_short : ℕ → Value → Bool
is_short n (str s) = is_text s && not (ltb n (text_length s))
is_short n _ = false

abbrev pub is_config_kind : Value → Bool
is_config_kind (str s) = has_name s config_kinds
is_config_kind _ = false

-- None, or an absolute path.
abbrev pub is_file : Value → Bool
is_file null = true
is_file (str s) = has_prefix (codes s) (codes "/")
is_file _ = false

abbrev pub is_window : Value → Bool
is_window null = true
is_window v = is_str "zai_flash" v

abbrev pub is_positive : Value → Bool
is_positive v = elim (as_number v) [
  | none ↦ false
  | some n ↦ elim (amount n) [ none ↦ false | some q ↦ ltb_ℤ (pos 0) q ]
]

-- The loop over `plan_units`. math.isfinite raises OverflowError of an int too large for a float.
unfoldable pub check_units : Dict → Result (Unit {0})
unfolding is_finite amount
check_units [] = ok tt
check_units ((w, v) ∷ units) = do
  raise_if (not (is_text w)) (value_error "plan_units keys must be non-empty strs")
  n ← or_raise (as_number v) (value_error "plan_units values must be finite non-bool numbers > 0")
  usable ← or_raise (is_finite n) overflow_error
  raise_if (not (usable && is_positive v))
      (value_error "plan_units values must be finite non-bool numbers > 0")
  check_units units

abbrev is_category : String → Bool
is_category s = is_text s

-- `is_lower` is `c.isalpha() and c.islower()`. Each message is without the lane's id in front.
module _ (is_lower : ℕ → Bool) where
  abbrev is_id_code : ℕ → Bool
  is_id_code c = is_lower c || any (λ d. eqb c d) (codes "0123456789-")

  abbrev pub is_config_id : String → Bool
  is_config_id s = is_text s && (not (ltb 40 (text_length s)) && all is_id_code (codes s))

  unfoldable pub check_config : String → Value → Result Dict
  unfolding check_units bounded_int texts_where
  check_config lid v = do
    raise_if (not (is_config_id lid)) (
        value_error
          "lane id must be non-empty str <= 40 chars of lowercase letters, digits, hyphens")
    spec ← or_raise (as_dict v) (value_error "lane must be a dict with exactly the required keys")
    raise_if (not (has_exactly config_keys spec))
        (value_error "lane must be a dict with exactly the required keys")
    raise_if (not (is_short 40 (get_value "provider" spec)))
        (value_error "provider must be a non-empty str of at most 40 chars")
    raise_if (not (is_short 40 (get_value "family" spec)))
        (value_error "family must be a non-empty str of at most 40 chars")
    raise_if (not (is_short 80 (get_value "model" spec)))
        (value_error "model must be a non-empty str of at most 80 chars")
    raise_if (not (is_config_kind (get_value "kind" spec)))
        (value_error "kind must be one of the allowed kinds")
    raise_if (not (is_file (get_value "credential_path" spec)))
        (value_error "credential_path must be None or a str starting with '/'")
    raise_if (not (is_file (get_value "executable" spec)))
        (value_error "executable must be None or a str starting with '/'")
    units ←
        or_raise (as_dict (get_value "plan_units" spec)) (value_error "plan_units must be a dict")
    check_units units
    raise_if (not (is_window (get_value "window" spec)))
        (value_error "window must be None or 'zai_flash'")
    slots ←
        or_raise (bounded_int 1 8 (get_value "max_concurrency" spec))
          (value_error "max_concurrency must be an int in 1..8")
    wall ←
        or_raise (bounded_int 30 3600 (get_value "wall_seconds" spec))
          (value_error "wall_seconds must be an int in 30..3600")
    given ←
        or_raise (as_list (get_value "categories" spec))
          (value_error "categories must be a non-empty list of distinct non-empty strs")
    raise_if (is_empty given)
        (value_error "categories must be a non-empty list of distinct non-empty strs")
    names ←
        texts_where is_category "categories must be a non-empty list of distinct non-empty strs"
          given
    raise_if (not (distinct names))
        (value_error "categories must be a non-empty list of distinct non-empty strs")
    ok spec

  unfoldable pub check_configs : Dict → Result (List (String × Dict))
  unfolding check_config
  check_configs [] = ok []
  check_configs ((lid, v) ∷ lanes) = do
    spec ← check_config lid v
    rest ← check_configs lanes
    ok ((lid, spec) ∷ rest)

  -- The lanes of the answer.
  unfoldable pub validate_lane_config : Value → Result (List (String × Dict))
  unfolding check_configs
  validate_lane_config v = do
    raw ← or_raise (as_dict v) (value_error "lanes: expected dict with exactly one key 'lanes'")
    raise_if (not (has_exactly ("lanes" ∷ []) raw))
        (value_error "lanes: expected dict with exactly one key 'lanes'")
    lanes ←
        or_raise (as_dict (get_value "lanes" raw)) (value_error "lanes: must be a non-empty dict")
    raise_if (is_empty lanes) (value_error "lanes: must be a non-empty dict")
    check_configs lanes
