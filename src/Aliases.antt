-- ===== src/Aliases.antt =====
-- src/inference_grid/aliases.py: `canonical_account`, the walk along an alias map.
pub mod Walk
use inference_grid.Prelude.{
  ℕ, zero, suc, String, Bool, true, false, not, Option, none, some, List, [], ◌∷◌, length,
  if◌then◌else◌, any,
}
use inference_grid.Prelude.Text.{is_blank}
use inference_grid.Value.{Value, Dict, str, as_dict, get?, has_name}
use inference_grid.Result.{
  Result, ok, raised, value_error, out_of_fuel, ◌>>=◌, ◌>>◌, raise_if, or_raise,
}

-- `valid_id`: a text that is neither empty nor blank. The messages leave the `repr` out.
unfoldable pub valid_id : Value → Option String
unfolding is_blank
valid_id (str s) = if is_blank s then none else some s
valid_id _ = none

-- The aliases, once every key and value is an identifier.
unfoldable pub alias_map : Dict → Result (List (String × String))
unfolding valid_id
alias_map [] = ok []
alias_map ((k, v) ∷ d) = do
  key ← or_raise (valid_id (str k)) (value_error "invalid alias key")
  target ← or_raise (valid_id v) (value_error "invalid alias value")
  rest ← alias_map d
  ok ((key, target) ∷ rest)

-- The `while current in aliases` loop, with `seen`; `fuel` bounds its rounds.
unfoldable pub follow : ℕ → List (String × String) → List String → String → Result String
follow zero aliases seen current = raised out_of_fuel
follow (suc fuel) aliases seen current = elim (get? current aliases) [
  | none ↦ ok current
  | some next ↦ elim (has_name current seen) [
    | true ↦ raised (value_error "alias cycle detected")
    | false ↦ follow fuel aliases (current ∷ seen) next
  ]
]

-- A round adds a key of the map to `seen`, so there are at most as many as entries, and one more.
unfoldable pub canonical_account : Value → Value → Result String
unfolding valid_id alias_map follow
canonical_account name aliases = do
  given ← or_raise (as_dict aliases) (value_error "aliases must be a dict")
  pairs ← alias_map given
  start ← or_raise (valid_id name) (value_error "invalid name")
  follow (suc (suc (length pairs))) pairs [] start
