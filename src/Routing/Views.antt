-- ===== src/Routing/Views.antt =====
-- What src/inference_grid/lanes/select.py and route.py read of a lane and of a task.
use inference_grid.Prelude.{ℕ, String, Bool, Option, List, [], ◌∷◌, if◌then◌else◌}
use inference_grid.Prelude.Text.{text_leb}
use inference_grid.Value.{Value}

-- A lane view with its keys read: `categories` is the list, or empty for None; a tier that is no text
-- counts as absent; `closed` is `window_active is False`; a `context` of 0 is none.
pub record Lane : Type 0 where
  pub categories : List String
  pub explicit_only : Bool
  pub family : Value
  pub model : Value
  pub closed : Bool
  pub tier : Option String
  pub max_tokens : Value
  pub context : ℕ
  pub lane_meta : Value

-- A dictionary of lanes, in its order.
abbrev pub Lanes : Type 0
Lanes = List (String × Lane)

-- A task with its keys read; `require` is none where the key is falsy.
pub record RoutedTask : Type 0 where
  pub category : Value
  pub author_family : Value
  pub thinking_tokens : Value
  pub explicit : List String
  pub require : Option Value

-- `sorted` of lane ids.
unfoldable pub insert_id : String → List String → List String
insert_id x [] = x ∷ []
insert_id x (y ∷ ys) = let rest = insert_id x ys in if text_leb x y then x ∷ y ∷ ys else y ∷ rest

unfoldable pub sorted_ids : List String → List String
unfolding insert_id
sorted_ids [] = []
sorted_ids (x ∷ xs) = insert_id x (sorted_ids xs)

-- `[lid for lid in lanes if test]`.
abbrev pub lanes_where : (String → Lane → Bool) → Lanes → Lanes
lanes_where test [] = []
lanes_where test ((lid, lane) ∷ lanes) =
    let rest = lanes_where test lanes in if test lid lane then (lid, lane) ∷ rest else rest

-- `min(ids, key=...)`, by a strict order in which ids differ: the first one where no other is less.
unfoldable pub least : (String → String → Bool) → String → List String → String
least less best [] = best
least less best (x ∷ xs) = least less (if less x best then x else best) xs
