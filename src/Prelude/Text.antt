-- ===== src/Prelude/Text.antt =====
-- Python's `str` as a list of code points, where the code looks inside a text.
use Prim.Native.Char.{code}
use Prim.Native.Nat.{ℕ, ◌+◌}
use Prim.Native.String.{String, ◌++◌, compare, count}
use text.Mathlib.Text.{is_le}
use mathlib.Core.Bool.{Bool, true, false, ◌&&◌, ◌||◌}
use mathlib.Core.List.{List, [], ◌∷◌}
use inference_grid.Prelude.Tests.{leb, eqb, if◌then◌else◌}
use inference_grid.Prelude.Lists.{any, all}

abbrev pub codes : String → List ℕ
codes String.[] = []
codes (String.◌∷◌ c s) = code c ∷ codes s

-- `len(s)`: the number of code points.
abbrev pub text_length : String → ℕ
text_length s = count s

-- `bool(s)`.
abbrev pub is_text : String → Bool
is_text String.[] = false
is_text (String.◌∷◌ c s) = true

-- `s <= t`, by code points.
abbrev pub text_leb : String → String → Bool
text_leb s t = is_le (compare s t)

-- The code points for which `str.isspace` holds, which are those that `str.strip` removes.
abbrev pub is_space : ℕ → Bool
is_space c =
    (leb 9 c && leb c 13)
    || ((leb 28 c && leb c 32)
        || (eqb c 133
            || (eqb c 160
                || (eqb c 5760
                    || ((leb 8192 c && leb c 8202)
                        || (eqb c 8232
                            || (eqb c 8233 || (eqb c 8239 || (eqb c 8287 || eqb c 12288)))))))))

-- `not s.strip()`.
unfoldable pub is_blank : String → Bool
is_blank s = all is_space (codes s)

abbrev pub drop_spaces : List ℕ → List ℕ
drop_spaces [] = []
drop_spaces (c ∷ s) = let rest = drop_spaces s in if is_space c then rest else c ∷ s

abbrev pub drop_last_spaces : List ℕ → List ℕ
drop_last_spaces [] = []
drop_last_spaces (c ∷ s) = if is_space c && all is_space s then [] else c ∷ drop_last_spaces s

-- `s.strip()`.
unfoldable pub strip : List ℕ → List ℕ
strip s = drop_last_spaces (drop_spaces s)

abbrev pub lower_code : ℕ → ℕ
lower_code c = if leb b'A' c && leb c b'Z' then c + 32 else c

-- `s.lower()` of a text of ASCII letters.
abbrev pub lower : List ℕ → List ℕ
lower [] = []
lower (c ∷ s) = lower_code c ∷ lower s

abbrev pub codes_eq : List ℕ → List ℕ → Bool
codes_eq [] [] = true
codes_eq (c ∷ s) (d ∷ t) = eqb c d && codes_eq s t
codes_eq _ _ = false

abbrev pub has_code : ℕ → List ℕ → Bool
has_code c s = any (eqb c) s

-- `s.startswith(t)`.
abbrev pub has_prefix : List ℕ → List ℕ → Bool
has_prefix s [] = true
has_prefix [] (d ∷ t) = false
has_prefix (c ∷ s) (d ∷ t) = eqb c d && has_prefix s t

-- `s.split(sep)`: the part up to the first separator, and the parts behind it.
abbrev pub add_to_first : ℕ → List (List ℕ) → List (List ℕ)
add_to_first c [] = (c ∷ []) ∷ []
add_to_first c (part ∷ parts) = (c ∷ part) ∷ parts

abbrev pub split_on : ℕ → List ℕ → List (List ℕ)
split_on sep [] = [] ∷ []
split_on sep (c ∷ s) =
    let parts = split_on sep s in if eqb c sep then [] ∷ parts else add_to_first c parts

-- `sep.join(parts)`.
abbrev pub join : String → List String → String
join sep [] = ""
join sep (part ∷ []) = part
join sep (part ∷ rest) = part ++ (sep ++ join sep rest)
