-- ===== src/Value/Access.antt =====
-- The values and the reads of dictionaries: `d.get(k)`, `k in d`, `d[k] = v`, truth and type tests.
use inference_grid.Prelude.{
  String, Bool, true, false, Option, none, some, List, [], ◌∷◌, ◌==◌, if◌then◌else◌, any, eqb,
}
use inference_grid.Prelude.Int.{ℤ, pos, negsuc, eqb_ℤ}
use inference_grid.Prelude.Text.{is_text}

pub data Float : Type 0 where
  finite : ℤ → Float
  nan inf neg_inf : Float

pub data Number : Type 0 where
  int : ℤ → Number
  float : Float → Number

mutual
  pub data Value : Type 0 where
    null : Value
    bool : Bool → Value
    num : Number → Value
    str : String → Value
    arr : Items → Value
    obj : Fields → Value

  pub data Fields : Type 0 where
    no_fields : Fields
    field_first : String → Value → Fields → Fields

  pub data Items : Type 0 where
    no_items : Items
    item_first : Value → Items → Items

-- A dictionary in insertion order.
abbrev pub Dict : Type 0
Dict = List (String × Value)

abbrev pub items : Items → List Value
items no_items = []
items (item_first v vs) = v ∷ items vs

abbrev pub of_items : List Value → Items
of_items [] = no_items
of_items (v ∷ vs) = item_first v (of_items vs)

abbrev pub dict : Fields → Dict
dict no_fields = []
dict (field_first k v fs) = (k, v) ∷ dict fs

abbrev pub of_dict : Dict → Fields
of_dict [] = no_fields
of_dict ((k, v) ∷ d) = field_first k v (of_dict d)

-- `d.get(k)`, for dictionaries of any values.
abbrev pub get? {ℓ} : {V : Type ℓ} → String → List (String × V) → Option V
get? k [] = none
get? k ((j, v) ∷ d) = let rest = get? k d in if j == k then some v else rest

abbrev pub or_else {ℓ} : {V : Type ℓ} → Option V → V → V
or_else none d = d
or_else (some v) _ = v

-- `d.get(k)`, where absent reads as None.
abbrev pub get_value : String → Dict → Value
get_value k d = or_else (get? k d) null

abbrev pub has_key {ℓ} : {V : Type ℓ} → String → List (String × V) → Bool
has_key k [] = false
has_key k ((j, v) ∷ d) = let rest = has_key k d in if j == k then true else rest

-- `d[k] = v`: in place where the key is there, else at the end.
abbrev pub set_key {ℓ} : {V : Type ℓ} → String → V → List (String × V) → List (String × V)
set_key k v [] = (k, v) ∷ []
set_key k v ((j, w) ∷ d) = let rest = set_key k v d in if j == k then (j, v) ∷ d else (j, w) ∷ rest

-- `s in names`.
abbrev pub has_name : String → List String → Bool
has_name s names = any (λ t. t == s) names

abbrev pub keys {ℓ} : {V : Type ℓ} → List (String × V) → List String
keys [] = []
keys ((k, v) ∷ d) = k ∷ keys d

-- `bool(v)`.
abbrev pub truthy : Value → Bool
truthy null = false
truthy (bool b) = b
truthy (num (int (pos n))) = if eqb n 0 then false else true
truthy (num (int (negsuc n))) = true
truthy (num (float (finite x))) = if eqb_ℤ x (pos 0) then false else true
truthy (num (float nan)) = true
truthy (num (float inf)) = true
truthy (num (float neg_inf)) = true
truthy (str s) = is_text s
truthy (arr no_items) = false
truthy (arr (item_first _ _)) = true
truthy (obj no_fields) = false
truthy (obj (field_first _ _ _)) = true

-- `v is True`.
abbrev pub is_true : Value → Bool
is_true (bool b) = b
is_true _ = false

-- The payloads behind `isinstance` and `type(v) is` tests.
abbrev pub as_str : Value → Option String
as_str (str s) = some s
as_str _ = none

abbrev pub as_dict : Value → Option Dict
as_dict (obj fs) = some (dict fs)
as_dict _ = none

abbrev pub as_list : Value → Option (List Value)
as_list (arr vs) = some (items vs)
as_list _ = none

-- `type(v) is int`: a bool is not one.
abbrev pub as_int : Value → Option ℤ
as_int (num (int n)) = some n
as_int _ = none

-- `type(v) in (int, float)`.
abbrev pub as_number : Value → Option Number
as_number (num n) = some n
as_number _ = none

-- The value is this text.
abbrev pub is_str : String → Value → Bool
is_str s (str t) = t == s
is_str s _ = false

-- `v is None`, and `isinstance(v, dict)`.
abbrev pub is_null : Value → Bool
is_null null = true
is_null _ = false

abbrev pub is_object : Value → Bool
is_object (obj fs) = true
is_object _ = false

abbrev pub is_neg_inf : Number → Bool
is_neg_inf (float neg_inf) = true
is_neg_inf _ = false
