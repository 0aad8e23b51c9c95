-- ===== src/Value/Equality.antt =====
-- Python's `==` on values: dictionaries compare without order, an int and a float by their amounts,
-- a bool as 0 or 1, and nan differs from itself.
use inference_grid.Prelude.{Bool, true, false, ◌&&◌, Option, none, some, ◌==◌, eqb, length}
use inference_grid.Prelude.Int.{pos, eqb_ℤ}
use inference_grid.Value.Access.{
  Float, finite, inf, neg_inf, Number, int, float, Value, null, bool, num, str, arr, obj, Items,
  no_items, item_first, Fields, no_fields, field_first, Dict, of_dict, get?, dict,
}
use inference_grid.Value.Numbers.{quanta_of_int}

float_eq : Float → Float → Bool
float_eq (finite x) (finite y) = eqb_ℤ x y
float_eq inf inf = true
float_eq neg_inf neg_inf = true
float_eq _ _ = false

float_of : Number → Float
float_of (int n) = finite (quanta_of_int n)
float_of (float x) = x

number_eq : Number → Number → Bool
unfolding float_eq float_of
number_eq (int a) (int b) = eqb_ℤ a b
number_eq a b = float_eq (float_of a) (float_of b)

bool_number : Bool → Number
bool_number true = int (pos 1)
bool_number false = int (pos 0)

-- The number that a value is, a bool among them.
numeric : Value → Option Number
unfolding bool_number
numeric (bool b) = some (bool_number b)
numeric (num n) = some n
numeric _ = none

scalar_eq : Option Number → Option Number → Bool
unfolding number_eq
scalar_eq (some a) (some b) = number_eq a b
scalar_eq _ _ = false

-- Of two dictionaries of one size, every entry of the first is in the second.
unfoldable mutual
  unfolding scalar_eq numeric

  pub value_eq : Value → Value → Bool
  value_eq null null = true
  value_eq (bool a) w = scalar_eq (numeric (bool a)) (numeric w)
  value_eq (num a) w = scalar_eq (numeric (num a)) (numeric w)
  value_eq (str s) (str t) = s == t
  value_eq (arr vs) (arr ws) = items_eq vs ws
  value_eq (obj fs) (obj gs) = eqb (length (dict fs)) (length (dict gs)) && fields_in fs (dict gs)
  value_eq _ _ = false

  items_eq : Items → Items → Bool
  items_eq no_items no_items = true
  items_eq (item_first v vs) (item_first w ws) = value_eq v w && items_eq vs ws
  items_eq _ _ = false

  fields_in : Fields → Dict → Bool
  fields_in no_fields gs = true
  fields_in (field_first k v fs) gs = elim (get? k gs) [
    | none ↦ false
    | some w ↦ value_eq v w && fields_in fs gs
  ]

unfoldable pub dict_eq : Dict → Dict → Bool
unfolding value_eq
dict_eq d e = value_eq (obj (of_dict d)) (obj (of_dict e))
