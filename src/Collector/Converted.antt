-- ===== src/Collector/Converted.antt =====
-- What `remaining_units` (src/inference_grid/remaining_units.py) makes of a plan and a reading.
use native.Mathlib.Nat.{div-mul-le_self, lt-div-mul-add}
use inference_grid.Prelude.{
  ℕ, String, ◌+◌, ◌*◌, ◌/◌, ◌≤◌, ◌<◌, ◌≡◌, refl, some, List, [], ◌∷◌, arith,
}
use inference_grid.Prelude.Int.{ℤ, pos, negsuc}
use inference_grid.Value.{
  Value, Number, Float, int, float, finite, num, Dict, as_dict, as_number, one,
}
use inference_grid.Result.{
  Result, ok, raised, Ensures, Ensures-map, Ensures-ok, gives, raises, then_bind, then_read,
  then_unless,
}
use inference_grid.Observation.{Observed, WindowUse}
use inference_grid.Collector.Publish.{
  Arithmetic, million, floor, left_of, check_allowance, check_allowances, window_of_id,
  convert_windows, remaining_units,
}

-- The integer at or next below a number, which counts of 2 ^ -1074 hold.
pub data IsFloor : Number → ℤ → Type 0 where
  whole : (n : ℤ) → IsFloor (int n) n
  above_zero :
      (n m : ℕ) → m * one ≤ n → n < m * one + one → IsFloor (float (finite (pos n))) (pos m)
  below_zero :
      (n m : ℕ) → m * one ≤ n → n < m * one + one → IsFloor (float (finite (negsuc n))) (negsuc m)

some_quanta : 0 < one
unfolding one
some_quanta = omega arith

floor-IsFloor : (n : Number) → Ensures (IsFloor n) (floor n)
unfolding floor
floor-IsFloor (int n) = gives (whole n)
floor-IsFloor (float (finite (pos n))) =
    gives (above_zero n (n / one) (div-mul-le_self n one) (lt-div-mul-add some_quanta))
floor-IsFloor (float (finite (negsuc n))) =
    gives (below_zero n (n / one) (div-mul-le_self n one) (lt-div-mul-add some_quanta))
floor-IsFloor (float _) = raises

last_step {ℓ κ} :
    {A : Type ℓ} {P : A → Type κ} (m : Result A) → ((a : A) → m ≡ ok a → P a) → Ensures P m
last_step (ok a) h = gives (h a refl)
last_step (raised e) h = raises

module _ (floats : Arithmetic) where
  -- What an allowance leaves behind a used percentage: the share that is not used, rounded down to
  -- millionths.
  pub record IsLeft (allowance used : Number) (out : Float) : Type 0 where
    pub unused : Number
    pub product : Number
    pub share : Float
    pub scaled : Number
    pub millionths : ℤ
    pub unused_of : floats.minus (int (pos 100)) used ≡ ok unused
    pub product_of : floats.times allowance unused ≡ ok product
    pub share_of : floats.over product (int (pos 100)) ≡ ok share
    pub scaled_of : floats.times (float share) million ≡ ok scaled
    pub floor_of : IsFloor scaled millionths
    pub out_of : floats.over (int millionths) million ≡ ok out

  left_of-IsLeft :
      (allowance used : Number) (out : Float)
      → left_of floats allowance used ≡ ok out
      → IsLeft allowance used out
  unfolding left_of
  left_of-IsLeft allowance used out e =
      Ensures-ok {P = IsLeft allowance used}
        (then_bind _ λ unused unused_of. then_bind _ λ product product_of.
          then_bind _ λ share share_of. then_bind _ λ scaled scaled_of.
            then_bind _ λ millionths floor_of.
              last_step (floats.over (int millionths) million) λ q out_of. record {
                unused = unused;
                product = product;
                share = share;
                scaled = scaled;
                millionths = millionths;
                unused_of = unused_of;
                product_of = product_of;
                share_of = share_of;
                scaled_of = scaled_of;
                floor_of = Ensures-ok (floor-IsFloor scaled) floor_of;
                out_of = out_of;
              })
        e

  -- The windows that a plan's units become: each unit has exactly one window of its name in the
  -- reading, of known use, and becomes what it leaves there.
  pub data AreConverted (ws : List WindowUse) : Dict → Dict → Type 0 where
    no_units : AreConverted ws [] []
    one_unit :
        {k : String} {v : Value} {units windows : Dict} {allowance used : Number} {w : WindowUse}
        {out : Float}
        → as_number v ≡ some allowance
        → window_of_id k ws ≡ some w
        → w.used_percent ≡ some used
        → IsLeft allowance used out
        → AreConverted ws units windows
        → AreConverted ws ((k, v) ∷ units) ((k, num (float out)) ∷ windows)

-- The allowances that were read of a plan's units.
data AreAllowances : Dict → List (String × Number) → Type 0 where
  no_allowances : AreAllowances [] []
  one_allowance :
      {k : String} {v : Value} {d : Dict} {n : Number} {rest : List (String × Number)}
      → as_number v ≡ some n
      → AreAllowances d rest
      → AreAllowances ((k, v) ∷ d) ((k, n) ∷ rest)

record IsAllowance (v : Value) (n : Number) : Type 0 where
  number : as_number v ≡ some n

check_allowance-IsAllowance : (v : Value) → Ensures (IsAllowance v) (check_allowance v)
unfolding check_allowance
check_allowance-IsAllowance v = then_read _ _ λ n number.
    then_read _ _ λ usable e.
      then_read _ _ λ q e'. then_unless _ _ λ positive. gives (record { number = number })

check_allowances-AreAllowances : (d : Dict) → Ensures (AreAllowances d) (check_allowances d)
unfolding check_allowances
check_allowances-AreAllowances [] = gives no_allowances
check_allowances-AreAllowances ((k, v) ∷ d) = then_unless _ _ λ named. then_bind _ λ n allowed.
    then_bind _ λ rest others. gives (
      one_allowance (Ensures-ok (check_allowance-IsAllowance v) allowed).number
        (Ensures-ok (check_allowances-AreAllowances d) others))

module _ (floats : Arithmetic) (ws : List WindowUse) where
  convert_windows-AreConverted :
      (d : Dict) (units : List (String × Number))
      → AreAllowances d units
      → Ensures (AreConverted floats ws d) (convert_windows floats units ws)
  unfolding convert_windows
  convert_windows-AreConverted d units no_allowances = gives no_units
  convert_windows-AreConverted d units (one_allowance {k} {v} {d = d'} {n} {rest} number all) =
      then_read _ _ λ w window. then_read _ _ λ used used_of. then_bind _ λ q left.
        then_bind _ λ windows others. gives (
          one_unit number window used_of (left_of-IsLeft floats n used q left)
            (Ensures-ok (convert_windows-AreConverted d' rest all) others))

-- The units that `remaining_units` read, and the windows it made of them.
pub record IsRemaining (floats : Arithmetic) (o : Observed) (units : Value) (windows : Dict)
    : Type 0 where
  pub given : Dict
  pub object : as_dict units ≡ some given
  pub converted : AreConverted floats o.uses given windows

pub remaining_units-IsRemaining :
    (floats : Arithmetic) (o : Observed) (units : Value)
    → Ensures (IsRemaining floats o units) (remaining_units floats o units)
unfolding remaining_units
remaining_units-IsRemaining floats o units = then_read _ _ λ d object. then_unless _ _ λ some_unit.
    then_bind _ λ allowances allowed.
      Ensures-map (λ windows c. record { given = d; object = object; converted = c })
        (convert_windows-AreConverted floats o.uses d allowances
          (Ensures-ok (check_allowances-AreAllowances d) allowed))
