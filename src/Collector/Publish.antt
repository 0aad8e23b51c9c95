-- ===== src/Collector/Publish.antt =====
-- src/inference_grid/collector.py and remaining_units.py: `publish_observation`, which brings a reading
-- into the ledger.
use inference_grid.Prelude.{
  ℕ, ◌*◌, ◌/◌, String, not, Option, none, some, List, [], ◌∷◌, ◌==◌, is_empty, where_rows,
  if◌then◌else◌,
}
use inference_grid.Prelude.Int.{ℤ, pos, negsuc, leb_ℤ, ◌+ℤ◌}
use inference_grid.Prelude.Text.{is_text}
use inference_grid.Value.{
  Value, Number, Float, int, float, finite, nan, one, num, Dict, as_dict, as_list, as_number,
  get_value, is_finite, amount,
}
use inference_grid.Result.{
  Result, ok, raised, refused, value_error, overflow_error, ◌>>=◌, ◌>>◌, raise_if, or_raise,
}
use inference_grid.Ledger.State.{State, Clock, Env, alias_row}
use inference_grid.Ledger.Configure.{Reading, configure_account}
use inference_grid.Observation.{Observed, WindowUse, normalize_observation}
use inference_grid.Collector.{bounded_number}

unfoldable pub check_allowance : Value → Result Number
unfolding is_finite amount
check_allowance v = do
  n ← or_raise (as_number v) (value_error "plan_units values must be int/float")
  usable ← or_raise (is_finite n) overflow_error
  q ←
      or_raise (if usable then amount n else none)
        (value_error "plan_units values must be finite and > 0")
  raise_if (leb_ℤ q (pos 0)) (value_error "plan_units values must be finite and > 0")
  ok n

unfoldable pub check_allowances : Dict → Result (List (String × Number))
unfolding check_allowance
check_allowances [] = ok []
check_allowances ((k, v) ∷ d) = do
  raise_if (not (is_text k)) (value_error "plan_units keys must be non-empty strings")
  n ← check_allowance v
  rest ← check_allowances d
  ok ((k, n) ∷ rest)

-- The one window of an id.
abbrev pub only_window : List WindowUse → Option WindowUse
only_window [] = none
only_window (w ∷ []) = some w
only_window (w ∷ x ∷ ws) = none

abbrev pub window_of_id : String → List WindowUse → Option WindowUse
window_of_id k ws = only_window (where_rows (λ (w : WindowUse). w.window_id == k) ws)

-- What `publish_observation` answers.
pub data Publication : Type 0 where
  unconvertible ledger_refused : Publication
  stale_since : String → Publication
  published : String → String → Dict → Publication

-- Python's arithmetic of two ints or floats, with its rounding; a raised error is its OverflowError.
pub record Arithmetic : Type 0 where
  pub minus : Number → Number → Result Number
  pub times : Number → Number → Result Number
  pub over : Number → Number → Result Float

abbrev pub hundred : Number
hundred = int (pos 100)

-- `1e6`.
unfoldable pub million : Number
unfolding one
million = float (finite (pos (1_000_000 * one)))

-- `math.floor`.
unfoldable pub floor : Number → Result ℤ
floor (int n) = ok n
floor (float (finite (pos n))) = ok (pos (n / one))
floor (float (finite (negsuc n))) = ok (negsuc (n / one))
floor (float nan) = raised (value_error "cannot convert float NaN to integer")
floor (float _) = raised overflow_error

module _ (floats : Arithmetic) where
  -- `float(math.floor(allowance * (100 - up) / 100 * 1e6) / 1e6)`.
  unfoldable pub left_of : Number → Number → Result Float
  unfolding floor million
  left_of allowance used = do
    unused ← floats.minus hundred used
    product ← floats.times allowance unused
    share ← floats.over product hundred
    scaled ← floats.times (float share) million
    whole ← floor scaled
    floats.over (int whole) million

  unfoldable pub convert_windows : List (String × Number) → List WindowUse → Result Dict
  unfolding left_of
  convert_windows [] ws = ok []
  convert_windows ((k, allowance) ∷ units) ws = do
    w ← or_raise (window_of_id k ws) (value_error "plan key must match exactly one window id")
    used ← or_raise w.used_percent (value_error "used_percent is unknown")
    q ← left_of allowance used
    rest ← convert_windows units ws
    ok ((k, num (float q)) ∷ rest)

  unfoldable pub remaining_units : Observed → Value → Result Dict
  unfolding check_allowances convert_windows
  remaining_units o units = do
    d ← or_raise (as_dict units) (value_error "plan_units must be a non-empty dict")
    raise_if (is_empty d) (value_error "plan_units must be a non-empty dict")
    allowances ← check_allowances d
    convert_windows allowances o.uses

module _ (floats : Arithmetic) (iso : String → Option (Option ℤ)) where
  -- The two steps in front of the ledger's.
  unfoldable pub convert_reading : Value → Value → ℕ → Result (Observed × Dict)
  unfolding normalize_observation remaining_units
  convert_reading observation units now = do
    o ← normalize_observation iso observation now
    windows ← remaining_units floats o units
    ok (o, windows)

abbrev pub fresh_until : Observed → ℕ → ℤ
fresh_until o freshness = o.observed_ts +ℤ pos freshness

abbrev pub reading_of : Value → List Value → ℕ → Observed → Dict → Reading
reading_of capacity models freshness o windows = record {
  capacity = capacity;
  windows = windows;
  expires = float (finite (fresh_until o freshness));
  models = models;
}

abbrev pub observed_value : Observed → Value
observed_value o = num (float (finite o.observed_ts))

abbrev pub answer_ledger :
    String → Observed → Dict → State → Result (Unit {0} × State) → Result (Publication × State)
answer_ledger account o windows s (ok (u, s')) = ok (published account o.observed_at windows, s')
answer_ledger account o windows s (raised (refused m)) = ok (ledger_refused, s)
answer_ledger account o windows s (raised e) = raised e

-- Behind the conversion; `now` is the second reading of the clock.
unfoldable pub publish_reading :
    Env
    → Clock
    → String
    → Value
    → List String
    → List Value
    → ℕ
    → ℕ
    → Observed
    → Dict
    → State
    → Result (Publication × State)
unfolding configure_account ◌+ℤ◌
publish_reading env clock alias capacity names models freshness now o windows s =
    if leb_ℤ (fresh_until o freshness) (pos now)
    then ok (stale_since o.observed_at, s)
    else (or_raise (alias_row alias s) (refused "unknown account") >>= λ binding.
        answer_ledger binding.account o windows s (
          configure_account env clock binding.account
            (reading_of capacity models freshness o windows) names (observed_value o) s))

module _ (floats : Arithmetic) (iso : String → Option (Option ℤ)) where
  abbrev pub answer_reading :
      (Observed × Dict → Result (Publication × State))
      → State
      → Result (Observed × Dict)
      → Result (Publication × State)
  answer_reading publish s (ok reading) = publish reading
  answer_reading publish s (raised (value_error m)) = ok (unconvertible, s)
  answer_reading publish s (raised (refused m)) = ok (unconvertible, s)
  answer_reading publish s (raised e) = raised e

  -- `times i` is the i-th reading of the clock by the call itself.
  unfoldable pub publish_observation :
      Env
      → Clock
      → Clock
      → String
      → Value
      → Value
      → Value
      → Value
      → List String
      → State
      → Result (Publication × State)
  unfolding bounded_number convert_reading publish_reading
  publish_observation env clock times alias observation plan_in freshness_in capacity names s = do
    freshness ← or_raise (bounded_number 86400 freshness_in) (refused "bounded freshness required")
    plan ← or_raise (as_dict plan_in) (refused "plan models required")
    models ← or_raise (as_list (get_value "models" plan)) (refused "plan models required")
    raise_if (is_empty models) (refused "plan models required")
    answer_reading
        (λ reading.
          publish_reading env clock alias capacity names models freshness (times.time 1) reading.0
            reading.1 s)
        s (convert_reading floats iso observation (get_value "units" plan) (times.time 0))
