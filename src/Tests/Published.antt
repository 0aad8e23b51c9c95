-- ===== src/Tests/Published.antt =====
-- The theorem on `publish_observation`, at an account that is published for the first time.
use inference_grid.Prelude.{ℕ, String, ◌*◌, ◌-◌, ◌/◌, ◌≡◌, refl, Option, some, [], ◌∷◌}
use inference_grid.Prelude.Int.{ℤ, pos}
use inference_grid.Value.{
  Value, Number, int, null, str, num, float, finite, obj, arr, of_dict, of_items, one,
}
use inference_grid.Result.{Result, ok, raised}
use inference_grid.Ledger.State.{State}
use inference_grid.Ledger.Calls.{initial}
use inference_grid.Observation.{
  read_percent, parse_ts, read_window, read_windows, normalize_observation,
}
use inference_grid.Collector.{bounded_number}
use inference_grid.Collector.Publish.{
  Arithmetic, million, floor, left_of, Publication, unconvertible, published, check_allowance,
  check_allowances, convert_windows, remaining_units, convert_reading, publish_reading,
  publish_observation,
}
use inference_grid.Tests.Scenario.{program, at, env, whole}

-- The amount of a finite number, here not below 0.
count_of : Number → ℕ
unfolding one
count_of (int (pos n)) = n * one
count_of (float (finite (pos n))) = n
count_of n = 0

-- Arithmetic that does not round, of numbers that are not below 0.
exact : Arithmetic
unfolding count_of one
exact = record {
  minus = λ a b. ok (float (finite (pos (count_of a - count_of b))));
  times = λ a b. ok (float (finite (pos (count_of a * count_of b / one))));
  over = λ a b. ok (finite (pos (count_of a * one / count_of b)));
}

abbrev ten : String → Option (Option ℤ)
ten text = some (some (pos (10 * one)))

abbrev report : Value
report = obj (
    of_dict (
      ("provider", str "codex")
      ∷ ("observed_at", str "2026-01-01T00:00:10Z")
      ∷ (
        "windows",
        arr (
            of_items (
              obj (
                of_dict
                  (("id", str "weekly") ∷ ("used_percent", whole 30) ∷ ("resets_at", null) ∷ []))
              ∷ [])),
      )
      ∷ []))

abbrev plan : Value
plan = obj (
    of_dict (
      ("units", obj (of_dict (("weekly", whole 100) ∷ [])))
      ∷ ("models", arr (of_items (str "m" ∷ [])))
      ∷ []))

abbrev named_only : State
named_only = record initial { aliases = record { id = "team"; account = "acct" } ∷ [] }

abbrev publication : Result (Publication × State)
publication =
    publish_observation exact ten env (at 20) (at 20) "team" report plan (whole 900) (whole 1) []
      named_only

abbrev returned : Result (Publication × State) → Publication × State
returned (ok out) = out
returned (raised e) = (unconvertible, initial)

unfoldable publishing : Unit {0}
unfolding program read_percent parse_ts read_window read_windows normalize_observation
    bounded_number count_of exact million floor left_of check_allowance check_allowances
    convert_windows remaining_units convert_reading publish_reading publish_observation
publishing = tt

published_at_once :
    (returned publication).0
    ≡ published "acct" "2026-01-01T00:00:10Z"
        (("weekly", num (float (finite (pos (70 * one))))) ∷ [])
unfolding publishing
published_at_once = refl
