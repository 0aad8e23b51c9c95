-- ===== src/Tests/Routes.antt =====
-- The theorem on routing, at three lanes.
use inference_grid.Prelude.{ℕ, String, false, refl, none, some, [], ◌∷◌}
use inference_grid.Prelude.Int.{ℤ, pos}
use inference_grid.Value.{Dict, null, str}
use inference_grid.Result.{chain}
use inference_grid.Routing.Views.{Lane, Lanes, RoutedTask, insert_id, sorted_ids, least}
use inference_grid.Routing.Select.{Readinesses, stats, is_better, choose, select_lane}
use inference_grid.Routing.Route.{
  Answer, tier_mismatch, Quotas, wanted_tier, has_part, window_of, model_context, max_tokens_cap,
  default_lanes, offered, policy_drops, budget_drops, tier_drops, tier_kept, insert_row,
  rows_with_caps, pick, route_allowed, route,
}
use inference_grid.Routing.Route.Winners.{IsRouted, route-IsRouted}

abbrev lane : String → String → Lane
lane family tier = record {
  categories = "independent_review" ∷ [];
  explicit_only = false;
  family = str family;
  model = str "m";
  closed = false;
  tier = some tier;
  max_tokens = null;
  context = 0;
  lane_meta = null;
}

abbrev lanes : Lanes
lanes =
    ("a", lane "author" "review")
    ∷ ("b", lane "other" "review")
    ∷ ("c", lane "third" "review")
    ∷ ("d", lane "other" "build")
    ∷ []

abbrev ready : Dict
ready = ("state", str "ready") ∷ []

abbrev readiness : Readinesses
readiness = ("a", ready) ∷ ("b", ready) ∷ ("c", ready) ∷ ("d", ready) ∷ []

abbrev quotas : Quotas
quotas = ("a", pos 9) ∷ ("b", pos 2) ∷ ("c", pos 5) ∷ ("d", pos 8) ∷ []

abbrev review : RoutedTask
review = record {
  category = str "independent_review";
  author_family = str "author";
  thinking_tokens = null;
  explicit = [];
  require = none;
}

-- Any function will do for the quotient: no scorecard is read.
abbrev quotient : ℕ → ℕ → ℤ
quotient a b = pos a

unfoldable routing : Unit {0}
unfolding chain insert_id sorted_ids least stats is_better choose select_lane wanted_tier has_part
    window_of model_context max_tokens_cap default_lanes offered policy_drops budget_drops
    tier_drops tier_kept insert_row rows_with_caps pick route_allowed route
routing = tt

abbrev answer : Answer
answer = record {
  lane = some "c";
  score = some (pos 5);
  reason = "selected";
  candidates = ("a", 16000) ∷ ("b", 16000) ∷ ("c", 16000) ∷ [];
  dropped = record { lane = "d"; reason = tier_mismatch "build" "review" } ∷ [];
  tier = "review";
}

route-IsRouted_example : IsRouted review lanes readiness 400 quotas "c"
unfolding routing
route-IsRouted_example =
    route-IsRouted quotient review lanes readiness 400 quotas answer "c" refl refl
