-- ===== src/Tests/Cooldowns.antt =====
-- The theorem on a provider's 429, at an account whose collection is under way.
use inference_grid.Prelude.{ℕ, String, ◌+◌, ◌*◌, ◌≡◌, refl, Option, none, some, List, [], ◌∷◌}
use inference_grid.Prelude.Int.{ℤ}
use inference_grid.Prelude.Text.{strip}
use inference_grid.Value.{null, str, one}
use inference_grid.RetryAfter.{Floats, wait_of, round_up, deadline_of_wait, retry_deadline}
use inference_grid.Collector.{Grid, settle_collection}
use inference_grid.Collector.Response.{
  Response, CollectAnswer, replied, classify_quota_status, receipt_time, cool_down, handle_action,
  handle_reply, settle_handled, finish_collection,
}
use inference_grid.Tests.Scenario.{program, at, whole, configured}

abbrev exact : Floats
exact = record { add = λ a b. some (a + b); next_up = λ a. some (a + 1) }

abbrev no_date : List ℕ → Option ℤ
no_date text = none

abbrev no_time : String → Option (Option ℤ)
no_time text = none

-- "Retry-After: 90".
abbrev too_many : Response
too_many = record {
  status = whole 429;
  observation = null;
  retry_after = str " 90 ";
  received_at = null;
}

abbrev held_grid : Grid
held_grid = record {
  tables = configured;
  claims =
      record {
        account = "acct";
        token = some "t1";
        deadline = 2 * one + 30 * one;
        last_status = "collecting";
      }
      ∷ [];
}

abbrev answer : CollectAnswer × Grid
answer =
    finish_collection exact no_date no_time (at 3) "acct" "t1" (2 * one) (32 * one) (3 * one)
      (60 * one) (replied too_many) held_grid

cooled_for_ninety_seconds : answer.0.until ≡ some (93 * one)
unfolding program classify_quota_status finish_collection settle_handled handle_reply handle_action
    cool_down receipt_time retry_deadline wait_of round_up deadline_of_wait strip settle_collection
cooled_for_ninety_seconds = refl
