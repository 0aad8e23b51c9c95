-- ===== src/Tests/Readies.antt =====
-- The theorem on `readiness_view`, at a lane that is ready and one with no record.
use inference_grid.Prelude.{String, ◌*◌, refl, none, some, List, [], ◌∷◌}
use inference_grid.Value.{Value, str, one}
use inference_grid.LaneReadiness.{ready, stale, read_lane, number_amount, lane_readiness}
use inference_grid.Ledger.State.{State}
use inference_grid.Ledger.Lanes.{classifier_view}
use inference_grid.Routing.Views.{insert_id, sorted_ids}
use inference_grid.BoardReadiness.{
  LaneOffer, GradedRow, ViewEntry, classified, is_still_ahead, until_of, is_refused, is_canaried,
  is_full, bare_model, accepted_of, qualified_categories, view_state, entry_from, recorded_facts,
  view_entry, readiness_view,
}
use inference_grid.BoardReadiness.Selectable.{Views, readiness_view_iff}
use inference_grid.Tests.Scenario.{program, configured}
use inference_grid.Tests.Parts.{lane}

abbrev tables : State
tables = record configured { lanes = record { provider = "p"; facts = lane; updated = 0 } ∷ [] }

abbrev show_value : Value → String
show_value v = "?"

abbrev offer : LaneOffer
offer = record { model = "maker/m"; max_concurrency = none }

abbrev score : List GradedRow
score =
    record { scored_model = str "maker/m"; scored_category = str "canary"; accepted_count = 1 }
    ∷ record {
      scored_model = str "m";
      scored_category = str "independent_review";
      accepted_count = 3;
    }
    ∷ []

abbrev view : List (String × ViewEntry)
view =
    (
      "p",
      record {
        state = classified ready;
        qualified_for = some ("canary" ∷ "independent_review" ∷ []);
        reason = none;
      },
    )
    ∷ ("q", record { state = classified stale; qualified_for = none; reason = none })
    ∷ []

readiness_view_iff_example :
    Views show_value
      (30 * one)
      (("p", "team") ∷ [])
      (some score)
      tables
      (("p", offer) ∷ ("q", offer) ∷ [])
      view
unfolding program read_lane number_amount lane_readiness classifier_view insert_id sorted_ids
    is_still_ahead until_of is_refused is_canaried is_full bare_model accepted_of
    qualified_categories view_state entry_from recorded_facts view_entry readiness_view
readiness_view_iff_example =
    readiness_view_iff show_value (30 * one) (("p", "team") ∷ []) (some score) tables
      (("p", offer) ∷ ("q", offer) ∷ []) view refl
