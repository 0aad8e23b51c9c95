-- ===== src/Tests/Streams.antt =====
-- The theorem on OpenCode's event streams, at a run that qualifies.
use inference_grid.Prelude.{ℕ, String, ◌≡◌, ◌≢◌, refl, none, some, List, [], ◌∷◌}
use inference_grid.Prelude.Text.{codes, lower, strip}
use inference_grid.Value.{Value, null, str, obj, of_dict}
use inference_grid.OpencodeOutcomes.{
  Receipt, native_complete, count_steps, texts_of, terminal_text, qualify, judge_terminals,
  classify_opencode,
}
use inference_grid.GoatOutcomes.{rows_of}
use inference_grid.OpencodeOutcomes.Qualification.{IsQualified, classify_opencode_iff}

abbrev lower_ascii : String → List ℕ
lower_ascii s = lower (codes s)

abbrev rows : List Value
rows =
    obj (of_dict (("type", str "step_start") ∷ []))
    ∷ obj (of_dict (("type", str "text") ∷ ("text", str " done ") ∷ []))
    ∷ obj (
        of_dict
          (("type", str "step_finish") ∷ ("reason", str "stop") ∷ ("modelID", str "GLM-5.3") ∷ []))
    ∷ []

abbrev earned : Receipt
earned = record {
  finish_reason = str "stop";
  actual_model = "GLM-5.3";
  text = codes "done";
  usage = null;
}

classify_opencode_iff_example :
    ((classify_opencode lower_ascii rows none "glm-5.3").receipt ≡ some earned
      → ((classify_opencode lower_ascii rows none "glm-5.3").outcome ≡ native_complete)
        × IsQualified lower_ascii rows none "glm-5.3" earned)
    × (IsQualified lower_ascii rows none "glm-5.3" earned
        → (classify_opencode lower_ascii rows none "glm-5.3").receipt ≡ some earned)
    × ((classify_opencode lower_ascii rows none "glm-5.3").outcome ≡ native_complete
        → (classify_opencode lower_ascii rows none "glm-5.3").receipt ≢ none)
classify_opencode_iff_example = classify_opencode_iff lower_ascii rows none "glm-5.3" earned

-- The receipt of that run.
receipt_of_rows : (classify_opencode lower_ascii rows none "glm-5.3").receipt ≡ some earned
unfolding classify_opencode count_steps rows_of judge_terminals qualify terminal_text texts_of strip
receipt_of_rows = refl
