-- ===== src/Tests/Boards.antt =====
-- The theorems on board tasks and native outcomes, on examples.
use inference_grid.Prelude.{◌≡◌, refl, true, some, List, [], ◌∷◌}
use inference_grid.Value.{Value, Dict, null, str, obj, arr, of_dict, of_items, as_dict}
use inference_grid.Prelude.Text.{is_blank}
use inference_grid.Result.{ok, chain}
use inference_grid.BoardTask.{validate_task, read_fields, write_fields, has_exactly, task_keys}
use inference_grid.BoardTask.Validity.{IsTask, validate_task-IsTask, validate_task_stable}
use inference_grid.GoatOutcomes.{classify_goat}
use inference_grid.GoatOutcomes.Completion.{IsNativeComplete, classify_goat-IsNativeComplete}
use inference_grid.Tests.Scenario.{whole}

abbrev texts : List Value → Value
texts vs = arr (of_items vs)

abbrev task_fields : Dict
task_fields =
    ("id", str "t-1")
    ∷ ("category", str "canary")
    ∷ ("brief", str "brief.txt")
    ∷ ("inputs", texts (str "brief.txt" ∷ str "src/a.py" ∷ []))
    ∷ ("tests", texts [])
    ∷ ("artifacts", texts (str "out.py" ∷ []))
    ∷ ("lanes", texts (str "zai" ∷ []))
    ∷ ("author_family", null)
    ∷ (
      "budget",
      obj (
          of_dict (
            ("wall_seconds", whole 600)
            ∷ ("output_bytes", whole 1000)
            ∷ ("thinking_tokens", null)
            ∷ [])),
    )
    ∷ ("state", str "ready")
    ∷ ("blocked_reason", null)
    ∷ []

abbrev board_task : Value
board_task = obj (of_dict task_fields)

validate_task-IsTask_example :
    (given : Dict) × (as_dict board_task ≡ some given)
    × (has_exactly task_keys given ≡ true)
    × (task_fields ≡ write_fields (read_fields given))
    × IsTask (read_fields given)
unfolding validate_task chain
validate_task-IsTask_example = validate_task-IsTask board_task task_fields refl

validate_task_stable_example : validate_task board_task ≡ ok task_fields
unfolding validate_task chain
validate_task_stable_example = validate_task_stable board_task task_fields refl

abbrev request_row : Value
request_row = obj (
    of_dict (
      ("type", str "event")
      ∷ (
        "event",
        obj (
            of_dict (
              ("type", str "model_request_end")
              ∷ ("model", str "m")
              ∷ ("effort", str "high")
              ∷ [])),
      )
      ∷ []))

abbrev result_row : Value
result_row = obj (
    of_dict (
      ("type", str "result")
      ∷ ("subtype", str "success")
      ∷ ("stopReason", str "end_turn")
      ∷ ("finalText", str "done")
      ∷ []))

abbrev stream : Value
stream = arr (of_items (request_row ∷ result_row ∷ []))

abbrev exited : Value
exited = obj (of_dict (("reason", str "process_exited") ∷ ("returncode", whole 0) ∷ []))

classify_goat-IsNativeComplete_example :
    IsNativeComplete stream exited (str "m") (classify_goat stream exited (str "m"))
unfolding classify_goat chain is_blank
classify_goat-IsNativeComplete_example = classify_goat-IsNativeComplete stream exited (str "m") refl
