-- ===== src/GoatOutcomes.antt =====
-- src/inference_grid/goat_outcomes.py: `classify_goat`, the outcome of a native event stream.
pub mod Completion
use inference_grid.Prelude.{
  ℕ, String, Bool, true, false, not, ◌||◌, ◌&&◌, ◌+◌, Option, none, some, List, [], ◌∷◌, ◌==◌, eqb,
  leb, if◌then◌else◌, any, all, where_rows, length, is_empty,
}
use inference_grid.Prelude.Int.{ℤ, pos}
use inference_grid.Prelude.Text.{is_text, is_blank}
use inference_grid.Value.{
  Value, null, str, num, int, obj, of_dict, Dict, as_dict, as_list, as_str, is_str, get_value,
  has_name,
}
use inference_grid.Result.{Result, ok, raised, refused, ◌>>=◌, ◌>>◌, raise_if, or_raise}

pub data GoatOutcome : Type 0 where
  unqualified interrupted native_complete : GoatOutcome

pub record GoatReceipt : Type 0 where
  pub actual_model : String
  pub text : String
  pub effort : Option String
  pub usage : Option Value

pub record GoatProgress : Type 0 where
  pub model_requests : ℕ
  pub output_tokens_reported : Option ℕ

pub record GoatResult : Type 0 where
  pub outcome : GoatOutcome
  pub reason : String
  pub receipt : Option GoatReceipt
  pub progress : GoatProgress

-- The rows, once all are objects.
unfoldable pub rows_of : List Value → Option (List Dict)
rows_of [] = some []
rows_of (v ∷ vs) = elim (as_dict v) [
  | none ↦ none
  | some d ↦ elim (rows_of vs) [ none ↦ none | some rest ↦ some (d ∷ rest) ]
]

-- The event of a row that ends a model request.
unfoldable pub request_end : Dict → Option Dict
request_end row =
    if not (is_str "event" (get_value "type" row))
    then none
    else elim (as_dict (get_value "event" row)) [
      | none ↦ none
      | some event ↦
          if is_str "model_request_end" (get_value "type" event) then some event else none
    ]

unfoldable pub request_ends : List Dict → List Dict
unfolding request_end
request_ends [] = []
request_ends (row ∷ rows) = elim (request_end row) [
  | none ↦ request_ends rows
  | some event ↦ event ∷ request_ends rows
]

-- An int that is not a bool and not negative.
abbrev pub as_count : Value → Option ℕ
as_count (num (int (pos n))) = some n
as_count _ = none

abbrev output_tokens : Dict → Option ℕ
output_tokens event = elim (as_dict (get_value "usage" event)) [
  | none ↦ none
  | some usage ↦ as_count (get_value "outputTokens" usage)
]

abbrev pub add_tokens : Option ℕ → Option ℕ → Option ℕ
add_tokens total none = total
add_tokens none (some n) = some n
add_tokens (some total) (some n) = some (total + n)

unfoldable pub tokens_reported : Option ℕ → List Dict → Option ℕ
tokens_reported total [] = total
tokens_reported total (event ∷ events) =
    tokens_reported (add_tokens total (output_tokens event)) events

unfoldable pub progress_of : List Dict → GoatProgress
unfolding tokens_reported
progress_of mres = record {
  model_requests = length mres;
  output_tokens_reported = tokens_reported none mres;
}

abbrev pub is_budget_reason : Value → Bool
is_budget_reason (str s) =
    has_name s
      ("wall_deadline" ∷ "visible_output_budget" ∷ "iteration_budget" ∷ "log_byte_budget" ∷ [])
is_budget_reason _ = false

abbrev text_of : Value → String
text_of (str s) = s
text_of _ = ""

abbrev pub is_zero : Value → Bool
is_zero (num (int (pos n))) = eqb n 0
is_zero _ = false

abbrev pub is_terminal : Dict → Bool
is_terminal row = is_str "result" (get_value "type" row)

-- The last row, where it is the terminal.
unfoldable pub last_terminal : List Dict → Option Dict
last_terminal [] = none
last_terminal (row ∷ []) = if is_terminal row then some row else none
last_terminal (row ∷ next ∷ rows) = last_terminal (next ∷ rows)

-- The efforts, each once.
unfoldable pub efforts_of : List Dict → List String
efforts_of [] = []
efforts_of (event ∷ events) =
    let rest = efforts_of events in
    elim (as_str (get_value "effort" event)) [
      | none ↦ rest
      | some s ↦ if has_name s rest then rest else s ∷ rest
    ]

abbrev pub only : List String → Option String
only (s ∷ []) = some s
only _ = none

abbrev is_count : Value → Bool
is_count (num (int (pos n))) = true
is_count _ = false

abbrev pub usage_of : Value → Option Value
usage_of (obj fs) = elim (as_dict (obj fs)) [
  | none ↦ none
  | some d ↦
      if is_count (get_value "inputTokens" d) && is_count (get_value "outputTokens" d)
      then some (obj fs)
      else none
]
usage_of _ = none

abbrev pub receipt_of : String → String → List Dict → Dict → GoatReceipt
receipt_of model text mres final = record {
  actual_model = model;
  text = text;
  effort = only (efforts_of mres);
  usage = usage_of (get_value "usage" final);
}

abbrev pub as_model : Value → Option String
as_model (str s) = if is_text s then some s else none
as_model _ = none

abbrev pub as_final_text : Value → Option String
as_final_text (str s) = if is_blank s then none else some s
as_final_text _ = none

-- The early returns behind the supervisor's budgets, as refusals with their reasons, and the receipt.
unfoldable pub judge : List Dict → List Dict → Dict → Value → Result GoatReceipt
unfolding last_terminal efforts_of
judge rows mres supervisor expected_model = do
  raise_if (not (is_str "process_exited" (get_value "reason" supervisor)))
      (refused "supervision_unqualified")
  raise_if (not (is_zero (get_value "returncode" supervisor))) (refused "process_failed")
  raise_if (not (eqb (length (where_rows is_terminal rows)) 1))
      (refused "missing_or_multiple_terminals")
  final ← or_raise (last_terminal rows) (refused "events_after_terminal")
  raise_if
      (not (is_str "success" (get_value "subtype" final))
        || not (is_str "end_turn" (get_value "stopReason" final)))
      (refused "native_not_completed")
  model ← or_raise (as_model expected_model) (refused "model_unqualified")
  raise_if (is_empty mres || any (λ event. not (is_str model (get_value "model" event))) mres)
      (refused "model_unqualified")
  text ← or_raise (as_final_text (get_value "finalText" final)) (refused "empty_terminal_text")
  ok (receipt_of model text mres final)

abbrev no_progress : GoatProgress
no_progress = record { model_requests = 0; output_tokens_reported = none }

abbrev pub without_receipt : GoatOutcome → String → GoatProgress → GoatResult
without_receipt outcome reason progress = record {
  outcome = outcome;
  reason = reason;
  receipt = none;
  progress = progress;
}

abbrev pub judged : GoatProgress → Result GoatReceipt → GoatResult
judged progress (ok receipt) = record {
  outcome = native_complete;
  reason = "verified_native_shape";
  receipt = some receipt;
  progress = progress;
}
judged progress (raised (refused reason)) = without_receipt unqualified reason progress
judged progress (raised _) = without_receipt unqualified "invalid_input" progress

unfoldable pub classify_rows : List Dict → Value → Value → GoatResult
unfolding request_ends progress_of judge
classify_rows rows supervisor expected_model =
    let mres = request_ends rows in
    elim (as_dict supervisor) [
      | none ↦ without_receipt unqualified "invalid_input" (progress_of mres)
      | some d ↦
          if is_budget_reason (get_value "reason" d)
          then without_receipt interrupted (text_of (get_value "reason" d)) (progress_of mres)
          else judged (progress_of mres) (judge rows mres d expected_model)
    ]

unfoldable pub classify_goat : Value → Value → Value → GoatResult
unfolding rows_of classify_rows
classify_goat events supervisor expected_model = elim (as_list events) [
  | none ↦ without_receipt unqualified "invalid_input" no_progress
  | some vs ↦ elim (rows_of vs) [
    | none ↦ without_receipt unqualified "invalid_input" no_progress
    | some rows ↦ classify_rows rows supervisor expected_model
  ]
]
