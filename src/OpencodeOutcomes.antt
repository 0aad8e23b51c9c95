-- ===== src/OpencodeOutcomes.antt =====
-- src/inference_grid/opencode_outcomes.py: `classify_opencode`, the outcome of an event stream.
pub mod Qualification
use inference_grid.Prelude.{
  ℕ, suc, String, Bool, true, false, not, Option, none, some, List, [], ◌∷◌, ltb, eqb,
  if◌then◌else◌, where_rows, length, is_empty,
}
use inference_grid.Prelude.Text.{codes, codes_eq, strip, join}
use inference_grid.Value.{Value, Dict, as_dict, as_str, is_str, get_value}
use inference_grid.GoatOutcomes.{rows_of}

pub data Outcome : Type 0 where
  interrupted malformed_stream missing_or_multiple_terminals model_unqualified empty_terminal_text
        native_complete :
      Outcome

pub record Progress : Type 0 where
  pub events : ℕ
  pub steps : ℕ

-- The text as code points.
pub record Receipt : Type 0 where
  pub finish_reason : Value
  pub actual_model : String
  pub text : List ℕ
  pub usage : Value

pub record Classified : Type 0 where
  pub outcome : Outcome
  pub reason : String
  pub progress : Progress
  pub receipt : Option Receipt

abbrev pub max_events : ℕ
max_events = 10000

abbrev pub is_step_finish : Dict → Bool
is_step_finish row = is_str "step_finish" (get_value "type" row)

-- The steps that the loop has counted when it stops, at the end or at a row that is no object.
unfoldable pub count_steps : ℕ → List Value → ℕ
count_steps n [] = n
count_steps n (v ∷ vs) = elim (as_dict v) [
  | none ↦ n
  | some row ↦ count_steps (if is_str "step_start" (get_value "type" row) then suc n else n) vs
]

-- The texts of the text events.
unfoldable pub texts_of : List Dict → List String
texts_of [] = []
texts_of (row ∷ rows) =
    let rest = texts_of rows in
    if is_str "text" (get_value "type" row)
    then elim (as_str (get_value "text" row)) [ none ↦ rest | some s ↦ s ∷ rest ]
    else rest

-- `" ".join(...).strip()`.
unfoldable pub terminal_text : List Dict → List ℕ
unfolding texts_of strip
terminal_text rows = strip (codes (join " " (texts_of rows)))

abbrev pub failed : Outcome → String → Progress → Classified
failed outcome reason progress = record {
  outcome = outcome;
  reason = reason;
  progress = progress;
  receipt = none;
}

abbrev pub is_wall_deadline : Option Dict → Bool
is_wall_deadline none = false
is_wall_deadline (some supervisor) = is_str "wall_deadline" (get_value "reason" supervisor)

-- `lower` is `str.lower`, as code points.
module _ (lower : String → List ℕ) where
  -- `isinstance(echoed, str) and echoed.lower() == model.lower()`: the model that was named.
  abbrev pub echoed_model : String → Value → Option String
  echoed_model model v = elim (as_str v) [
    | none ↦ none
    | some echoed ↦ if codes_eq (lower echoed) (lower model) then some echoed else none
  ]

  -- From the one terminal event.
  unfoldable pub qualify : String → List Dict → Progress → Dict → Classified
  unfolding terminal_text
  qualify model rows progress terminal = elim (echoed_model model (get_value "modelID" terminal)) [
    | none ↦ failed model_unqualified "terminal event names model" progress
    | some echoed ↦
        if is_empty (terminal_text rows)
        then failed empty_terminal_text "no assistant text part in the stream" progress
        else record {
          outcome = native_complete;
          reason = "one terminal step_finish naming the model";
          progress = progress;
          receipt = some (record {
            finish_reason = get_value "reason" terminal;
            actual_model = echoed;
            text = terminal_text rows;
            usage = get_value "tokens" terminal;
          });
        }
  ]

  -- The terminal events, of which there is to be one.
  unfoldable pub judge_terminals : String → List Dict → Progress → List Dict → Classified
  unfolding qualify
  judge_terminals model rows progress (terminal ∷ []) = qualify model rows progress terminal
  judge_terminals model rows progress _ =
      failed missing_or_multiple_terminals "step_finish events" progress

  unfoldable pub classify_opencode : List Value → Option Dict → String → Classified
  unfolding count_steps rows_of judge_terminals
  classify_opencode rows supervisor model =
      let unread : Progress = record { events = length rows; steps = 0 } in
      let progress : Progress = record { events = length rows; steps = count_steps 0 rows } in
      if is_wall_deadline supervisor
      then failed interrupted "wall_deadline" unread
      else if ltb max_events (length rows)
      then failed malformed_stream "event stream exceeds the event bound" unread
      else elim (rows_of rows) [
        | none ↦ failed malformed_stream "a native line is not a JSON object" progress
        | some dicts ↦ judge_terminals model dicts progress (where_rows is_step_finish dicts)
      ]
