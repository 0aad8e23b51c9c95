-- ===== src/BoardReadiness.antt =====
-- src/inference_grid/board/runner.py: `readiness_view`, the lanes as a pass may select them, and the
-- reads beside it.
pub mod Selectable
use inference_grid.Prelude.{
  ℕ, zero, suc, ◌+◌, String, Bool, true, false, not, ◌||◌, ◌&&◌, Option, none, some, List, [], ◌∷◌,
  ◌==◌, ltb, leb, eqb, if◌then◌else◌, any, first, length, where_rows, is_empty, map,
}
use inference_grid.Prelude.Int.{pos, ltb_ℤ}
use Prim.Native.Char.{code}
use inference_grid.Value.{
  Value, Number, Float, int, float, finite, nan, inf, neg_inf, null, str, num, obj, Dict, as_dict,
  as_number, get?, get_value, is_str, truthy, value_eq, amount, is_null,
}
use inference_grid.Result.{Result, ok, raised, Error, value_error, refused, ◌>>=◌}
use inference_grid.LaneReadiness.{LaneState, Readiness, ready, stale, not_qualified, lane_readiness}
use inference_grid.Ledger.State.{State, LaneRow, alias_row, time_value}
use inference_grid.Ledger.Lanes.{classifier_view}
use inference_grid.Routing.Views.{sorted_ids}
use inference_grid.BoardRunner.{holds_slot}

-- A lane of the configuration, as far as the view reads it; `None` is 1 slot.
pub record LaneOffer : Type 0 where
  pub model : String
  pub max_concurrency : Option ℕ

-- A row of the scorecard, as far as the view reads it.
pub record GradedRow : Type 0 where
  pub scored_model : Value
  pub scored_category : Value
  pub accepted_count : ℕ

pub data ViewState : Type 0 where
  invalid busy : ViewState
  classified : LaneState → ViewState

pub record ViewEntry : Type 0 where
  pub state : ViewState
  -- None where the entry has no such key.
  pub qualified_for : Option (List String)
  pub reason : Option String

-- `until > now`.
unfoldable pub is_still_ahead : ℕ → Number → Bool
unfolding amount
is_still_ahead now (int i) = elim (amount (int i)) [ none ↦ false | some q ↦ ltb_ℤ (pos now) q ]
is_still_ahead now (float (finite q)) = ltb_ℤ (pos now) q
is_still_ahead now (float nan) = false
is_still_ahead now (float inf) = true
is_still_ahead now (float neg_inf) = false

-- The instant that is recorded for a model.
unfoldable pub until_of : String → Value → Value
until_of model facts = elim (as_dict facts) [
  | none ↦ null
  | some d ↦ elim (as_dict (get_value "unsupported_until" d)) [
    | none ↦ get_value "unsupported_until" d
    | some meta ↦ get_value model meta
  ]
]

-- Whether the lane's endpoint has refused the model, up to an instant to come.
unfoldable pub is_refused : ℕ → String → Value → Bool
unfolding is_still_ahead until_of
is_refused now model facts = elim (as_number (until_of model facts)) [
  | none ↦ false
  | some n ↦ is_still_ahead now n
]

abbrev pub has_slash : String → Bool
has_slash String.[] = false
has_slash (String.◌∷◌ c s) = eqb (code c) b'/' || has_slash s

-- `s.rsplit("/", 1)[-1]`.
abbrev pub after_slash : String → String
after_slash String.[] = String.[]
after_slash (String.◌∷◌ c s) =
    let rest = after_slash s in
    if has_slash s then rest else (if eqb (code c) b'/' then s else String.◌∷◌ c s)

-- The rows needed of each category.
abbrev pub category_qualification : List (String × ℕ)
category_qualification =
    ("independent_review", 3)
    ∷ ("pure_function", 2)
    ∷ ("tests_multi_file", 2)
    ∷ ("fixtures_multi_file", 2)
    ∷ ("canary", 1)
    ∷ []

-- `lane["model"] in canaried`, where a scorecard is given.
unfoldable pub is_canaried : String → Option (List GradedRow) → Bool
unfolding value_eq
is_canaried model none = true
is_canaried model (some rows) =
    any
      (λ (r : GradedRow).
        value_eq r.scored_model (str model)
        && (is_str "canary" r.scored_category && leb 1 r.accepted_count))
      rows

abbrev pub slots_of : LaneOffer → ℕ
slots_of lane = elim (lane.max_concurrency) [ none ↦ 1 | some n ↦ n ]

-- Whether the lane's account has no slot left; `accounts` are the aliases by lane.
unfoldable pub is_full : List (String × String) → String → LaneOffer → State → Bool
is_full accounts lid lane s = elim (get? lid accounts) [
  | none ↦ false
  | some alias ↦ elim (alias_row alias s) [
    | none ↦ false
    | some row ↦ leb (slots_of lane) (length (where_rows (holds_slot row.account) s.attempts))
  ]
]

abbrev pub is_ready_state : ViewState → Bool
is_ready_state (classified ready) = true
is_ready_state _ = false

abbrev pub is_unqualified_state : ViewState → Bool
is_unqualified_state (classified not_qualified) = true
is_unqualified_state _ = false

-- `if state == "ready" and test: state = other`.
abbrev pub demote : Bool → ViewState → ViewState → ViewState
demote test other state = if is_ready_state state && test then other else state

-- The record of a lane; a record that is None is none.
unfoldable pub recorded_facts : State → String → Option Value
recorded_facts s lid = elim (first (λ (l : LaneRow). l.provider == lid) s.lanes) [
  | none ↦ none
  | some l ↦ elim (is_null l.facts) [ true ↦ none | false ↦ some l.facts ]
]

-- `show` is `str` of a value that is no text.
module _ (show : Value → String) where
  unfoldable pub bare_model : Value → Value
  bare_model (str s) = str (after_slash s)
  bare_model v = if truthy v then str (after_slash (show v)) else v

  -- `accepted_by_model.get((bare_model(model), category), 0)`.
  unfoldable pub accepted_of : Value → String → List GradedRow → ℕ
  unfolding bare_model value_eq
  accepted_of model category [] = 0
  accepted_of model category (r ∷ rows) =
      let rest = accepted_of model category rows in
      if value_eq (bare_model r.scored_model) (bare_model model)
        && is_str category r.scored_category
      then r.accepted_count + rest
      else rest

  abbrev pub has_enough : Value → List GradedRow → String × ℕ → Bool
  has_enough model rows (category, needed) = leb needed (accepted_of model category rows)

  unfoldable pub qualified_categories : Value → Option (List GradedRow) → List String
  unfolding accepted_of sorted_ids
  qualified_categories model none = []
  qualified_categories model (some rows) =
      sorted_ids
        (map (λ (e : String × ℕ). e.0) (where_rows (has_enough model rows) category_qualification))

  module _ (now : ℕ) (accounts : List (String × String)) (scorecard : Option (List GradedRow))
      (s : State) where
    unfoldable pub view_state : String → LaneOffer → Value → LaneState → ViewState
    unfolding is_refused is_canaried is_full
    view_state lid lane facts state =
        let known =
          demote (is_refused now lane.model facts) (classified not_qualified) (classified state) in
        let earned =
          demote (not (is_canaried lane.model scorecard)) (classified not_qualified) known in
        demote (is_full accounts lid lane s) busy earned

    unfoldable pub entry_from : String → LaneOffer → Value → Result Readiness → Result ViewEntry
    unfolding view_state qualified_categories
    entry_from lid lane facts (ok r) =
        let state = view_state lid lane facts r.state in
        ok (record {
          state = state;
          qualified_for = some (qualified_categories (str lane.model) scorecard);
          reason =
              if is_unqualified_state state && is_refused now lane.model facts
              then some "model_refused_recently"
              else none;
        })
    entry_from lid lane facts (raised (value_error m)) =
        ok (record { state = invalid; qualified_for = none; reason = none })
    entry_from lid lane facts (raised (refused m)) =
        ok (record { state = invalid; qualified_for = none; reason = none })
    entry_from lid lane facts (raised e) = raised e

    unfoldable pub view_entry : String → LaneOffer → Result ViewEntry
    unfolding entry_from recorded_facts classifier_view lane_readiness
    view_entry lid lane = elim (recorded_facts s lid) [
      | none ↦ ok (record { state = classified stale; qualified_for = none; reason = none })
      | some facts ↦
          entry_from lid lane facts (lane_readiness (classifier_view facts) (time_value now))
    ]

    unfoldable pub readiness_view : List (String × LaneOffer) → Result (List (String × ViewEntry))
    unfolding view_entry
    readiness_view [] = ok []
    readiness_view ((lid, lane) ∷ lanes) = do
      entry ← view_entry lid lane
      rest ← readiness_view lanes
      ok ((lid, entry) ∷ rest)
