-- ===== src/Routing/Select.antt =====
-- src/inference_grid/lanes/select.py: `select_lane`.
use inference_grid.Prelude.{
  ℕ, String, Bool, true, false, not, ◌||◌, ◌&&◌, ◌+◌, Option, none, some, List, [], ◌∷◌, ltb, eqb,
  if◌then◌else◌, all, is_empty,
}
use inference_grid.Prelude.Int.{ℤ, ltb_ℤ, eqb_ℤ}
use inference_grid.Prelude.Text.{text_leb, is_text}
use inference_grid.Value.{
  Value, str, Dict, get?, get_value, or_else, has_key, has_name, keys, value_eq, is_str,
}
use inference_grid.Result.{Result, ok, value_error, ◌>>=◌, ◌>>◌, raise_if, or_raise}
use inference_grid.Routing.Views.{Lane, Lanes, lanes_where, sorted_ids, least}

-- A row of the scorecard.
pub record ScoreRow : Type 0 where
  pub family : Value
  pub model : Value
  pub category : Value
  pub attempts : ℕ
  pub accepted : ℕ

-- `quotient a b` is the float a / b.
pub record Choice : Type 0 where
  pub lane : Option String
  pub score : Option ℤ
  pub reason : String
  pub candidates : List String

abbrev pub Readinesses : Type 0
Readinesses = List (String × Dict)

abbrev pub is_ready : Readinesses → String → Lane → Bool
is_ready readiness lid lane = is_str "ready" (get_value "state" (or_else (get? lid readiness) []))

abbrev pub has_category : String → String → Lane → Bool
has_category cat lid lane = has_name cat lane.categories

-- `not (isinstance(author, str) and family == author)`.
abbrev pub is_independent : Value → String → Lane → Bool
is_independent (str s) lid lane = not (is_str s lane.family)
is_independent _ lid lane = true

abbrev pub is_open : String → Lane → Bool
is_open lid lane = not lane.closed

abbrev pub lane_ids : Lanes → List String
lane_ids lanes = keys lanes

-- The attempts and acceptances of a lane in a category.
unfoldable pub stats : String → List ScoreRow → Lane → ℕ × ℕ
unfolding value_eq
stats cat [] lane = (0, 0)
stats cat (row ∷ rows) lane =
    let rest = stats cat rows lane in
    if value_eq row.family lane.family && (value_eq row.model lane.model && is_str cat row.category)
    then (row.attempts, row.accepted)
    else rest

abbrev no_lane : Lane
no_lane = record {
  categories = [];
  explicit_only = false;
  family = Value.null;
  model = Value.null;
  closed = false;
  tier = none;
  max_tokens = Value.null;
  context = 0;
  lane_meta = Value.null;
}

-- Where no lane is left: the first of the filters that emptied the set.
abbrev pub refusal_reason : Lanes → Lanes → Lanes → String
refusal_reason ready cat_match fam_ok =
    if is_empty ready
    then "no_ready_lane"
    else if is_empty cat_match
    then "no_lane_for_category"
    else if is_empty fam_ok
    then "no_independent_family"
    else "window_closed"

abbrev pub as_category : Value → Option String
as_category (str s) = if is_text s then some s else none
as_category _ = none

module _ (quotient : ℕ → ℕ → ℤ) where
  abbrev pub score_of : ℕ × ℕ → ℤ
  score_of (attempts, accepted) = quotient (accepted + 1) (attempts + 2)

  -- `key(a) < key(b)`: the higher score, then fewer attempts, then the lesser id.
  unfoldable pub is_better : String → List ScoreRow → Lanes → String → String → Bool
  unfolding stats
  is_better cat scorecard lanes a b =
      let (n, m) = stats cat scorecard (or_else (get? a lanes) no_lane) in
      let (n', m') = stats cat scorecard (or_else (get? b lanes) no_lane) in
      let x = score_of (n, m) in
      let y = score_of (n', m') in
      ltb_ℤ y x || (eqb_ℤ x y && (ltb n n' || (eqb n n' && not (text_leb b a))))

  -- The lanes that pass every filter, and the best of them.
  unfoldable pub choose :
      String → List ScoreRow → Lanes → Lanes → Lanes → Lanes → List String → Choice
  unfolding least is_better sorted_ids
  choose cat scorecard lanes ready cat_match fam_ok [] = record {
    lane = none;
    score = none;
    reason = refusal_reason ready cat_match fam_ok;
    candidates = [];
  }
  choose cat scorecard lanes ready cat_match fam_ok (x ∷ xs) =
      let best = least (is_better cat scorecard lanes) x xs in
      record {
        lane = some best;
        score = some (score_of (stats cat scorecard (or_else (get? best lanes) no_lane)));
        reason = "selected";
        candidates = sorted_ids (x ∷ xs);
      }

  unfoldable pub select_lane : Value → Value → Lanes → Readinesses → List ScoreRow → Result Choice
  unfolding choose
  select_lane category author lanes readiness scorecard = do
    cat ← or_raise (as_category category) (value_error "task must have a non-empty string category")
    raise_if (not (all (λ lid. has_key lid readiness) (keys lanes)))
        (value_error "lane has no readiness entry")
    let ready = lanes_where (is_ready readiness) lanes
    let cat_match = lanes_where (has_category cat) ready
    let fam_ok = lanes_where (is_independent author) cat_match
    let win_ok = lanes_where is_open fam_ok
    ok (choose cat scorecard lanes ready cat_match fam_ok (keys win_ok))
