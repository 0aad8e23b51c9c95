-- ===== src/BoardReadiness/Selectable.antt =====
-- Which lanes `readiness_view` (src/inference_grid/board/runner.py) shows as ready.
use inference_grid.Prelude.{
  ℕ, ◌<◌, String, Bool, true, false, not, ◌≡◌, refl, sym, subst, ◌∙◌, inl, inr, Option, none, some,
  List, [], ◌∷◌, leb, length, where_rows, Option-cases, tests,
}
use inference_grid.Value.{Value, get?}
use inference_grid.Result.{
  Result, ok, raised, refused, value_error, type_error, key_error, overflow_error, no_result_found,
  integrity_error, other_error, out_of_fuel, Ensures, Ensures-ok, gives, then_bind,
}
use inference_grid.LaneReadiness.{
  LaneState, blocked, cooling, stale, exhausted, not_qualified, unverified, ready, Readiness,
  lane_readiness,
}
use inference_grid.Ledger.State.{State, Alias, alias_row, time_value}
use inference_grid.Ledger.Lanes.{classifier_view}
use inference_grid.BoardRunner.{holds_slot}
use inference_grid.BoardReadiness.{
  LaneOffer, GradedRow, ViewState, invalid, busy, classified, ViewEntry, is_refused, is_canaried,
  slots_of, is_full, is_ready_state, demote, view_state, entry_from, recorded_facts, view_entry,
  readiness_view,
}

demoted :
    (b : Bool) (state : ViewState) (other : ViewState)
    → is_ready_state other ≡ false
    → demote b other state ≡ classified ready
    → (b ≡ false) × (state ≡ classified ready)
demoted true invalid other h e = cc
demoted true busy other h e = cc
demoted true (classified blocked) other h e = cc
demoted true (classified cooling) other h e = cc
demoted true (classified stale) other h e = cc
demoted true (classified exhausted) other h e = cc
demoted true (classified not_qualified) other h e = cc
demoted true (classified unverified) other h e = cc
demoted true (classified ready) other h e = cc (subst (λ v. is_ready_state v ≡ false) e h)
demoted false state other h e = (refl, kept state other ∙ e)
  where
    kept : (st o : ViewState) → st ≡ demote false o st
    kept invalid o = refl
    kept busy o = refl
    kept (classified blocked) o = refl
    kept (classified cooling) o = refl
    kept (classified stale) o = refl
    kept (classified exhausted) o = refl
    kept (classified not_qualified) o = refl
    kept (classified unverified) o = refl
    kept (classified ready) o = refl

negated : (b : Bool) → not b ≡ false → b ≡ true
negated true h = refl
negated false h = cc

same_state : {a b : LaneState} → ViewState.classified a ≡ classified b → a ≡ b
same_state h = cc

module _ (accounts : List (String × String)) (s : State) (lid : String) (lane : LaneOffer) where
  -- The lane's account, where the pass knows it, carries fewer attempts than the lane may run.
  abbrev pub HasSlot : Type 0
  HasSlot =
      (alias : String) (row : Alias)
      → get? lid accounts ≡ some alias
      → alias_row alias s ≡ some row
      → length (where_rows (holds_slot row.account) s.attempts) < slots_of lane

  is_full-HasSlot : is_full accounts lid lane s ≡ false → HasSlot
  unfolding is_full
  is_full-HasSlot h = λ alias row known bound.
      let opened : is_full accounts lid lane s
          ≡ leb (slots_of lane) (length (where_rows (holds_slot row.account) s.attempts)) =
        rw (known, bound, is_full) refl in
      let room : leb (slots_of lane) (length (where_rows (holds_slot row.account) s.attempts))
          ≡ false =
        sym opened ∙ h in
      grind (tests, room)

  HasSlot-is_full : HasSlot → is_full accounts lid lane s ≡ false
  unfolding is_full
  HasSlot-is_full free = elim (Option-cases (get? lid accounts)) [
    | inl unknown ↦ rw (unknown, is_full) refl
    | inr (alias, known) ↦ elim (Option-cases (alias_row alias s)) [
      | inl unbound ↦ rw (known, unbound, is_full) refl
      | inr (row, bound) ↦ rw (known, bound, is_full) (grind (tests, free alias row known bound))
    ]
  ]

module _ (show : Value → String) (now : ℕ) (accounts : List (String × String))
    (scorecard : Option (List GradedRow)) (s : State) where
  -- What a lane is that a task may be given to.
  pub record IsOpen (lid : String) (lane : LaneOffer) : Type 0 where
    pub facts : Value
    pub reading : Readiness
    pub recorded : recorded_facts s lid ≡ some facts
    pub read : lane_readiness (classifier_view facts) (time_value now) ≡ ok reading
    pub ready_now : reading.state ≡ ready
    pub served : is_refused now lane.model facts ≡ false
    pub earned : is_canaried lane.model scorecard ≡ true
    pub free : HasSlot accounts s lid lane

  abbrev pub ShownReady : ViewEntry → Type 0
  ShownReady e = e.state ≡ classified ready

  -- The view shows a lane as ready exactly where it is open.
  pub record Tells (lid : String) (lane : LaneOffer) (e : ViewEntry) : Type 0 where
    pub sound : ShownReady e → IsOpen lid lane
    pub complete : IsOpen lid lane → ShownReady e

  view_state-open :
      (lid : String) (lane : LaneOffer) (facts : Value) (state : LaneState)
      → view_state show now accounts scorecard s lid lane facts state ≡ classified ready
      → (state ≡ ready)
        × (is_refused now lane.model facts ≡ false)
        × (is_canaried lane.model scorecard ≡ true)
        × (is_full accounts lid lane s ≡ false)
  unfolding view_state
  view_state-open lid lane facts state h =
      let free = demoted (is_full accounts lid lane s) _ busy refl h in
      let earned =
        demoted (not (is_canaried lane.model scorecard)) _ (classified not_qualified) refl free.1 in
      let served =
        demoted (is_refused now lane.model facts) (classified state) (classified not_qualified) refl
          earned.1 in
      (same_state served.1, served.0, negated _ earned.0, free.0)

  ready-view_state :
      (lid : String) (lane : LaneOffer) (facts : Value)
      → is_refused now lane.model facts ≡ false
      → is_canaried lane.model scorecard ≡ true
      → is_full accounts lid lane s ≡ false
      → view_state show now accounts scorecard s lid lane facts ready ≡ classified ready
  unfolding view_state
  ready-view_state lid lane facts served earned free = rw (served, earned, free) refl

  entry_from-ready :
      (lid : String) (lane : LaneOffer) (facts : Value) (m : Result Readiness) (e : ViewEntry)
      → entry_from show now accounts scorecard s lid lane facts m ≡ ok e
      → ShownReady e
      → (r : Readiness) × (m ≡ ok r)
        × (view_state show now accounts scorecard s lid lane facts r.state ≡ classified ready)
  unfolding entry_from
  entry_from-ready lid lane facts (ok r) e made shown = (r, refl, cc)
  entry_from-ready lid lane facts (raised (value_error m)) e made shown = cc
  entry_from-ready lid lane facts (raised (refused m)) e made shown = cc
  entry_from-ready lid lane facts (raised type_error) e made shown = cc
  entry_from-ready lid lane facts (raised key_error) e made shown = cc
  entry_from-ready lid lane facts (raised overflow_error) e made shown = cc
  entry_from-ready lid lane facts (raised no_result_found) e made shown = cc
  entry_from-ready lid lane facts (raised integrity_error) e made shown = cc
  entry_from-ready lid lane facts (raised (other_error m)) e made shown = cc
  entry_from-ready lid lane facts (raised out_of_fuel) e made shown = cc

  made_entry :
      (lid : String) (lane : LaneOffer) (facts : Value) (r : Readiness) (e : ViewEntry)
      → entry_from show now accounts scorecard s lid lane facts (ok r) ≡ ok e
      → e.state ≡ view_state show now accounts scorecard s lid lane facts r.state
  unfolding entry_from
  made_entry lid lane facts r e made = cc

  view_entry_sound :
      (lid : String) (lane : LaneOffer) (e : ViewEntry)
      → view_entry show now accounts scorecard s lid lane ≡ ok e
      → ShownReady e
      → IsOpen lid lane
  unfolding view_entry
  view_entry_sound lid lane e made shown = elim (Option-cases (recorded_facts s lid)) [
    | inl unknown ↦
        let stale_entry : view_entry show now accounts scorecard s lid lane
            ≡ ok (record { state = classified stale; qualified_for = none; reason = none }) =
          rw (unknown, view_entry) refl in
        cc (sym stale_entry ∙ made)
    | inr (facts, known) ↦
        let opened : view_entry show now accounts scorecard s lid lane
            ≡ entry_from show now accounts scorecard s lid lane facts
                (lane_readiness (classifier_view facts) (time_value now)) =
          rw (known, view_entry) refl in
        let read = entry_from-ready lid lane facts _ e (sym opened ∙ made) shown in
        let gates = view_state-open lid lane facts read.0.state read.2 in
        record {
          facts = facts;
          reading = read.0;
          recorded = known;
          read = read.1;
          ready_now = gates.0;
          served = gates.1;
          earned = gates.2;
          free = is_full-HasSlot accounts s lid lane gates.3;
        }
  ]

  view_entry_complete :
      (lid : String) (lane : LaneOffer) (e : ViewEntry)
      → view_entry show now accounts scorecard s lid lane ≡ ok e
      → IsOpen lid lane
      → ShownReady e
  unfolding view_entry entry_from
  view_entry_complete lid lane e made o =
      let gated : view_state show now accounts scorecard s lid lane o.facts o.reading.state
          ≡ classified ready =
        rw o.ready_now (
          ready-view_state lid lane o.facts o.served o.earned
            (HasSlot-is_full accounts s lid lane o.free)) in
      let opened : view_entry show now accounts scorecard s lid lane
          ≡ entry_from show now accounts scorecard s lid lane o.facts (ok o.reading) =
        rw (o.recorded, o.read, view_entry) refl in
      made_entry lid lane o.facts o.reading e (sym opened ∙ made) ∙ gated

  -- The view, lane by lane.
  pub data Views : List (String × LaneOffer) → List (String × ViewEntry) → Type 0 where
    no_lanes : Views [] []
    next_lane :
        {lid : String} {lane : LaneOffer} {e : ViewEntry} {lanes : List (String × LaneOffer)}
        {view : List (String × ViewEntry)}
        → Tells lid lane e
        → Views lanes view
        → Views ((lid, lane) ∷ lanes) ((lid, e) ∷ view)

  readiness_view-Views :
      (lanes : List (String × LaneOffer))
      → Ensures (Views lanes) (readiness_view show now accounts scorecard s lanes)
  unfolding readiness_view
  readiness_view-Views [] = gives no_lanes
  readiness_view-Views ((lid, lane) ∷ lanes) = then_bind _ λ e made. then_bind _ λ view rest.
      gives (
        next_lane
          (record {
            sound = view_entry_sound lid lane e made;
            complete = view_entry_complete lid lane e made;
          })
          (Ensures-ok (readiness_view-Views lanes) rest))

-- The view of the lanes shows a lane as ready exactly where it is open: its record is in the ledger and
-- classifies as ready now, its endpoint has not refused the model up to an instant to come, the
-- scorecard, where it is given, has an accepted canary of exactly this model, and the account that the
-- pass knows for it, where that is bound, carries fewer active attempts than the lane may run. The
-- view has the lanes in their order.
pub readiness_view_iff :
    (show : Value → String) (now : ℕ) (accounts : List (String × String))
    (scorecard : Option (List GradedRow)) (s : State) (lanes : List (String × LaneOffer))
    (view : List (String × ViewEntry))
    → readiness_view show now accounts scorecard s lanes ≡ ok view
    → Views show now accounts scorecard s lanes view
readiness_view_iff show now accounts scorecard s lanes view e =
    Ensures-ok (readiness_view-Views show now accounts scorecard s lanes) e
