-- ===== src/Routing/Route/Selection.antt =====
-- The lanes that `select_lane` (src/inference_grid/lanes/select.py) can choose.
use inference_grid.Prelude.{ℕ, String, true, ◌≡◌, refl, sym, ◌∙◌, some, List, [], ◌∷◌}
use inference_grid.Prelude.Int.{ℤ}
use inference_grid.Value.{Value, has_name}
use inference_grid.Result.{Ensures, gives, then_read, then_unless}
use inference_grid.Routing.Views.{Lane, Lanes, lanes_where}
use inference_grid.Routing.Select.{
  Choice, Readinesses, select_lane, choose, is_ready, has_category, is_independent, is_open,
  as_category,
}
use inference_grid.Routing.Route.Offers.{
  HasLane, kept-HasLane, HasLane-kept, keys-HasLane, HasLane-keys, has_name-sorted_ids,
}

-- What the selection asks of a lane.
pub record IsSelectable (cat : String) (author : Value) (readiness : Readinesses) (lid : String)
    (lane : Lane) : Type 0 where
  pub ready : is_ready readiness lid lane ≡ true
  pub categorised : has_category cat lid lane ≡ true
  pub independent : is_independent author lid lane ≡ true
  pub window_open : is_open lid lane ≡ true

module _ (cat : String) (author : Value) (lanes : Lanes) (readiness : Readinesses) where
  abbrev window_ok : Lanes
  window_ok = lanes_where is_open (
      lanes_where (is_independent author)
        (lanes_where (has_category cat) (lanes_where (is_ready readiness) lanes)))

  open_IsSelectable :
      (lid : String) (lane : Lane)
      → HasLane lid lane window_ok
      → HasLane lid lane lanes × IsSelectable cat author readiness lid lane
  open_IsSelectable lid lane h =
      let (h1, window_open) = kept-HasLane is_open lid lane _ h in
      let (h2, independent) = kept-HasLane (is_independent author) lid lane _ h1 in
      let (h3, categorised) = kept-HasLane (has_category cat) lid lane _ h2 in
      let (h4, ready) = kept-HasLane (is_ready readiness) lid lane _ h3 in
      (
        h4,
        record {
          ready = ready;
          categorised = categorised;
          independent = independent;
          window_open = window_open;
        },
      )

  IsSelectable_open :
      (lid : String) (lane : Lane)
      → HasLane lid lane lanes
      → IsSelectable cat author readiness lid lane
      → HasLane lid lane window_ok
  IsSelectable_open lid lane h s =
      HasLane-kept is_open lid lane _
        (HasLane-kept (is_independent author) lid lane _
          (HasLane-kept (has_category cat) lid lane _
            (HasLane-kept (is_ready readiness) lid lane _ h s.ready) s.categorised)
          s.independent)
        s.window_open

-- The candidates of a choice are the lanes that the selection can take.
pub record IsChoice (category author : Value) (lanes : Lanes) (readiness : Readinesses) (c : Choice)
    : Type 0 where
  pub cat : String
  pub category_of : as_category category ≡ some cat
  pub sound :
      (lid : String)
      → has_name lid c.candidates ≡ true
      → (lane : Lane) × HasLane lid lane lanes × IsSelectable cat author readiness lid lane
  pub complete :
      (lid : String) (lane : Lane)
      → HasLane lid lane lanes
      → IsSelectable cat author readiness lid lane
      → has_name lid c.candidates ≡ true

module _ (quotient : ℕ → ℕ → ℤ) where
  choose-candidates :
      (cat lid : String) (lanes ready cat_match fam_ok : Lanes) (ids : List String)
      → has_name lid (choose quotient cat [] lanes ready cat_match fam_ok ids).candidates
        ≡ has_name lid ids
  unfolding choose
  choose-candidates cat lid lanes ready cat_match fam_ok [] = refl
  choose-candidates cat lid lanes ready cat_match fam_ok (x ∷ xs) = has_name-sorted_ids lid (x ∷ xs)

  pub select_lane-IsChoice :
      (category author : Value) (lanes : Lanes) (readiness : Readinesses)
      → Ensures
          (IsChoice category author lanes readiness)
          (select_lane quotient category author lanes readiness [])
  unfolding select_lane
  select_lane-IsChoice category author lanes readiness = then_read _ _ λ cat category_of.
      then_unless _ _ λ known. gives (record {
        cat = cat;
        category_of = category_of;
        sound = λ lid h.
            let (lane, there) =
              keys-HasLane lid _ (sym (choose-candidates cat lid lanes _ _ _ _) ∙ h) in
            let (listed, selectable) =
              open_IsSelectable cat author lanes readiness lid lane there in
            (lane, listed, selectable);
        complete = λ lid lane h s.
            choose-candidates cat lid lanes _ _ _ _
            ∙ HasLane-keys lid lane _ (IsSelectable_open cat author lanes readiness lid lane h s);
      })
