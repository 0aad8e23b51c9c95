-- ===== src/Routing/Route/Winners.antt =====
-- The lane that `route` (src/inference_grid/lanes/route.py) names.
use inference_grid.Prelude.{
  ℕ, String, true, ◌≡◌, refl, sym, subst, ap, ◌∙◌, inl, inr, Option, none, some, List, [], ◌++◌,
  Bool-cases, Option-cases, arith, is_empty, if◌then◌else◌,
}
use inference_grid.Prelude.Int.{ℤ}
use inference_grid.Value.{Value, get?}
use inference_grid.Result.{◌>>=◌, ok, Ensures, Ensures-ok, gives, then_bind}
use inference_grid.Routing.Views.{Lane, Lanes, RoutedTask, lanes_where}
use inference_grid.Routing.Meta.{Requirement, validate_requirement, policy_drop}
use inference_grid.Routing.Select.{Readinesses, as_category}
use inference_grid.Routing.Route.{
  Drop, Answer, Quotas, offered, meets, fits, prompt_tokens, has_tier, wanted_tier, tier_kept,
  budget_drops, tier_drops, narrows, route_allowed, route, refuse, policy_drops,
}
use inference_grid.Routing.Route.Offers.{
  HasLane, kept-HasLane, HasLane-kept, tier_kept-HasLane, HasLane-tier_kept,
}
use inference_grid.Routing.Route.Selection.{IsSelectable, select_lane-IsChoice}
use inference_grid.Routing.Route.MostQuota.{IsNoMore, pick-IsMost}

-- The board's policy, met by a lane.
pub data IsAllowed (lane : Lane) : Option Value → Type 0 where
  no_policy : IsAllowed lane none
  meets_policy :
      {given : Value} (require : Requirement)
      → validate_requirement given ≡ ok require
      → policy_drop lane.lane_meta require ≡ none
      → IsAllowed lane (some given)

-- A lane that the task may have, its tier aside.
pub record IsEligible (task : RoutedTask) (lanes : Lanes) (readiness : Readinesses)
    (inputs_bytes : ℕ) (cat lid : String) (lane : Lane) : Type 0 where
  pub listed : HasLane lid lane (offered task lanes)
  pub allowed : IsAllowed lane task.require
  pub holds : fits (prompt_tokens inputs_bytes) task.thinking_tokens lane ≡ true
  pub selectable : IsSelectable cat task.author_family readiness lid lane

-- The answer's lane, if it names one.
pub record IsRouted (task : RoutedTask) (lanes : Lanes) (readiness : Readinesses) (inputs_bytes : ℕ)
    (quotas : Quotas) (w : String) : Type 0 where
  pub cat : String
  pub category_of : as_category task.category ≡ some cat
  pub lane : Lane
  pub eligible : IsEligible task lanes readiness inputs_bytes cat w lane
  pub best :
      (id : String) (other : Lane)
      → IsEligible task lanes readiness inputs_bytes cat id other
      → has_tier (wanted_tier task.category) id other ≡ true
      → IsNoMore (get? id quotas) (get? w quotas)

record Routes (task : RoutedTask) (lanes : Lanes) (readiness : Readinesses) (inputs_bytes : ℕ)
    (quotas : Quotas) (a : Answer) : Type 0 where
  routed : (w : String) → a.lane ≡ some w → IsRouted task lanes readiness inputs_bytes quotas w

module _ (quotient : ℕ → ℕ → ℤ) (task : RoutedTask) (lanes : Lanes) (readiness : Readinesses)
    (inputs_bytes : ℕ) (quotas : Quotas) where
  -- The lanes from which `route_allowed` starts are those offered and allowed.
  record AreAllowed (candidates : Lanes) : Type 0 where
    sound :
        (lid : String) (lane : Lane)
        → HasLane lid lane candidates
        → HasLane lid lane (offered task lanes) × IsAllowed lane task.require
    complete :
        (lid : String) (lane : Lane)
        → HasLane lid lane (offered task lanes)
        → IsAllowed lane task.require
        → HasLane lid lane candidates

  route_allowed-Routes :
      (candidates : Lanes) (dropped : List Drop)
      → AreAllowed candidates
      → Ensures (Routes task lanes readiness inputs_bytes quotas) (
          route_allowed quotient task readiness
            (prompt_tokens inputs_bytes)
            quotas
            candidates
            dropped)
  unfolding route_allowed
  route_allowed-Routes candidates dropped allowed =
      let holding = λ (lid : String) (lane : Lane).
        fits (prompt_tokens inputs_bytes) task.thinking_tokens lane in
      let fit = lanes_where holding candidates in
      let tier = wanted_tier task.category in
      let unoffered =
        dropped
        ++ budget_drops (prompt_tokens inputs_bytes) task.thinking_tokens candidates
        ++ (if narrows tier fit then tier_drops tier fit else []) in
      elim (Bool-cases (is_empty fit)) [
        | inl empty ↦ rw empty (gives (record { routed = λ w h. cc }))
        | inr nonempty ↦ rw nonempty (
            then_bind _ λ choice chosen.
              let c =
                Ensures-ok
                  (select_lane-IsChoice quotient task.category task.author_family
                    (tier_kept (wanted_tier task.category) fit) readiness)
                  chosen in
              gives (record {
                routed = λ w h.
                    let (member, most) =
                      pick-IsMost tier task.thinking_tokens (tier_kept tier fit) unoffered quotas
                        choice w h in
                    let (lane, kept, selectable) = c.sound w member in
                    let (fitting, tiered) =
                      tier_kept-HasLane (wanted_tier task.category) w lane fit kept in
                    let (candidate, holds) = kept-HasLane holding w lane candidates fitting in
                    let (listed, policy) = allowed.sound w lane candidate in
                    record {
                      cat = c.cat;
                      category_of = c.category_of;
                      lane = lane;
                      eligible = record {
                        listed = listed;
                        allowed = policy;
                        holds = holds;
                        selectable = selectable;
                      };
                      best = λ id other e tiered. most id (
                          c.complete id other
                            (HasLane-tier_kept (wanted_tier task.category) id other fit
                              (HasLane-kept holding id other candidates
                                (allowed.complete id other e.listed e.allowed) e.holds)
                              tiered)
                            e.selectable);
                    };
              }))
      ]

  -- What is offered and allowed by a policy that was read.
  meets-IsAllowed :
      (given : Value) (require : Requirement) (lid : String) (lane : Lane)
      → validate_requirement given ≡ ok require
      → meets require lid lane ≡ true
      → IsAllowed lane (some given)
  meets-IsAllowed given require lid lane valid h =
      elim (Option-cases (policy_drop lane.lane_meta require)) [
        | inl passed ↦ meets_policy require valid passed
        | inr (failed, e) ↦ absurd (ground arith)
      ]

IsAllowed-meets :
    {lane : Lane} {o : Option Value}
    → IsAllowed lane o
    → (given : Value) (require : Requirement) (lid : String) → o ≡ some given
    → validate_requirement given ≡ ok require
    → meets require lid lane ≡ true
IsAllowed-meets {lane} no_policy given require lid e valid = cc
IsAllowed-meets {lane} (meets_policy {given = g} r valid' passed) given require lid e valid =
    let same : g ≡ given = cc in
    let both : ok r ≡ ok require = sym valid' ∙ (ap validate_requirement same ∙ valid) in
    let same' : r ≡ require = cc in
    let met : meets r lid lane ≡ true = rw (passed, meets) refl in
    subst (λ x. meets x lid lane ≡ true) same' met

IsAllowed-none : {lane : Lane} {o : Option Value} → o ≡ none → IsAllowed lane o
IsAllowed-none {lane} e = subst (IsAllowed lane) (sym e) no_policy

module _ (quotient : ℕ → ℕ → ℤ) (task : RoutedTask) (lanes : Lanes) (readiness : Readinesses)
    (inputs_bytes : ℕ) (quotas : Quotas) where
  route-Routes :
      Ensures
        (Routes task lanes readiness inputs_bytes quotas)
        (route quotient task lanes readiness inputs_bytes quotas)
  unfolding route
  route-Routes = elim (Option-cases task.require) [
    | inl free ↦
        let same : route quotient task lanes readiness inputs_bytes quotas
            ≡ route_allowed quotient task readiness (prompt_tokens inputs_bytes) quotas
                (offered task lanes) [] =
          rw (free, route) refl in
        subst (Ensures (Routes task lanes readiness inputs_bytes quotas)) (sym same) (
          route_allowed-Routes quotient task lanes readiness inputs_bytes quotas
            (offered task lanes) []
            (record {
              sound = λ lid lane h. (h, IsAllowed-none free);
              complete = λ lid lane h a. h;
            }))
    | inr (given, e) ↦
        let same : route quotient task lanes readiness inputs_bytes quotas ≡ (
            validate_requirement given >>= λ require.
            if is_empty (lanes_where (meets require) (offered task lanes))
            then ok (
                refuse (wanted_tier task.category) "lane_policy" []
                  (policy_drops require (offered task lanes)))
            else route_allowed quotient task readiness (prompt_tokens inputs_bytes) quotas
                (lanes_where (meets require) (offered task lanes))
                (policy_drops require (offered task lanes))) =
          rw (e, route) refl in
        subst (Ensures (Routes task lanes readiness inputs_bytes quotas)) (sym same) (
          then_bind (validate_requirement given) λ require valid.
            elim (Bool-cases (is_empty (lanes_where (meets require) (offered task lanes)))) [
              | inl empty ↦ rw empty (gives (record { routed = λ w h. cc }))
              | inr nonempty ↦ rw nonempty (
                  route_allowed-Routes quotient task lanes readiness inputs_bytes quotas
                    (lanes_where (meets require) (offered task lanes)) _
                    (record {
                      sound = λ lid lane h.
                          let (there, met) =
                            kept-HasLane (meets require) lid lane (offered task lanes) h in
                          (
                            there,
                            subst (IsAllowed lane) (sym e) (
                                meets-IsAllowed quotient task lanes readiness inputs_bytes quotas
                                  given require lid lane valid met),
                          );
                      complete = λ lid lane h a.
                          HasLane-kept (meets require) lid lane (offered task lanes) h
                            (IsAllowed-meets a given require lid e valid);
                    }))
            ])
  ]

-- A lane that `route` names is one that the task may have: on its own list, or declaring its category
-- and not for explicit use only; allowed by the board's policy; able to hold the packet in its output
-- cap and its context; ready, of another family than the author, and with its window open. Of the
-- lanes of the wanted tier that the task may have, none has more quota left.
pub route-IsRouted :
    (quotient : ℕ → ℕ → ℤ) (task : RoutedTask) (lanes : Lanes) (readiness : Readinesses)
    (inputs_bytes : ℕ) (quotas : Quotas) (a : Answer) (w : String)
    → route quotient task lanes readiness inputs_bytes quotas ≡ ok a
    → a.lane ≡ some w
    → IsRouted task lanes readiness inputs_bytes quotas w
route-IsRouted quotient task lanes readiness inputs_bytes quotas a w e named =
    (Ensures-ok (route-Routes quotient task lanes readiness inputs_bytes quotas) e).routed w named
