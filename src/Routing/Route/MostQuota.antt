-- ===== src/Routing/Route/MostQuota.antt =====
-- The lane with the most quota left, among the candidates (src/inference_grid/lanes/route.py).
use inference_grid.Prelude.{
  String, Bool, true, false, ◌≡◌, refl, subst, ◌==◌, ◌⊎◌, inl, inr, Option, none, some, List, [],
  ◌∷◌, Bool-cases, arith, eq_iff,
}
use inference_grid.Prelude.Int.{ℤ, ◌≤ℤ◌}
use inference_grid.Value.{Value, get?, has_name}
use inference_grid.Routing.Views.{Lanes, least}
use inference_grid.Routing.Select.{Choice}
use inference_grid.Routing.Route.{Drop, Quotas, has_more, has_more_quota, by_id, pick}

-- A quota that is not above another; no reading is below every reading.
abbrev pub IsNoMore : Option ℤ → Option ℤ → Type 0
IsNoMore none y = Unit
IsNoMore (some x) none = ⊥
IsNoMore (some x) (some y) = x ≤ℤ y

IsNoMore-trans : (x y z : Option ℤ) → IsNoMore x y → IsNoMore y z → IsNoMore x z
IsNoMore-trans none y z h k = tt
IsNoMore-trans (some x) none z h k = absurd h
IsNoMore-trans (some x) (some y) none h k = absurd k
IsNoMore-trans (some x) (some y) (some z) h k = omega (arith, h, k)

IsNoMore-refl : (x : Option ℤ) → IsNoMore x x
IsNoMore-refl none = tt
IsNoMore-refl (some x) = omega arith

has_more-IsNoMore : (x y : Option ℤ) (by : Bool) → has_more x y by ≡ true → IsNoMore y x
has_more-IsNoMore x none by h = tt
has_more-IsNoMore none (some y) by h = cc
has_more-IsNoMore (some x) (some y) by h = ground arith

not_more-IsNoMore : (x y : Option ℤ) (by : Bool) → has_more x y by ≡ false → IsNoMore x y
not_more-IsNoMore none y by h = tt
not_more-IsNoMore (some x) none by h = cc
not_more-IsNoMore (some x) (some y) by h = ground arith

-- The least of ids by quota: one of them, and none has more.
module _ (quotas : Quotas) where
  pub record IsMost (best : String) (ids : List String) (w : String) : Type 0 where
    pub member : has_name w (best ∷ ids) ≡ true
    pub most :
        (id : String) → has_name id (best ∷ ids) ≡ true → IsNoMore (get? id quotas) (get? w quotas)

  -- The least of one more id, of which one is set aside.
  one_aside :
      (stays aside w : String) (xs : List String) (id : String)
      → IsNoMore (get? aside quotas) (get? stays quotas)
      → IsMost stays xs w
      → has_name id (stays ∷ xs) ≡ true ⊎ (aside ≡ id)
      → IsNoMore (get? id quotas) (get? w quotas)
  one_aside stays aside w xs id le m (inl there) = m.most id there
  one_aside stays aside w xs id le m (inr same) =
      subst (λ x. IsNoMore (get? x quotas) (get? w quotas)) same
        (IsNoMore-trans (get? aside quotas) (get? stays quotas) (get? w quotas) le
          (m.most stays (ground (arith, eq_iff stays stays))))

  least-IsMost :
      (best : String) (ids : List String) → IsMost best ids (least (has_more_quota quotas) best ids)
  unfolding least
  least-IsMost best [] = record {
    member = ground (arith, eq_iff best best);
    most = λ id h.
        let same : best ≡ id = (eq_iff best id).0 (ground arith) in
        subst (λ x. IsNoMore (get? x quotas) (get? best quotas)) same
          (IsNoMore-refl (get? best quotas));
  }
  least-IsMost best (x ∷ xs) = elim (Bool-cases (has_more_quota quotas x best)) [
    | inl more ↦
        let m = least-IsMost x xs in
        rw more (record {
          member = ground (arith, m.member);
          most = λ id h.
              one_aside x best _ xs id
                (has_more-IsNoMore (get? x quotas) (get? best quotas) (by_id x best) more) m
                (elim (Bool-cases (best == id)) [
                  | inl same ↦ inr ((eq_iff best id).0 same)
                  | inr other ↦ inl (ground (arith, h, other))
                ]);
        })
    | inr no_more ↦
        let m = least-IsMost best xs in
        rw no_more (record {
          member = ground (arith, m.member);
          most = λ id h.
              one_aside best x _ xs id
                (not_more-IsNoMore (get? x quotas) (get? best quotas) (by_id x best) no_more) m
                (elim (Bool-cases (x == id)) [
                  | inl same ↦ inr ((eq_iff x id).0 same)
                  | inr other ↦ inl (ground (arith, h, other))
                ]);
        })
  ]

List-cases {ℓ} :
    {A : Type ℓ} (xs : List A) → (xs ≡ []) ⊎ ((x : A) × (rest : List A) × (xs ≡ x ∷ rest))
List-cases [] = inl refl
List-cases (x ∷ xs) = inr (x, xs, refl)

pub pick-IsMost :
    (tier : String) (thinking : Value) (kept : Lanes) (dropped : List Drop) (quotas : Quotas)
    (c : Choice) (w : String)
    → (pick tier thinking kept dropped quotas c).lane ≡ some w
    → (has_name w c.candidates ≡ true)
      × ((id : String)
          → has_name id c.candidates ≡ true
          → IsNoMore (get? id quotas) (get? w quotas))
unfolding pick
pick-IsMost tier thinking kept dropped quotas c w h = elim (List-cases c.candidates) [
  | inl empty ↦
      let nothing : (pick tier thinking kept dropped quotas c).lane ≡ none =
        rw (empty, pick) refl in
      cc (h, nothing)
  | inr (x, xs, e) ↦
      let winner = least (has_more_quota quotas) x xs in
      let named : (pick tier thinking kept dropped quotas c).lane ≡ some winner =
        rw (e, pick) refl in
      let same : winner ≡ w = cc (h, named) in
      let m = subst (IsMost quotas x xs) same (least-IsMost quotas x xs) in
      (rw e m.member, λ id there. m.most id (subst (λ ids. has_name id ids ≡ true) e there))
]
