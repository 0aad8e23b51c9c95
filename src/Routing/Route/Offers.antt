-- ===== src/Routing/Route/Offers.antt =====
-- Which lanes the filters of select.py and route.py keep.
use inference_grid.Prelude.{
  String, Bool, true, ◌≡◌, refl, subst, ◌≤◌, ◌==◌, ◌||◌, ◌⊎◌, inl, inr, List, [], ◌∷◌, Bool-cases,
  arith, eq_iff, is_empty, length, if◌then◌else◌,
}
use inference_grid.Value.{has_name, keys}
use inference_grid.Routing.Views.{Lane, Lanes, lanes_where, insert_id, sorted_ids}
use inference_grid.Routing.Route.{has_tier, narrows, tier_kept}

-- A lane of a dictionary, under its id.
abbrev pub HasLane : String → Lane → Lanes → Type 0
HasLane lid lane [] = ⊥
HasLane lid lane ((k, l) ∷ lanes) = ((k ≡ lid) × (l ≡ lane)) ⊎ HasLane lid lane lanes

module _ (test : String → Lane → Bool) where
  pub kept-HasLane :
      (lid : String) (lane : Lane) (lanes : Lanes)
      → HasLane lid lane (lanes_where test lanes)
      → HasLane lid lane lanes × (test lid lane ≡ true)
  kept-HasLane lid lane [] h = absurd h
  kept-HasLane lid lane ((k, l) ∷ lanes) h = elim (Bool-cases (test k l)) [
    | inr dropped ↦
        let (there, passed) = kept-HasLane lid lane lanes (
          subst
            (λ b.
              HasLane lid lane
                (if b then (k, l) ∷ lanes_where test lanes else lanes_where test lanes))
            dropped h) in
        (inr there, passed)
    | inl kept ↦
        let either : HasLane lid lane ((k, l) ∷ lanes_where test lanes) =
          subst
            (λ b.
              HasLane lid lane
                (if b then (k, l) ∷ lanes_where test lanes else lanes_where test lanes))
            kept h in
        elim either [
          | inl (same, same') ↦ (inl (same, same'), rw (← same, ← same') kept)
          | inr later ↦
              let (there, passed) = kept-HasLane lid lane lanes later in (inr there, passed)
        ]
  ]

  pub HasLane-kept :
      (lid : String) (lane : Lane) (lanes : Lanes)
      → HasLane lid lane lanes
      → test lid lane ≡ true
      → HasLane lid lane (lanes_where test lanes)
  HasLane-kept lid lane [] h passed = absurd h
  HasLane-kept lid lane ((k, l) ∷ lanes) (inl (same, same')) passed =
      let kept : test k l ≡ true = rw (same, same') passed in rw kept (inl (same, same'))
  HasLane-kept lid lane ((k, l) ∷ lanes) (inr h) passed = elim (Bool-cases (test k l)) [
    | inl kept ↦ rw kept (inr (HasLane-kept lid lane lanes h passed))
    | inr dropped ↦ rw dropped (HasLane-kept lid lane lanes h passed)
  ]

  length-lanes_where-le : (lanes : Lanes) → length (lanes_where test lanes) ≤ length lanes
  length-lanes_where-le [] = omega arith
  length-lanes_where-le ((k, l) ∷ lanes) = ground (arith, length-lanes_where-le lanes)

  -- Where a filter drops nothing, every lane passes it.
  pub nothing_dropped :
      (lid : String) (lane : Lane) (lanes : Lanes)
      → length lanes ≤ length (lanes_where test lanes)
      → HasLane lid lane lanes
      → test lid lane ≡ true
  nothing_dropped lid lane [] le h = absurd h
  nothing_dropped lid lane ((k, l) ∷ lanes) le h = elim (Bool-cases (test k l)) [
    | inr dropped ↦ absurd (ground (arith, length-lanes_where-le lanes))
    | inl kept ↦ elim h [
      | inl (same, same') ↦ rw (← same, ← same') kept
      | inr later ↦ nothing_dropped lid lane lanes (ground arith) later
    ]
  ]

-- Ids and lanes.
pub keys-HasLane :
    (lid : String) (lanes : Lanes)
    → has_name lid (keys lanes) ≡ true
    → (lane : Lane) × HasLane lid lane lanes
keys-HasLane lid [] h = cc
keys-HasLane lid ((k, l) ∷ lanes) h = elim (Bool-cases (k == lid)) [
  | inl same ↦ (l, inl ((eq_iff k lid).0 same, refl))
  | inr other ↦ let (lane, there) = keys-HasLane lid lanes (ground arith) in (lane, inr there)
]

pub HasLane-keys :
    (lid : String) (lane : Lane) (lanes : Lanes)
    → HasLane lid lane lanes
    → has_name lid (keys lanes) ≡ true
HasLane-keys lid lane [] h = absurd h
HasLane-keys lid lane ((k, l) ∷ lanes) (inl (same, same')) = ground (arith, (eq_iff k lid).1 same)
HasLane-keys lid lane ((k, l) ∷ lanes) (inr h) = ground (arith, HasLane-keys lid lane lanes h)

has_name-insert_id :
    (s x : String) (xs : List String) → has_name s (insert_id x xs) ≡ (x == s || has_name s xs)
unfolding insert_id
has_name-insert_id s x [] = refl
has_name-insert_id s x (y ∷ ys) = ground (arith, has_name-insert_id s x ys)

pub has_name-sorted_ids :
    (s : String) (xs : List String) → has_name s (sorted_ids xs) ≡ has_name s xs
unfolding sorted_ids
has_name-sorted_ids s [] = refl
has_name-sorted_ids s (x ∷ xs) =
    ground (arith, has_name-insert_id s x (sorted_ids xs), has_name-sorted_ids s xs)

-- The tier filter keeps lanes of the tier, or every lane where none has it.
pub tier_kept-HasLane :
    (tier lid : String) (lane : Lane) (fit : Lanes)
    → HasLane lid lane (tier_kept tier fit)
    → HasLane lid lane fit
      × ((has_tier tier lid lane ≡ true) ⊎ (is_empty (lanes_where (has_tier tier) fit) ≡ true))
unfolding tier_kept
tier_kept-HasLane tier lid lane fit h = elim (Bool-cases (narrows tier fit)) [
  | inl narrowed ↦
      let (there, passed) = kept-HasLane (has_tier tier) lid lane fit (
        subst (λ b. HasLane lid lane (if b then lanes_where (has_tier tier) fit else fit)) narrowed
          h) in
      (there, inl passed)
  | inr whole ↦
      let there =
        subst (λ b. HasLane lid lane (if b then lanes_where (has_tier tier) fit else fit)) whole
          h in
      elim (Bool-cases (is_empty (lanes_where (has_tier tier) fit))) [
        | inl none_there ↦ (there, inr none_there)
        | inr some_there ↦
            (there, inl (nothing_dropped (has_tier tier) lid lane fit (ground arith) there))
      ]
]

pub HasLane-tier_kept :
    (tier lid : String) (lane : Lane) (fit : Lanes)
    → HasLane lid lane fit
    → has_tier tier lid lane ≡ true
    → HasLane lid lane (tier_kept tier fit)
unfolding tier_kept
HasLane-tier_kept tier lid lane fit h passed = elim (Bool-cases (narrows tier fit)) [
  | inl narrowed ↦ rw narrowed (HasLane-kept (has_tier tier) lid lane fit h passed)
  | inr whole ↦ rw whole h
]
