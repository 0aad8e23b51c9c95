-- ===== src/Aliases/Walk.antt =====
-- `canonical_account` (src/inference_grid/aliases.py) ends, at an account that is no alias.
use inference_grid.Prelude.{
  ℕ, zero, suc, String, true, false, not, ◌≡◌, ◌<◌, ◌≤◌, ◌==◌, eq_iff, none, some, List, [], ◌∷◌,
  inl, inr, Option-cases, Bool-cases, arith, length, subst, All, where_rows, length-where_rows-le,
}
use inference_grid.Value.{Value, Dict, as_dict, get?, has_name}
use inference_grid.Result.{Result, ok, raised, value_error, chain}
use inference_grid.Aliases.{valid_id, alias_map, follow, canonical_account}

-- The walk along the map, as a relation.
pub data Leads (aliases : List (String × String)) : String → String → Type 0 where
  there : {a : String} → Leads aliases a a
  onward : {a b c : String} → get? a aliases ≡ some b → Leads aliases b c → Leads aliases a c

-- The entries whose key the walk has not seen.
abbrev unseen : List String → List (String × String) → ℕ
unseen seen aliases = length (where_rows (λ e. not (has_name e.0 seen)) aliases)

unseen-le :
    (current : String) (seen : List String) (aliases : List (String × String))
    → unseen (current ∷ seen) aliases ≤ unseen seen aliases
unseen-le current seen [] = omega arith
unseen-le current seen ((k, v) ∷ aliases) = ground (arith, unseen-le current seen aliases)

unseen-lt :
    (current next : String) (seen : List String) (aliases : List (String × String))
    → get? current aliases ≡ some next
    → has_name current seen ≡ false
    → unseen (current ∷ seen) aliases < unseen seen aliases
unseen-lt current next seen [] h n = cc
unseen-lt current next seen ((k, v) ∷ aliases) h n = elim (Bool-cases (k == current)) [
  | inl same ↦
      let e = (eq_iff k current).0 same in
      ground (arith, unseen-le current seen aliases, eq_iff current current)
  | inr other ↦ ground (arith, unseen-lt current next seen aliases (ground arith) n)
]

-- An account that the map leads from, and back to where the walk stands.
record IsBehind (aliases : List (String × String)) (current p : String) : Type 0 where
  next : String
  step : get? p aliases ≡ some next
  rest : Leads aliases next current

then_step :
    {aliases : List (String × String)} {a b c : String}
    → Leads aliases a b
    → get? b aliases ≡ some c
    → Leads aliases a c
then_step there h = onward h there
then_step (onward e l) h = onward e (then_step l h)

All-onward :
    (aliases : List (String × String)) (current next : String) (seen : List String)
    → get? current aliases ≡ some next
    → All (IsBehind aliases current) seen
    → All (IsBehind aliases next) seen
All-onward aliases current next [] h all = tt
All-onward aliases current next (p ∷ seen) h all = (
  record { next = all.0.next; step = all.0.step; rest = then_step all.0.rest h },
  All-onward aliases current next seen h all.1,
)

All-has_name {ℓ} :
    (P : String → Type ℓ) (p : String) (seen : List String)
    → All P seen
    → has_name p seen ≡ true
    → P p
All-has_name P p [] all h = cc
All-has_name P p (q ∷ seen) all h = elim (Bool-cases (q == p)) [
  | inl same ↦ subst P ((eq_iff q p).0 same) all.0
  | inr other ↦ All-has_name P p seen all.1 (ground arith)
]

-- How a walk ends: at an account that is no alias, or in a cycle that it leads to.
pub data Walked (aliases : List (String × String)) (start : String) : Result String → Type 0 where
  arrives :
      {c : String} → Leads aliases start c → get? c aliases ≡ none → Walked aliases start (ok c)
  circles :
      {b c : String}
      → Leads aliases start b
      → get? b aliases ≡ some c
      → Leads aliases c b
      → Walked aliases start (raised (value_error "alias cycle detected"))

follow-Walked :
    (fuel : ℕ) (aliases : List (String × String)) (seen : List String) (start current : String)
    → Leads aliases start current
    → All (IsBehind aliases current) seen
    → unseen seen aliases < fuel
    → Walked aliases start (follow fuel aliases seen current)
unfolding follow
follow-Walked zero aliases seen start current l all h = absurd (omega arith)
follow-Walked (suc fuel) aliases seen start current l all h =
    elim (Option-cases (get? current aliases)) [
      | inl last ↦ rw (last, follow) (arrives l last)
      | inr (next, step) ↦
          rw (step, follow)
            (elim (Bool-cases (has_name current seen)) [
              | inl again ↦
                  let behind = All-has_name (IsBehind aliases current) current seen all again in
                  rw again (circles l behind.step behind.rest)
              | inr fresh ↦
                  let less = unseen-lt current next seen aliases step fresh in
                  rw fresh (
                    follow-Walked fuel aliases (current ∷ seen) start next (then_step l step)
                      (
                        record { next = next; step = step; rest = there },
                        All-onward aliases current next seen step all,
                      )
                      (omega (arith, less, h)))
            ])
    ]

unseen-length : (aliases : List (String × String)) → unseen [] aliases ≤ length aliases
unseen-length aliases = length-where_rows-le (λ e. not (has_name e.0 [])) aliases

-- With a map of identifiers and an identifier to start from, the loop always ends, within the rounds
-- the model allows it: at an account that the map leads to and that is no alias itself, or with the
-- cycle error, and then the map leads from the name into a cycle.
pub canonical_account-Walked :
    (name aliases : Value) (given : Dict) (pairs : List (String × String)) (start : String)
    → as_dict aliases ≡ some given
    → alias_map given ≡ ok pairs
    → valid_id name ≡ some start
    → Walked pairs start (canonical_account name aliases)
unfolding canonical_account chain
canonical_account-Walked name aliases given pairs start d m v =
    rw (d, canonical_account)
      (rw m (
        rw v (
          follow-Walked (suc (suc (length pairs))) pairs [] start start there tt
            (omega (arith, unseen-length pairs)))))
