-- ===== src/BoardRunner/Requeue.antt =====
-- What `requeue_dead` (src/inference_grid/board/runner.py) does on every branch.
use inference_grid.Prelude.{
  ℕ, ◌≤◌, String, Bool, true, false, ◌||◌, ◌≡◌, refl, sym, subst, ◌∙◌, inl, inr, List, [], ◌∷◌,
  ◌++◌, ltb, if◌then◌else◌, any, All, length, where_rows, Bool-cases, arith, ap,
}
use inference_grid.Prelude.Text.{codes, has_prefix}
use inference_grid.Ledger.State.{Attempt}
use inference_grid.BoardRunner.{
  comes_first, insert_attempt, newest_first, skip, is_attempt_tail, is_attempt_of,
}
use Prim.Native.String.{◌++◌ as ◌~◌}
use Prim.Native.String.append
use Prim.Native.Char.{code}

codes-append : (s t : String) → codes (s ~ t) ≡ codes s ++ codes t
codes-append String.[] t = λ i. codes (append.nil t i)
codes-append (String.◌∷◌ c s) t =
    subst (λ x. codes x ≡ codes (String.◌∷◌ c s) ++ codes t) (sym (λ i. append.cons c s t i))
      (ap (λ rest. code c ∷ rest) (codes-append s t))

skip-append : (s t : List ℕ) → skip (length s) (s ++ t) ≡ t
skip-append [] t = refl
skip-append (c ∷ s) t = skip-append s t

has_prefix-append : (s t : List ℕ) → has_prefix (s ++ t) s ≡ true
has_prefix-append [] t = refl
has_prefix-append (c ∷ s) t = ground (arith, has_prefix-append s t)

-- A ledger attempt of a board task, by the name that the ledger gives its task.
pub record Belongs (is_decimal : ℕ → Bool) (id : String) (r : Attempt) : Type 0 where
  pub tail : String
  pub named : r.task ≡ (id ~ "-") ~ tail
  pub stamped : is_attempt_tail is_decimal (codes tail) ≡ true

pub Belongs-is_attempt_of :
    (is_decimal : ℕ → Bool) (like : String → String → Bool) (id : String) (r : Attempt)
    → ((p t : String) → has_prefix (codes t) (codes p) ≡ true → like p t ≡ true)
    → Belongs is_decimal id r
    → is_attempt_of is_decimal like id r ≡ true
Belongs-is_attempt_of is_decimal like id r complete b =
    let spelled : codes r.task ≡ codes (id ~ "-") ++ codes b.tail =
      ap codes b.named ∙ codes-append (id ~ "-") b.tail in
    let like_it : like (id ~ "-") r.task ≡ true =
      complete (id ~ "-") r.task
        (rw spelled (has_prefix-append (codes (id ~ "-")) (codes b.tail))) in
    let rest : skip (length (codes (id ~ "-"))) (codes r.task) ≡ codes b.tail =
      ap (skip (length (codes (id ~ "-")))) spelled
      ∙ skip-append (codes (id ~ "-")) (codes b.tail) in
    rw (like_it, rest, b.stamped) refl

swapped : (a b c : Bool) → (a || (b || c)) ≡ (b || (a || c))
swapped a b c = ground arith

swap_any :
    (b : Bool) (p : Attempt → Bool) (a x : Attempt) (rows rest : List Attempt)
    → any p rest ≡ (p a || any p rows)
    → any p (if b then a ∷ x ∷ rows else x ∷ rest) ≡ (p a || (p x || any p rows))
swap_any true p a x rows rest h = refl
swap_any false p a x rows rest h = rw h (swapped (p x) (p a) (any p rows))

-- Sorting keeps the rows: what none of the sorted rows is, none of the rows is.
any-insert_attempt :
    (p : Attempt → Bool) (a : Attempt) (rows : List Attempt)
    → any p (insert_attempt a rows) ≡ (p a || any p rows)
any-insert_attempt p a [] = refl
any-insert_attempt p a (b ∷ rows) =
    swap_any (comes_first a b) p a b rows (insert_attempt a rows) (any-insert_attempt p a rows)

pub any-newest_first :
    (p : Attempt → Bool) (rows : List Attempt) → any p (newest_first rows) ≡ any p rows
any-newest_first p [] = refl
any-newest_first p (a ∷ rows) =
    any-insert_attempt p a (newest_first rows) ∙ ap (λ b. p a || b) (any-newest_first p rows)

both_false : (a b : Bool) → (a || b) ≡ false → (a ≡ false) × (b ≡ false)
both_false a b h = ground arith

-- The first sorted row is a latest one.
abbrev pub is_later : ℕ → Attempt → Bool
is_later t r = ltb t r.updated

abbrev pub LeadsWith : List Attempt → Type 0
LeadsWith [] = Unit
LeadsWith (x ∷ xs) = any (is_later x.updated) xs ≡ false

any-is_later-le :
    (t u : ℕ) (rows : List Attempt)
    → t ≤ u
    → any (is_later t) rows ≡ false
    → any (is_later u) rows ≡ false
any-is_later-le t u [] h e = refl
any-is_later-le t u (r ∷ rows) h e = ground (arith, any-is_later-le t u rows)

insert_attempt-LeadsWith :
    (a : Attempt) (rows : List Attempt) → LeadsWith rows → LeadsWith (insert_attempt a rows)
insert_attempt-LeadsWith a [] h = refl
insert_attempt-LeadsWith a (b ∷ rows) h = elim (Bool-cases (comes_first a b)) [
  | inl before ↦
      let le : b.updated ≤ a.updated = ground arith in
      rw before (rw (any-is_later-le b.updated a.updated rows le h) (ground arith))
  | inr behind ↦
      let le : a.updated ≤ b.updated = ground arith in
      rw behind (any-insert_attempt (is_later b.updated) a rows ∙ rw h (ground arith))
]

pub newest_first-LeadsWith : (rows : List Attempt) → LeadsWith (newest_first rows)
newest_first-LeadsWith [] = tt
newest_first-LeadsWith (a ∷ rows) =
    insert_attempt-LeadsWith a (newest_first rows) (newest_first-LeadsWith rows)

pub none_where :
    (q p : Attempt → Bool) (rows : List Attempt)
    → any p (where_rows q rows) ≡ false
    → All (λ r. q r ≡ true → p r ≡ false) rows
none_where q p [] h = tt
none_where q p (r ∷ rows) h = elim (Bool-cases (q r)) [
  | inl kept ↦
      let halves = both_false (p r) (any p (where_rows q rows)) (
        subst (λ b. any p (if b then r ∷ where_rows q rows else where_rows q rows) ≡ false) kept
          h) in
      ((λ k. halves.0), none_where q p rows halves.1)
  | inr dropped ↦ (
    (λ k. cc),
    none_where q p rows (
        subst (λ b. any p (if b then r ∷ where_rows q rows else where_rows q rows) ≡ false) dropped
          h),
  )
]
