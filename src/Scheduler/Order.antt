-- ===== src/Scheduler/Order.antt =====
-- The order in which `tick` (src/inference_grid/scheduler.py) takes the pending tasks.
use Prim.Native.Char.{code}
use Prim.Native.Nat.compare as compare_ℕ
use Prim.Native.Nat.{Ordering, zero, suc, compare as compare_ℕ}
use Prim.Native.String.compare
use Prim.Native.String.{compare, then as compare_rest}
use mathlib.Core.Path.{ap₂}
use mathlib.Core.List.{Perm}
use mathlib.Core.List.Perm
use text.Mathlib.Text.{is_le}
use inference_grid.Prelude.{
  ℕ, String, Bool, true, false, ◌≡◌, refl, sym, subst, ◌∙◌, ap, ◌⊎◌, inl, inr, List, [], ◌∷◌,
  Bool-cases, All, arith, tests, ◌||◌, ◌&&◌, map,
}
use inference_grid.Prelude.Int.{◌<ℤ◌, ◌≤ℤ◌, ltb_ℤ, eqb_ℤ}
use inference_grid.Prelude.Text.{text_leb}
use inference_grid.Result.{ok, Ensures, Ensures-ok, gives, then_bind}
use inference_grid.Ledger.State.{Task, State}
use inference_grid.Scheduler.{Keyed, key_leb, insert, sort, keyed, pending, priority_of}

-- The key `(priority, id)` of one task stands before or at that of the other.
pub data Precedes : Keyed → Keyed → Type 0 where
  by_priority : {a b : Keyed} → a.0 <ℤ b.0 → Precedes a b
  by_id : {a b : Keyed} → a.0 ≤ℤ b.0 → b.0 ≤ℤ a.0 → text_leb a.1.id b.1.id ≡ true → Precedes a b

-- Each task's key stands before or at that of the next.
abbrev pub Ascends : List Keyed → Type 0
Ascends [] = Unit
Ascends (a ∷ []) = Unit
Ascends (a ∷ b ∷ rest) = Precedes a b × Ascends (b ∷ rest)

-- The tasks that no attempt names, each once and beside its priority, by ascending keys.
pub record IsQueue (s : State) (queue : List Keyed) : Type 0 where
  pub everyone : Perm (map (λ (k : Keyed). k.1) queue) (pending s)
  pub keys : All (λ (k : Keyed). priority_of k.1 ≡ ok k.0) queue
  pub ascends : Ascends queue

abbrev flip : Ordering → Ordering
flip Ordering.lt = Ordering.gt
flip Ordering.eq = Ordering.eq
flip Ordering.gt = Ordering.lt

flip-compare_ℕ : (m n : ℕ) → compare_ℕ n m ≡ flip (compare_ℕ m n)
flip-compare_ℕ zero zero = compare_ℕ.zero-zero ∙ sym (ap flip compare_ℕ.zero-zero)
flip-compare_ℕ zero (suc n) = compare_ℕ.suc-zero n ∙ sym (ap flip (compare_ℕ.zero-suc n))
flip-compare_ℕ (suc m) zero = compare_ℕ.zero-suc m ∙ sym (ap flip (compare_ℕ.suc-zero m))
flip-compare_ℕ (suc m) (suc n) =
    compare_ℕ.suc-suc n m ∙ flip-compare_ℕ m n ∙ sym (ap flip (compare_ℕ.suc-suc m n))

flip-compare_rest : (o p : Ordering) → compare_rest (flip o) (flip p) ≡ flip (compare_rest o p)
flip-compare_rest Ordering.lt p = refl
flip-compare_rest Ordering.eq p = refl
flip-compare_rest Ordering.gt p = refl

flip-compare : (s t : String) → compare t s ≡ flip (compare s t)
flip-compare String.[] String.[] = compare.nil-nil ∙ sym (ap flip compare.nil-nil)
flip-compare String.[] (String.◌∷◌ d t) =
    compare.cons-nil d t ∙ sym (ap flip (compare.nil-cons d t))
flip-compare (String.◌∷◌ c s) String.[] =
    compare.nil-cons c s ∙ sym (ap flip (compare.cons-nil c s))
flip-compare (String.◌∷◌ c s) (String.◌∷◌ d t) =
    compare.cons-cons d c t s
    ∙ ap₂ compare_rest (flip-compare_ℕ (code c) (code d)) (flip-compare s t)
    ∙ flip-compare_rest (compare_ℕ (code c) (code d)) (compare s t)
    ∙ sym (ap flip (compare.cons-cons c d s t))

is_le-flip : (o : Ordering) → is_le o ≡ false → is_le (flip o) ≡ true
is_le-flip Ordering.lt h = cc
is_le-flip Ordering.eq h = cc
is_le-flip Ordering.gt h = refl

text_leb_total : (s t : String) → text_leb s t ≡ false → text_leb t s ≡ true
text_leb_total s t h = ap is_le (flip-compare s t) ∙ is_le-flip (compare s t) h

either : (a b c : Bool) → (a || (b && c)) ≡ true → (a ≡ true) ⊎ ((b ≡ true) × (c ≡ true))
either true b c h = inl refl
either false b c h = inr (ground arith)

neither : (a b c : Bool) → (a || (b && c)) ≡ false → (a ≡ false) × ((b ≡ false) ⊎ (c ≡ false))
neither false true false h = (refl, inr refl)
neither false false c h = (refl, inl refl)
neither true b c h = cc
neither false true true h = cc

key_leb-Precedes : (a b : Keyed) → key_leb a b ≡ true → Precedes a b
unfolding key_leb
key_leb-Precedes (p, t) (q, u) h = elim (either (ltb_ℤ p q) (eqb_ℤ p q) (text_leb t.id u.id) h) [
  | inl less ↦ by_priority (grind (tests, less))
  | inr (same, ids) ↦ by_id (ground (arith, same)) (ground (arith, same)) ids
]

key_leb-later : (a b : Keyed) → key_leb a b ≡ false → Precedes b a
unfolding key_leb
key_leb-later (p, t) (q, u) h =
    let (more, other) = neither (ltb_ℤ p q) (eqb_ℤ p q) (text_leb t.id u.id) h in
    elim (Bool-cases (eqb_ℤ p q)) [
      | inl same ↦ elim other [
        | inl differs ↦ cc
        | inr ids ↦
            by_id (ground (arith, same)) (ground (arith, same)) (text_leb_total t.id u.id ids)
      ]
      | inr differs ↦ by_priority (ground (arith, more, differs))
    ]

insert-behind :
    (a x : Keyed) (ys : List Keyed) → Ascends (a ∷ ys) → Precedes a x → Ascends (a ∷ insert x ys)
unfolding insert
insert-behind a x [] asc h = (h, tt)
insert-behind a x (b ∷ rest) asc h = elim (Bool-cases (key_leb x b)) [
  | inl first ↦ rw (first, insert) (h, (key_leb-Precedes x b first, asc.1))
  | inr later ↦ rw (later, insert) (asc.0, insert-behind b x rest asc.1 (key_leb-later x b later))
]

insert-Ascends : (x : Keyed) (ys : List Keyed) → Ascends ys → Ascends (insert x ys)
unfolding insert
insert-Ascends x [] asc = tt
insert-Ascends x (y ∷ ys) asc = elim (Bool-cases (key_leb x y)) [
  | inl first ↦ rw (first, insert) (key_leb-Precedes x y first, asc)
  | inr later ↦ rw (later, insert) (insert-behind y x ys asc (key_leb-later x y later))
]

sort-Ascends : (xs : List Keyed) → Ascends (sort xs)
unfolding sort
sort-Ascends [] = tt
sort-Ascends (x ∷ xs) = insert-Ascends x (sort xs) (sort-Ascends xs)

insert-perm : (x : Keyed) (ys : List Keyed) → Perm (insert x ys) (x ∷ ys)
unfolding insert
insert-perm x [] = Perm.rfl
insert-perm x (y ∷ ys) = elim (Bool-cases (key_leb x y)) [
  | inl first ↦ rw (first, insert) Perm.rfl
  | inr later ↦ rw (later, insert) (Perm.trans (Perm.cons y (insert-perm x ys)) (Perm.swap x y ys))
]

sort-perm : (xs : List Keyed) → Perm (sort xs) xs
unfolding sort
sort-perm [] = Perm.rfl
sort-perm (x ∷ xs) = Perm.trans (insert-perm x (sort xs)) (Perm.cons x (sort-perm xs))

insert-All :
    (P : Keyed → Type 0) (x : Keyed) (ys : List Keyed) → P x → All P ys → All P (insert x ys)
unfolding insert
insert-All P x [] h all = (h, tt)
insert-All P x (y ∷ ys) h all = elim (Bool-cases (key_leb x y)) [
  | inl first ↦ rw (first, insert) (h, all)
  | inr later ↦ rw (later, insert) (all.0, insert-All P x ys h all.1)
]

sort-All : (P : Keyed → Type 0) (xs : List Keyed) → All P xs → All P (sort xs)
unfolding sort
sort-All P [] all = tt
sort-All P (x ∷ xs) all = insert-All P x (sort xs) all.0 (sort-All P xs all.1)

-- What a list of keyed tasks is.
record AreKeyed (tasks : List Task) (queue : List Keyed) : Type 0 where
  tasks_of : map (λ (k : Keyed). k.1) queue ≡ tasks
  keys : All (λ (k : Keyed). priority_of k.1 ≡ ok k.0) queue

keyed-AreKeyed : (tasks : List Task) → Ensures (AreKeyed tasks) (keyed tasks)
unfolding keyed
keyed-AreKeyed [] = gives (record { tasks_of = refl; keys = tt })
keyed-AreKeyed (t ∷ ts) = then_bind _ λ p priority. then_bind _ λ rest e.
    let r = Ensures-ok (keyed-AreKeyed ts) e in
    gives (record { tasks_of = ap (λ l. t ∷ l) r.tasks_of; keys = (priority, r.keys) })

pub sort-IsQueue :
    (s : State) (tasks : List Keyed) → keyed (pending s) ≡ ok tasks → IsQueue s (sort tasks)
sort-IsQueue s tasks e =
    let k = Ensures-ok (keyed-AreKeyed (pending s)) e in
    record {
      everyone =
          subst (Perm (map (λ (k : Keyed). k.1) (sort tasks))) k.tasks_of
            (Perm.map (λ (k : Keyed). k.1) (sort-perm tasks));
      keys = sort-All (λ k. priority_of k.1 ≡ ok k.0) tasks k.keys;
      ascends = sort-Ascends tasks;
    }
