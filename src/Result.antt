-- ===== src/Result.antt =====
-- Raised exceptions as values. `Refused` is the package's own subclass of ValueError (ledger.py).
use inference_grid.Prelude.{
  ◌⊎◌, inl, inr, String, Bool, true, false, Option, none, some, ◌≡◌, refl, subst,
}

pub data Error : Type 0 where
  refused value_error : String → Error
  type_error key_error overflow_error no_result_found integrity_error : Error
  -- Any other exception: of the operating system, a subprocess or a decoder.
  other_error : String → Error
  -- The model's own: a loop was given too few rounds.
  out_of_fuel : Error

pub data Result {ℓ} (A : Type ℓ) : Type ℓ where
  ok : A → Result A
  raised : Error → Result A

infixl 5 ◌>>=◌ ◌>>◌
unfoldable pub ◌>>=◌ {ℓ κ} : {A : Type ℓ} {B : Type κ} → Result A → (A → Result B) → Result B
ok a >>= f = f a
raised e >>= f = raised e

unfoldable pub ◌>>◌ {ℓ} : {B : Type ℓ} → Result (Unit {0}) → Result B → Result B
unfolding ◌>>=◌
m >> k = m >>= λ _. k

-- `if test: raise error`.
unfoldable pub raise_if : Bool → Error → Result (Unit {0})
raise_if true e = raised e
raise_if false e = ok tt

-- A read that raises where there is nothing.
unfoldable pub or_raise {ℓ} : {A : Type ℓ} → Option A → Error → Result A
or_raise none e = raised e
or_raise (some a) e = ok a

-- The steps of a chain together: a proof or a test that computes one unfolds `chain`.
unfoldable pub chain : Unit {0}
unfolding ◌>>=◌ ◌>>◌ raise_if or_raise
chain = tt

-- What holds of the value, if there is one. A family, so that rules for the steps apply to chains.
pub data Ensures {ℓ κ} {A : Type ℓ} (P : A → Type κ) : Result A → Type (ℓ ⊔ κ) where
  gives : {a : A} → P a → Ensures P (ok a)
  raises : {e : Error} → Ensures P (raised e)

module _ {ℓ κ ι} {A : Type ℓ} {B : Type κ} {P : B → Type ι} where
  -- The rules for a step whose result the rest may use, with the equation for it.
  pub then_bind :
      (m : Result A) {f : A → Result B}
      → ((a : A) → m ≡ ok a → Ensures P (f a))
      → Ensures P (m >>= f)
  unfolding ◌>>=◌
  then_bind (ok a) h = h a refl
  then_bind (raised e) h = raises

  pub then_read :
      (o : Option A) (e : Error) {f : A → Result B}
      → ((a : A) → o ≡ some a → Ensures P (f a))
      → Ensures P (or_raise o e >>= f)
  unfolding chain
  then_read none e h = raises
  then_read (some a) e h = h a refl

module _ {κ ι} {B : Type κ} {P : B → Type ι} where
  pub then_unless :
      (b : Bool) (e : Error) {k : Result B}
      → (b ≡ false → Ensures P k)
      → Ensures P (raise_if b e >> k)
  unfolding chain
  then_unless true e h = raises
  then_unless false e h = h refl

module _ {κ ι} {B : Type κ} {P : B → Type ι} where
  pub then_check :
      (m : Result (Unit {0})) {k : Result B} → (m ≡ ok tt → Ensures P k) → Ensures P (m >> k)
  unfolding chain
  then_check (ok u) h = h refl
  then_check (raised e) h = raises

-- The property at a result that is known.
pub Ensures-ok {ℓ κ} :
    {A : Type ℓ} {P : A → Type κ} {m : Result A} {a : A} → Ensures P m → m ≡ ok a → P a
Ensures-ok {P} (gives p) e = subst P (cc) p
Ensures-ok raises e = cc

pub Ensures-map {ℓ κ ι} :
    {A : Type ℓ} {P : A → Type κ} {Q : A → Type ι} {m : Result A}
    → ((a : A) → P a → Q a)
    → Ensures P m
    → Ensures Q m
Ensures-map f (gives p) = gives (f _ p)
Ensures-map f raises = raises

pub Result-cases {ℓ} :
    {A : Type ℓ} (m : Result A) → ((a : A) × (m ≡ ok a)) ⊎ ((e : Error) × (m ≡ raised e))
Result-cases (ok a) = inl (a, refl)
Result-cases (raised e) = inr (e, refl)
