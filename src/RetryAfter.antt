-- ===== src/RetryAfter.antt =====
-- src/inference_grid/retry_after.py: `retry_deadline`, the instant up to which a provider asks to wait.
use inference_grid.Prelude.{
  ℕ, ◌+◌, ◌*◌, ◌-◌, ◌≤◌, ◌<◌, ◌≡◌, refl, Bool, not, ◌&&◌, Option, none, some, List, [], ◌∷◌, all,
  length, ltb, leb, if◌then◌else◌, is_empty, arith, tests, Bool-cases, inl, inr,
}
use inference_grid.Prelude.Int.{ℤ, pos_part}
use inference_grid.Prelude.Text.{codes, strip}
use inference_grid.Value.{Value, as_str, one}
use inference_grid.Result.{
  Result, ok, value_error, ◌>>=◌, or_raise, Error, raises, Ensures, Ensures-ok, gives, then_bind,
  then_read,
}

-- Float addition, none where the sum is not finite, and `math.nextafter(x, math.inf)` in the same way.
pub record Floats : Type 0 where
  pub add : ℕ → ℕ → Option ℕ
  pub next_up : ℕ → Option ℕ

abbrev is_digit : ℕ → Bool
is_digit c = leb b'0' c && leb c b'9'

abbrev pub number_of : ℕ → List ℕ → ℕ
number_of n [] = n
number_of n (c ∷ s) = number_of (10 * n + (c - b'0')) s

abbrev pub later_of : ℕ → ℕ → ℕ
later_of a b = if leb a b then b else a

-- `int` of a text of more than 4300 digits raises ValueError.
abbrev pub digits_limit : ℕ
digits_limit = 4300

-- What the header asks for.
pub data Wait : Type 0 where
  for_delay until_date : ℕ → Wait

-- `http_date` is the timestamp of `email.utils.parsedate_to_datetime`, where that is aware.
module _ (fl : Floats) (http_date : List ℕ → Option ℤ) where
  unfoldable pub wait_of : Value → ℕ → Result Wait
  unfolding strip one
  wait_of value fallback = elim (as_str value) [
    | none ↦ ok (for_delay fallback)
    | some text ↦
        let s = strip (codes text) in
        if not (is_empty s) && all is_digit s
        then (if leb (length s) digits_limit
            then ok (for_delay (number_of 0 s * one))
            else Result.raised (value_error "delay overflow"))
        else (elim (http_date s) [
          | none ↦ ok (for_delay fallback)
          | some t ↦ ok (until_date (pos_part t))
        ])
  ]

  -- A sum that was rounded down is moved up.
  unfoldable pub round_up : ℕ → ℕ → ℕ → Result ℕ
  round_up now delay deadline =
      if ltb deadline (now + delay)
      then or_raise (fl.next_up deadline) (value_error "deadline overflow")
      else ok deadline

  unfoldable pub deadline_of_wait : ℕ → Wait → Result ℕ
  unfolding round_up
  deadline_of_wait now (until_date t) = ok (later_of now t)
  deadline_of_wait now (for_delay delay) = do
    deadline ← or_raise (fl.add now delay) (value_error "nonfinite deadline")
    raised_deadline ← round_up now delay deadline
    ok (later_of now raised_deadline)

  unfoldable pub retry_deadline : Value → ℕ → ℕ → Result ℕ
  unfolding wait_of deadline_of_wait
  retry_deadline value now fallback = wait_of value fallback >>= deadline_of_wait now

-- The sum is the nearest double, so the next one is no less than the exact sum.
abbrev pub RoundsToNearest : Floats → Type 0
RoundsToNearest fl =
    (a b d e : ℕ) → fl.add a b ≡ some d → d < a + b → fl.next_up d ≡ some e → a + b ≤ e

abbrev pub earliest : ℕ → Wait → ℕ
earliest now (for_delay delay) = now + delay
earliest now (until_date t) = t

module _ (fl : Floats) (http_date : List ℕ → Option ℤ) where
  pub record IsWaited (value : Value) (now fallback deadline : ℕ) : Type 0 where
    pub wait : Wait
    pub asked : wait_of fl http_date value fallback ≡ ok wait
    pub reached : earliest now wait ≤ deadline
    pub from_now : now ≤ deadline

  last_read :
      {P : ℕ → Type 0} (o : Option ℕ) (e : Error)
      → ((a : ℕ) → o ≡ some a → P a)
      → Ensures P (or_raise o e)
  unfolding or_raise
  last_read none e h = raises
  last_read (some a) e h = gives (h a refl)

  round_up-le :
      (now delay deadline : ℕ)
      → RoundsToNearest fl
      → fl.add now delay ≡ some deadline
      → Ensures (λ d. now + delay ≤ d) (round_up fl http_date now delay deadline)
  unfolding round_up
  round_up-le now delay deadline nearest sum = elim (Bool-cases (ltb deadline (now + delay))) [
    | inl short ↦
        rw short (last_read _ _ λ e up. nearest now delay deadline e sum (grind (tests, short)) up)
    | inr enough ↦ rw enough (gives (grind (tests, enough)))
  ]

  later_of-le : (a b : ℕ) → (a ≤ later_of a b) × (b ≤ later_of a b)
  later_of-le a b = ground arith

  pub retry_deadline-Ensures :
      (value : Value) (now fallback : ℕ)
      → RoundsToNearest fl
      → Ensures (IsWaited value now fallback) (retry_deadline fl http_date value now fallback)
  unfolding retry_deadline deadline_of_wait
  retry_deadline-Ensures value now fallback nearest = then_bind _ λ wait asked. waited wait asked
    where
      waited :
          (wait : Wait)
          → wait_of fl http_date value fallback ≡ ok wait
          → Ensures (IsWaited value now fallback) (deadline_of_wait fl http_date now wait)
      waited (until_date t) asked = gives (record {
        wait = until_date t;
        asked = asked;
        reached = (later_of-le now t).1;
        from_now = (later_of-le now t).0;
      })
      waited (for_delay delay) asked = then_read _ _ λ deadline sum. then_bind _ λ d up.
          let exact = Ensures-ok (round_up-le now delay deadline nearest sum) up in
          gives (record {
            wait = for_delay delay;
            asked = asked;
            reached = omega (arith, exact, (later_of-le now d).1);
            from_now = (later_of-le now d).0;
          })
