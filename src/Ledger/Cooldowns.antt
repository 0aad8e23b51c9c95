-- ===== src/Ledger/Cooldowns.antt =====
-- ledger.py, `defer` (353-383) and `cooldown_status` (385-402).
pub mod Deadlines
use inference_grid.Prelude.{
  ℕ, String, Bool, true, false, not, ◌||◌, ◌&&◌, Option, none, some, List, [], ◌∷◌, ◌==◌, ltb, leb,
  if◌then◌else◌, update_rows,
}
use inference_grid.Prelude.Int.{ℤ, pos, ltb_ℤ, pos_part}
use inference_grid.Value.{Value, Number, Dict, str, as_number, is_finite, amount}
use inference_grid.Result.{Result, ok, raised, refused, ◌>>=◌, ◌>>◌, raise_if, or_raise}
use inference_grid.Ledger.State.{Cooldown, State, Clock, alias_row, cooldown_row, time_value, event}

abbrev pub is_endpoint : String → Bool
is_endpoint endpoint = (endpoint == "usage") || (endpoint == "inference")

-- A finite deadline that is not negative; an OverflowError counts as invalid here.
unfoldable pub valid_deadline : Value → Option ℕ
unfolding is_finite amount
valid_deadline v = elim (as_number v) [
  | none ↦ none
  | some n ↦ elim (is_finite n) [
    | none ↦ none
    | some usable ↦ elim (amount n) [
      | none ↦ none
      | some q ↦ if usable && not (ltb_ℤ q (pos 0)) then some (pos_part q) else none
    ]
  ]
]

-- `max(old or 0, until)`.
abbrev pub later : ℕ → ℕ → ℕ
later a b = if leb a b then b else a

abbrev pub is_cooldown : String → String → Cooldown → Bool
is_cooldown account endpoint c = (c.account == account) && (c.endpoint == endpoint)

-- A new row, or the old one with a later deadline.
unfoldable pub store_deadline : String → String → ℕ → State → ℕ × State
store_deadline account endpoint until s = elim (cooldown_row account endpoint s) [
  | none ↦ (
    until,
    record s {
      cooldowns = record { account = account; endpoint = endpoint; until = until } ∷ s.cooldowns;
    },
  )
  | some old ↦
      if ltb old.until until
      then (
        until,
        record s {
          cooldowns =
              update_rows (is_cooldown account endpoint) (λ c. record c { until = until })
                s.cooldowns;
        },
      )
      else (old.until, s)
]

abbrev cooldown_detail : String → String → ℕ → Dict
cooldown_detail account endpoint until =
    ("account", str account) ∷ ("endpoint", str endpoint) ∷ ("until", time_value until) ∷ []

-- The account and the deadline that now holds.
unfoldable pub defer : Clock → String → String → Value → State → Result ((String × ℕ) × State)
unfolding valid_deadline store_deadline
defer clock alias endpoint until_in s = do
  raise_if (not (is_endpoint endpoint)) (refused "endpoint must be usage or inference")
  until ← or_raise (valid_deadline until_in) (refused "finite nonnegative deadline required")
  binding ← or_raise (alias_row alias s) (refused "unknown account")
  let (deadline, s') = store_deadline binding.account endpoint until s
  ok (
    (binding.account, deadline),
    event (clock.time 0) none "cooldown_observed"
        (cooldown_detail binding.account endpoint deadline) s',
  )

abbrev deadline_of : Option Cooldown → Option ℕ
deadline_of none = none
deadline_of (some c) = some c.until

abbrev is_later : ℕ → Option ℕ → Bool
is_later now none = false
is_later now (some until) = ltb now until

-- The account, its deadline and whether it blocks.
unfoldable pub cooldown_status : ℕ → String → String → State → Result (String × Option ℕ × Bool)
cooldown_status now alias endpoint s = do
  raise_if (not (is_endpoint endpoint)) (refused "endpoint must be usage or inference")
  binding ← or_raise (alias_row alias s) (refused "unknown account")
  let deadline = deadline_of (cooldown_row binding.account endpoint s)
  ok (binding.account, deadline, is_later now deadline)
