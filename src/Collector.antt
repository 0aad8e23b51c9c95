-- ===== src/Collector.antt =====
-- src/inference_grid/collector.py: the two transactions of `collect`, which stand around its network
-- work, on the table `collection_claims` beside the ledger's.
pub mod SingleFlight
pub mod Response
pub mod Cooled
pub mod Publish
pub mod Converted
pub mod Published
use inference_grid.Prelude.{
  ℕ, String, Bool, true, false, not, ◌&&◌, ◌+◌, ◌*◌, Option, none, some, List, [], ◌∷◌, ◌==◌, ltb,
  eqb, if◌then◌else◌, first, any, length, where_rows, update_rows,
}
use inference_grid.Prelude.Int.{pos, ltb_ℤ, pos_part}
use inference_grid.Prelude.Text.{is_text}
use inference_grid.Value.{Value, as_number, is_finite, amount, one}
use inference_grid.Result.{Result, ok, raised, refused, ◌>>=◌, ◌>>◌, raise_if, or_raise}
use inference_grid.Ledger.State.{Cooldown, State, Clock, Env, alias_row, account_row, cooldown_row}
use inference_grid.Ledger.Calls.{Call, perform}

-- A row of `collection_claims`.
pub record Collecting : Type 0 where
  pub account : String
  pub token : Option String
  pub deadline : ℕ
  pub last_status : String

-- The ledger's tables and the collector's.
pub record Grid : Type 0 where
  pub tables : State
  pub claims : List Collecting

-- `_number(v) and 0 < v <= bound`.
unfoldable pub bounded_number : ℕ → Value → Option ℕ
unfolding is_finite amount one
bounded_number bound v = elim (as_number v) [
  | none ↦ none
  | some n ↦ elim (is_finite n) [
    | none ↦ none
    | some usable ↦ elim (amount n) [
      | none ↦ none
      | some q ↦
          if usable && (ltb_ℤ (pos 0) q && not (ltb (bound * one) (pos_part q)))
          then some (pos_part q)
          else none
    ]
  ]
]

abbrev pub claim_row : String → Grid → Option Collecting
claim_row account g = first (λ c. c.account == account) g.claims

-- `prior["token"]` as a test.
abbrev pub is_held : Collecting → Bool
is_held c = elim (c.token) [ none ↦ false | some t ↦ is_text t ]

abbrev pub begun : String → ℕ → Collecting → Collecting
begun token deadline c = record c {
  token = some token;
  deadline = deadline;
  last_status = "collecting";
}

-- The claim that is written: the old row, or a new one.
unfoldable pub store_claim : String → String → ℕ → Grid → Grid
store_claim account token deadline g = elim (claim_row account g) [
  | none ↦ record g {
    claims =
        record {
          account = account;
          token = some token;
          deadline = deadline;
          last_status = "collecting";
        }
        ∷ g.claims;
  }
  | some prior ↦ record g {
    claims = update_rows (λ c. c.account == account) (begun token deadline) g.claims;
  }
]

-- What the first transaction answers.
pub data Admission : Type 0 where
  cooling : ℕ → Admission
  busy reconciliation_required : Admission
  -- The account, and the deadline that the collector is called with.
  collecting : String → ℕ → Admission

abbrev pub cooling_until : ℕ → Option Cooldown → Option ℕ
cooling_until now none = none
cooling_until now (some c) = if ltb now c.until then some c.until else none

-- `prior and prior["token"]`.
abbrev pub held_now : String → Grid → Bool
held_now account g = elim (claim_row account g) [ none ↦ false | some prior ↦ is_held prior ]

abbrev pub held_answer : ℕ → String → Grid → Admission
held_answer now account g = elim (claim_row account g) [
  | none ↦ reconciliation_required
  | some prior ↦ if ltb now prior.deadline then busy else reconciliation_required
]

-- The claim of an account, where neither a cooldown nor a token is in the way.
unfoldable pub claim_account : ℕ → String → String → ℕ → Grid → Admission × Grid
unfolding store_claim
claim_account now token account timeout g =
    elim (cooling_until now (cooldown_row account "usage" g.tables)) [
      | some until ↦ (cooling until, g)
      | none ↦
          if held_now account g
          then (held_answer now account g, g)
          else (collecting account (now + timeout), store_claim account token (now + timeout) g)
    ]

-- From the checks of the arguments to the durable claim; `token` is the fresh uuid.
unfoldable pub admit_collection :
    ℕ → String → String → Value → Value → Grid → Result (Admission × Grid)
unfolding bounded_number claim_account
admit_collection now token alias timeout_in fallback_in g = do
  timeout ← or_raise (bounded_number 120 timeout_in) (refused "bounded collector deadline required")
  fallback ←
      or_raise (bounded_number 86400 fallback_in) (refused "positive bounded fallback required")
  binding ← or_raise (alias_row alias g.tables) (refused "unknown account")
  acct ← or_raise (account_row binding.account g.tables) (refused "unknown account")
  ok (claim_account now token binding.account timeout g)

abbrev pub has_token : String → String → Collecting → Bool
has_token account token c =
    (c.account == account) && (elim (c.token) [ none ↦ false | some t ↦ t == token ])

abbrev settled : String → Collecting → Collecting
settled status c = record c { token = none; last_status = status }

-- The second transaction: whether it found the claim that the first one wrote.
unfoldable pub settle_collection : String → String → String → Grid → Bool × Grid
settle_collection account token status g = (
  eqb (length (where_rows (has_token account token) g.claims)) 1,
  record g { claims = update_rows (has_token account token) (settled status) g.claims },
)

-- What else may happen while a collector is at work: other collections, and calls of the ledger.
pub data Move : Type 0 where
  admits : ℕ → String → String → Value → Value → Move
  settles : String → String → String → Move
  serves : Clock → Call → Move

abbrev pub behind : Grid → Result (Admission × Grid) → Grid
behind g (ok (a, g')) = g'
behind g (raised e) = g

unfoldable pub move : Env → Move → Grid → Grid
unfolding admit_collection settle_collection perform
move env (admits now token alias timeout fallback) g =
    behind g (admit_collection now token alias timeout fallback g)
move env (settles account token status) g = (settle_collection account token status g).1
move env (serves clock call) g = record g { tables = perform env clock call g.tables }

unfoldable pub moves : Env → List Move → Grid → Grid
unfolding move
moves env [] g = g
moves env (m ∷ ms) g = moves env ms (move env m g)
