-- ===== src/Ledger/State.antt =====
-- The tables of src/inference_grid/ledger.py, lines 28-134. A table is the list of its rows, newest
-- first; a transaction returns the new tables, and a raised error leaves the old ones (`tx`).
-- Times and quotas are counts of 2 ^ -1074 (Value.antt).
use inference_grid.Prelude.{
  ℕ, String, Bool, true, false, ◌+◌, Option, List, [], ◌∷◌, ◌==◌, any, first, map, ◌&&◌,
}
use inference_grid.Prelude.Int.{ℤ, pos}
use inference_grid.Value.{Value, num, int, float, finite, Dict, get?, or_else, has_key, value_eq}
use inference_grid.Result.{Result, ok, raised, key_error, type_error, or_raise, ◌>>=◌}
use inference_grid.Value.{as_str}

-- A quota by window name.
abbrev pub Quota : Type 0
Quota = List (String × ℕ)

pub record Account : Type 0 where
  pub id : String
  pub capacity : ℕ
  pub generation : ℕ
  pub windows : Quota
  pub expires : ℕ
  pub models : List Value

pub record Cooldown : Type 0 where
  pub account : String
  pub endpoint : String
  pub until : ℕ

pub record Observation : Type 0 where
  pub account : String
  pub observed_at : ℤ
  pub snapshot_digest : String

pub record Alias : Type 0 where
  pub id : String
  pub account : String

pub record Task : Type 0 where
  pub id : String
  pub project : String
  pub spec : Dict

-- The values of the column `state` that the ledger writes.
pub data AttemptState : Type 0 where
  queued dispatching held completed accepted abandoned failed : AttemptState

-- `receipt` and `reason` are null where the column is NULL.
pub record Attempt : Type 0 where
  pub id : String
  pub task : String
  pub account : String
  pub generation : ℕ
  pub state : AttemptState
  pub estimate : Quota
  pub workspace : String
  pub receipt : Value
  pub reason : Value
  pub updated : ℕ

pub record Event : Type 0 where
  pub attempt : Option String
  pub kind : String
  pub detail : Dict
  pub at : ℕ

pub record LaneRow : Type 0 where
  pub provider : String
  pub facts : Value
  pub updated : ℕ

pub record State : Type 0 where
  pub accounts : List Account
  pub cooldowns : List Cooldown
  pub observations : List Observation
  pub aliases : List Alias
  pub tasks : List Task
  pub attempts : List Attempt
  pub events : List Event
  pub lanes : List LaneRow

-- What the operations call and the repository does not hold: sha256 over canonical JSON (`digest`,
-- lines 144-147) and `str(Path(p).resolve())`.
pub record Env : Type 0 where
  pub digest : Value → String
  pub resolve : String → String

-- What the interpreter gives a call: `time i` is the reading of `time.time()` that it makes at its i-th
-- place, `total` is Python's `sum` of amounts and `plus` its `+` of two, with the rounding of floats;
-- a sum beyond the floats is a number above every amount.
pub record Clock : Type 0 where
  pub time : ℕ → ℕ
  pub total : List ℕ → ℕ
  pub plus : ℕ → ℕ → ℕ

-- The clock behind a number of readings.
abbrev pub clock_behind : ℕ → Clock → Clock
clock_behind n clock = record clock { time = λ i. clock.time (n + i) }

-- The tables behind a call: those it committed, or the old ones where it raised.
abbrev pub tx {ℓ} : {A : Type ℓ} → State → Result (A × State) → State
tx s (ok (_, s')) = s'
tx s (raised _) = s

-- `ACTIVE`.
abbrev pub is_active : AttemptState → Bool
is_active queued = true
is_active dispatching = true
is_active held = true
is_active _ = false

abbrev pub is_queued : AttemptState → Bool
is_queued queued = true
is_queued _ = false

abbrev pub is_dispatching : AttemptState → Bool
is_dispatching dispatching = true
is_dispatching _ = false

abbrev pub is_held : AttemptState → Bool
is_held held = true
is_held _ = false

-- `state in ("completed", "accepted")`.
abbrev pub is_done : AttemptState → Bool
is_done completed = true
is_done accepted = true
is_done _ = false

-- `e.get(window, 0)`.
abbrev pub amount_of : String → Quota → ℕ
amount_of window e = or_else (get? window e) 0

-- `sum(e.get(window, 0) for e in estimates)`, over the estimates of rows.
unfoldable pub reserved : Clock → String → List Attempt → ℕ
reserved clock window rows = clock.total (map (λ r. amount_of window r.estimate) rows)

abbrev pub all_keys_in : Quota → Quota → Bool
all_keys_in [] e = true
all_keys_in ((k, v) ∷ d) e = has_key k e && all_keys_in d e

-- `set(d) == set(e)`.
unfoldable pub same_keys : Quota → Quota → Bool
same_keys d e = all_keys_in d e && all_keys_in e d

-- `d[k]` of a dictionary, and of one whose entry must be a text.
abbrev pub item : String → Dict → Result Value
item k d = or_raise (get? k d) key_error

abbrev pub text_item : String → Dict → Result String
text_item k d = item k d >>= λ v. or_raise (as_str v) type_error

abbrev pub account_row : String → State → Option Account
account_row name s = first (λ a. a.id == name) s.accounts

abbrev pub alias_row : String → State → Option Alias
alias_row name s = first (λ a. a.id == name) s.aliases

abbrev pub task_row : String → State → Option Task
task_row name s = first (λ t. t.id == name) s.tasks

abbrev pub attempt_row : String → State → Option Attempt
attempt_row aid s = first (λ r. r.id == aid) s.attempts

abbrev pub has_model : Value → Account → Bool
has_model model a = any (value_eq model) a.models

-- The deadline of an account's endpoint, if one is recorded.
abbrev pub cooldown_row : String → String → State → Option Cooldown
cooldown_row account endpoint s =
    first (λ c. (c.account == account) && (c.endpoint == endpoint)) s.cooldowns

-- Numbers as event details hold them.
abbrev pub time_value : ℕ → Value
time_value t = num (float (finite (pos t)))

abbrev pub count_value : ℕ → Value
count_value n = num (int (pos n))

-- `Ledger.event`; its random id is left out.
unfoldable pub event : ℕ → Option String → String → Dict → State → State
event now attempt kind detail s = record s {
  events = record { attempt = attempt; kind = kind; detail = detail; at = now } ∷ s.events;
}

-- A task or an attempt of this key is in its table.
abbrev pub is_known : String → State → Bool
is_known task s = any (λ t. t.id == task) s.tasks

abbrev pub is_taken : String → State → Bool
is_taken aid s = any (λ r. r.id == aid) s.attempts
