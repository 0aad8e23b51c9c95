-- ===== src/BoardRunner.antt =====
-- src/inference_grid/board/runner.py: what a pass reads of the ledger and the lanes, and what it writes
-- to a board's task files outside the work of its attempts.
pub mod Requeue
pub mod Stranded
use inference_grid.Prelude.{
  ℕ, zero, suc, ◌+◌, ◌-◌, ◌≤◌, String, Bool, true, false, not, ◌||◌, ◌&&◌, Option, none, some, List,
  [], ◌∷◌, ◌==◌, ltb, leb, eqb, if◌then◌else◌, any, all, first, length, where_rows, is_empty, map,
}
use inference_grid.Prelude.Int.{ℤ, pos, ltb_ℤ}
use inference_grid.Prelude.Text.{codes, text_leb, has_prefix, is_text}
use inference_grid.Value.{
  Value, Number, Float, null, str, num, obj, Dict, as_dict, as_list, as_str, as_number, get?,
  get_value, of_dict, set_key, is_str, or_else, has_name, items, amount, is_finite, is_neg_inf,
}
use inference_grid.Result.{
  Result, ok, raised, Error, value_error, refused, ◌>>=◌, ◌>>◌, raise_if, or_raise,
}
use inference_grid.LaneReadiness.{LaneState, Readiness, ready, stale, not_qualified, lane_readiness}
use inference_grid.Ledger.State.{
  State, Account, Attempt, AttemptState, queued, dispatching, held, completed, accepted, abandoned,
  failed, Alias, alias_row, account_row, is_active, is_done, event, time_value, item, LaneRow,
}
use inference_grid.Ledger.Lanes.{classifier_view}
use inference_grid.Failover.{Board, is_superseded, cut}
use inference_grid.BoardEntry.{validate_board_task}
use Prim.Native.String.{◌++◌}

-- The attempts of an account that hold a slot.
abbrev pub holds_slot : String → Attempt → Bool
holds_slot account r = (r.account == account) && is_active r.state

unfoldable pub account_slots : String → State → ℕ
account_slots account s = elim (account_row account s) [
  | none ↦ 0
  | some acct ↦ acct.capacity - length (where_rows (holds_slot account) s.attempts)
]

-- `depends_on` of a loaded task: None, or a list of texts.
abbrev pub dependencies : Dict → List Value
dependencies task = or_else (as_list (get_value "depends_on" task)) []

abbrev pub is_landed_on : Board → Value → Bool
is_landed_on board v = elim (as_str v) [
  | none ↦ false
  | some dep ↦ elim (get? dep board) [
    | none ↦ false
    | some task ↦ is_str "landed" (get_value "state" task)
  ]
]

unfoldable pub unlanded_dependencies : Dict → Board → List Value
unlanded_dependencies task board =
    where_rows (λ dep. not (is_landed_on board dep)) (dependencies task)

unfoldable pub superseded : Dict → Bool
superseded task =
    is_str "blocked" (get_value "state" task) && is_superseded (get_value "blocked_reason" task)

-- `LEDGER_ATTEMPT.match` on the rest of a ledger task's id; `is_decimal` is `\d`.
abbrev is_hex_code : ℕ → Bool
is_hex_code c = (leb b'0' c && leb c b'9') || (leb b'a' c && leb c b'f')

-- `$`: the end, or a newline there.
abbrev at_end : List ℕ → Bool
at_end [] = true
at_end (c ∷ []) = eqb c 10
at_end (c ∷ d ∷ s) = false

abbrev pub skip : ℕ → List ℕ → List ℕ
skip zero s = s
skip (suc n) [] = []
skip (suc n) (c ∷ s) = skip n s

abbrev ends_attempt : List ℕ → Bool
ends_attempt s = at_end s || (has_prefix s (codes "-verify") && at_end (skip 7 s))

abbrev after_code : ℕ → List ℕ → Option (List ℕ)
after_code d [] = none
after_code d (c ∷ s) = if eqb c d then some s else none

abbrev after_hex : List ℕ → List ℕ
after_hex [] = []
after_hex (c ∷ s) = let rest = after_hex s in if is_hex_code c then rest else c ∷ s

abbrev starts_hex : List ℕ → Bool
starts_hex [] = false
starts_hex (c ∷ s) = is_hex_code c

abbrev pub attempt_state_text : AttemptState → String
attempt_state_text queued = "queued"
attempt_state_text dispatching = "dispatching"
attempt_state_text held = "held"
attempt_state_text completed = "completed"
attempt_state_text accepted = "accepted"
attempt_state_text abandoned = "abandoned"
attempt_state_text failed = "failed"

abbrev pub is_dead : AttemptState → Bool
is_dead failed = true
is_dead abandoned = true
is_dead _ = false

-- `order by updated desc, task desc`, as an insertion sort.
abbrev pub comes_first : Attempt → Attempt → Bool
comes_first a b = ltb b.updated a.updated || (eqb a.updated b.updated && text_leb b.task a.task)

abbrev pub insert_attempt : Attempt → List Attempt → List Attempt
insert_attempt a [] = a ∷ []
insert_attempt a (b ∷ rows) =
    let rest = insert_attempt a rows in if comes_first a b then a ∷ b ∷ rows else b ∷ rest

abbrev pub newest_first : List Attempt → List Attempt
newest_first [] = []
newest_first (a ∷ rows) = insert_attempt a (newest_first rows)

-- A record that a pass returns for a task.
pub record TickRow : Type 0 where
  pub task : String
  pub lane : Option String
  pub attempt : Option String
  pub result : String

abbrev pub row_for : String → Attempt → String → TickRow
row_for id newest result = record {
  task = id;
  lane = none;
  attempt = some newest.id;
  result = result;
}

-- `is_decimal` is `\d` of Python's regular expressions.
module _ (is_decimal : ℕ → Bool) where
  abbrev pub after_digits : ℕ → List ℕ → Option (List ℕ)
  after_digits zero s = some s
  after_digits (suc n) [] = none
  after_digits (suc n) (c ∷ s) = let rest = after_digits n s in if is_decimal c then rest else none

  -- `LEDGER_ATTEMPT.match`.
  unfoldable pub is_attempt_tail : List ℕ → Bool
  is_attempt_tail s = elim (after_digits 8 s) [
    | none ↦ false
    | some day ↦ elim (after_code b'T' day) [
      | none ↦ false
      | some clock ↦ elim (after_digits 6 clock) [
        | none ↦ false
        | some random ↦ elim (after_code b'-' random) [
          | none ↦ false
          | some hex ↦ starts_hex hex && ends_attempt (after_hex hex)
        ]
      ]
    ]
  ]

  -- `like p t` is the database's `t LIKE p || '%'`.
  module _ (like : String → String → Bool) where
    abbrev pub is_attempt_of : String → Attempt → Bool
    is_attempt_of task_id r =
        like (task_id ++ "-") r.task
        && is_attempt_tail (skip (length (codes (task_id ++ "-"))) (codes r.task))

    unfoldable pub ledger_attempts : String → State → List Attempt
    unfolding is_attempt_tail
    ledger_attempts task_id s = newest_first (where_rows (is_attempt_of task_id) s.attempts)

abbrev pub requeued_detail : String → Attempt → Dict
requeued_detail id newest =
    ("task", str id)
    ∷ ("ledger_task", str newest.task)
    ∷ ("reason", str ("newest attempt " ++ attempt_state_text newest.state))
    ∷ []

-- `dict(task, state=..., blocked_reason=...)`.
abbrev pub changed : String → Value → Dict → Dict
changed state reason task = set_key "blocked_reason" reason (set_key "state" (str state) task)

module _ (is_decimal : ℕ → Bool) where
  -- `key` names the task's file.
  unfoldable pub save_task : String → Dict → Board → Result Board
  unfolding validate_board_task
  save_task key updated board = do
    checked ← validate_board_task is_decimal (obj (of_dict updated))
    ok (set_key key updated board)

  -- The write of a requeue: the task's file first, then the ledger's event.
  unfoldable pub requeue :
      ℕ → String → String → Dict → Attempt → Board → State → Result (Board × State)
  unfolding save_task event
  requeue now key id task newest board s = do
    saved ← save_task key (changed "ready" null task) board
    ok (saved, event now (some newest.id) "requeued" (requeued_detail id newest) s)

  unfoldable pub settle_dead :
      ℕ
      → Bool
      → String
      → String
      → Dict
      → List Attempt
      → Board
      → State
      → Result (Option TickRow × (Board × State))
  unfolding requeue
  settle_dead now dry_run key id task [] board s = ok (none, (board, s))
  settle_dead now dry_run key id task (newest ∷ rows) board s =
      if any (λ (r : Attempt). is_active r.state) (newest ∷ rows)
      then ok (none, (board, s))
      else if is_done newest.state
      then ok (
        some (row_for id newest ("dispatched: attempt " ++ attempt_state_text newest.state)),
        (board, s),
      )
      else if not (is_dead newest.state)
      then ok (none, (board, s))
      else if dry_run
      then ok (some (row_for id newest "requeued"), (board, s))
      else (requeue now key id task newest board s >>= λ after.
          ok (some (row_for id newest "requeued"), after))

module _ (is_decimal : ℕ → Bool) (like : String → String → Bool) where
  -- `id` is the id of the loaded task.
  unfoldable pub requeue_dead :
      ℕ → Bool → String → String → Dict → Board → State → Result (Option TickRow × (Board × State))
  unfolding settle_dead ledger_attempts
  requeue_dead now dry_run key id task board s =
      settle_dead is_decimal now dry_run key id task (ledger_attempts is_decimal like id s) board s
