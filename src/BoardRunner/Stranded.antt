-- ===== src/BoardRunner/Stranded.antt =====
-- `requeue_dead` (src/inference_grid/board/runner.py) returns a stranded task and no other.
use inference_grid.Prelude.{
  ℕ, ◌≤◌, String, Bool, true, false, ◌||◌, ◌==◌, ◌≡◌, refl, sym, subst, ◌∙◌, ◌⊎◌, inl, inr, Option,
  none, some, List, [], ◌∷◌, if◌then◌else◌, any, All, where_rows, Bool-cases, arith, tests, ap,
  eq_iff,
}
use inference_grid.Prelude.Text.{codes, has_prefix}
use inference_grid.Value.{Dict, null, obj, of_dict, set_key}
use inference_grid.Result.{Result, ok, raised, Error, chain, Result-cases, ◌>>=◌}
use inference_grid.Ledger.State.{
  State, Attempt, AttemptState, queued, dispatching, held, completed, accepted, abandoned, failed,
  is_active, is_done, event,
}
use inference_grid.Failover.{Board}
use inference_grid.BoardEntry.{validate_board_task}
use inference_grid.BoardRunner.{
  TickRow, row_for, attempt_state_text, is_dead, is_attempt_of, ledger_attempts, changed, save_task,
  requeued_detail, requeue, settle_dead, requeue_dead,
}
use inference_grid.BoardRunner.Requeue.{
  Belongs, Belongs-is_attempt_of, any-newest_first, is_later, newest_first-LeadsWith, LeadsWith,
  none_where,
}
use Prim.Native.String.{◌++◌}

finished_dead : (s : AttemptState) → is_active s ≡ false → is_done s ≡ false → is_dead s ≡ true
finished_dead queued h k = cc
finished_dead dispatching h k = cc
finished_dead held h k = cc
finished_dead completed h k = cc
finished_dead accepted h k = cc
finished_dead abandoned h k = refl
finished_dead failed h k = refl

active_head : (st : AttemptState) (b : Bool) → (is_active st || b) ≡ false → is_active st ≡ false
active_head st b h = ground arith

any_where :
    (q p : Attempt → Bool) (rows : List Attempt)
    → any p (where_rows q rows) ≡ true
    → any p rows ≡ true
any_where q p [] h = h
any_where q p (r ∷ rows) h = ground (arith, any_where q p rows)

same_id : (r : Attempt) (b : Bool) → ((r.id == r.id) || b) ≡ true
same_id r b = ground (arith, (eq_iff r.id r.id).1 refl)

module _ (is_decimal : ℕ → Bool) (like : String → String → Bool) (id : String) (s : State) where
  -- Of the task's attempts none is active, and none was updated after this one.
  pub record IsOver (newest : Attempt) : Type 0 where
    pub stored : any (λ r. r.id == newest.id) s.attempts ≡ true
    pub idle : All (λ r. Belongs is_decimal id r → is_active r.state ≡ false) s.attempts
    pub latest : All (λ r. Belongs is_decimal id r → r.updated ≤ newest.updated) s.attempts

  abbrev pub Complete : Type 0
  Complete = (p t : String) → has_prefix (codes t) (codes p) ≡ true → like p t ≡ true

  belonging :
      (P : Attempt → Type 0) (rows : List Attempt)
      → Complete
      → All (λ r. is_attempt_of is_decimal like id r ≡ true → P r) rows
      → All (λ r. Belongs is_decimal id r → P r) rows
  belonging P [] complete h = tt
  belonging P (r ∷ rows) complete h = (
    (λ b. h.0 (Belongs-is_attempt_of is_decimal like id r complete b)),
    belonging P rows complete h.1,
  )

  latest_of :
      (t : ℕ) (rows : List Attempt)
      → All (λ r. is_attempt_of is_decimal like id r ≡ true → is_later t r ≡ false) rows
      → All (λ r. is_attempt_of is_decimal like id r ≡ true → r.updated ≤ t) rows
  latest_of t [] h = tt
  latest_of t (r ∷ rows) h = ((λ b. grind (tests, h.0 b)), latest_of t rows h.1)

  rows-IsOver :
      (newest : Attempt) (rest : List Attempt)
      → Complete
      → ledger_attempts is_decimal like id s ≡ newest ∷ rest
      → any (λ (r : Attempt). is_active r.state) (newest ∷ rest) ≡ false
      → IsOver newest
  unfolding ledger_attempts
  rows-IsOver newest rest complete e quiet =
      let mine = where_rows (is_attempt_of is_decimal like id) s.attempts in
      let same = λ (p : Attempt → Bool). sym (any-newest_first p mine) ∙ ap (any p) e in
      let leads : LeadsWith (newest ∷ rest) = subst LeadsWith e (newest_first-LeadsWith mine) in
      let later : any (is_later newest.updated) (newest ∷ rest) ≡ false = rw leads (ground arith) in
      record {
        stored =
            any_where (is_attempt_of is_decimal like id) (λ r. r.id == newest.id) s.attempts
              (same (λ r. r.id == newest.id) ∙ same_id newest (any (λ r. r.id == newest.id) rest));
        idle = belonging _ s.attempts complete (
            none_where (is_attempt_of is_decimal like id) (λ r. is_active r.state) s.attempts
              (same (λ r. is_active r.state) ∙ quiet));
        latest = belonging _ s.attempts complete (
            latest_of newest.updated s.attempts (
              none_where (is_attempt_of is_decimal like id) (is_later newest.updated) s.attempts
                (same (is_later newest.updated) ∙ later)));
      }

  module _ (now : ℕ) (dry_run : Bool) (key : String) (task : Dict) (board : Board) where
    -- The branches, each with its result.
    pub data Requeues : Result (Option TickRow × (Board × State)) → Type 0 where
      left_alone :
          (ledger_attempts is_decimal like id s ≡ [])
            ⊎ (any (λ (r : Attempt). is_active r.state) (ledger_attempts is_decimal like id s)
                ≡ true)
          → Requeues (ok (none, (board, s)))
      reported :
          (newest : Attempt)
          → IsOver newest
          → is_done newest.state ≡ true
          → Requeues (
              ok (
                some
                    (row_for id newest ("dispatched: attempt " ++ attempt_state_text newest.state)),
                (board, s),
              ))
      planned :
          (newest : Attempt)
          → IsOver newest
          → is_dead newest.state ≡ true
          → dry_run ≡ true
          → Requeues (ok (some (row_for id newest "requeued"), (board, s)))
      requeued :
          (newest : Attempt) (checked : Dict)
          → IsOver newest
          → is_dead newest.state ≡ true
          → dry_run ≡ false
          → validate_board_task is_decimal (obj (of_dict (changed "ready" null task))) ≡ ok checked
          → Requeues (
              ok (
                some (row_for id newest "requeued"),
                (
                  set_key key (changed "ready" null task) board,
                  event now (some newest.id) "requeued" (requeued_detail id newest) s,
                ),
              ))
      invalid :
          (newest : Attempt) (e : Error)
          → IsOver newest
          → is_dead newest.state ≡ true
          → dry_run ≡ false
          → validate_board_task is_decimal (obj (of_dict (changed "ready" null task))) ≡ raised e
          → Requeues (raised e)

    requeue-Requeues :
        (newest : Attempt)
        → IsOver newest
        → is_dead newest.state ≡ true
        → dry_run ≡ false
        → Requeues (
            requeue is_decimal now key id task newest board s >>= λ after.
            ok (some (row_for id newest "requeued"), after))
    unfolding requeue save_task chain
    requeue-Requeues newest over dead wet =
        elim (Result-cases
          (validate_board_task is_decimal (obj (of_dict (changed "ready" null task))))) [
            | inl (checked, e) ↦ rw e (requeued newest checked over dead wet e)
            | inr (error, e) ↦ rw e (invalid newest error over dead wet e)
          ]

    planned_or_requeued :
        (newest : Attempt)
        → IsOver newest
        → is_dead newest.state ≡ true
        → (b : Bool) → dry_run ≡ b
        → Requeues (
            if b
            then ok (some (row_for id newest "requeued"), (board, s))
            else (requeue is_decimal now key id task newest board s >>= λ after.
                ok (some (row_for id newest "requeued"), after)))
    planned_or_requeued newest over dead true dry = planned newest over dead dry
    planned_or_requeued newest over dead false wet = requeue-Requeues newest over dead wet

    settle_dead-Requeues :
        (rows : List Attempt)
        → Complete
        → ledger_attempts is_decimal like id s ≡ rows
        → Requeues (settle_dead is_decimal now dry_run key id task rows board s)
    unfolding settle_dead
    settle_dead-Requeues [] complete e = left_alone (inl e)
    settle_dead-Requeues (newest ∷ rest) complete e =
        elim (Bool-cases (any (λ (r : Attempt). is_active r.state) (newest ∷ rest))) [
          | inl busy ↦ rw busy (left_alone (inr (rw e busy)))
          | inr quiet ↦
              let over = rows-IsOver newest rest complete e quiet in
              elim (Bool-cases (is_done newest.state)) [
                | inl done ↦ rw (quiet, done) (reported newest over done)
                | inr undone ↦
                    let dead =
                      finished_dead newest.state (active_head newest.state _ quiet) undone in
                    rw (quiet, undone, dead) (planned_or_requeued newest over dead dry_run refl)
              ]
        ]

-- A stranded task is requeued, and no other. On each branch `requeue_dead` does what it reports:
-- without a ledger attempt of the task, or with an active one, it leaves the board and the ledger as
-- they are; where the newest attempt is completed or accepted it reports that and changes nothing;
-- where it failed or was abandoned, a dry run reports the requeue and changes nothing, and otherwise
-- the task's file is made ready and one event names the attempt, unless the changed task is invalid,
-- which raises. In all but the first case the attempt is stored, no attempt that the ledger named after
-- the task is active, and none of them was updated later; the database's LIKE is to match every text
-- that begins with the prefix.
pub requeue_dead_stranded :
    (is_decimal : ℕ → Bool) (like : String → String → Bool) (id : String) (s : State) (now : ℕ)
    (dry_run : Bool) (key : String) (task : Dict) (board : Board)
    → ((p t : String) → has_prefix (codes t) (codes p) ≡ true → like p t ≡ true)
    → Requeues is_decimal like id s now dry_run key task board
        (requeue_dead is_decimal like now dry_run key id task board s)
unfolding requeue_dead
requeue_dead_stranded is_decimal like id s now dry_run key task board complete =
    settle_dead-Requeues is_decimal like id s now dry_run key task board
      (ledger_attempts is_decimal like id s) complete refl
