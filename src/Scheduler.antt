-- ===== src/Scheduler.antt =====
-- src/inference_grid/scheduler.py: `tick` admits the tasks that no attempt names, by priority.
pub mod Order
pub mod History
use inference_grid.Prelude.{
  ℕ, zero, suc, String, Bool, true, false, not, ◌||◌, ◌&&◌, Option, none, some, List, [], ◌∷◌, ◌++◌,
  ◌==◌, if◌then◌else◌, any, where_rows, is_empty, ◌+◌,
}
use inference_grid.Prelude.Int.{ℤ, pos, ltb_ℤ, eqb_ℤ}
use inference_grid.Prelude.Text.{text_leb}
use inference_grid.Value.{
  Value, null, str, obj, arr, no_fields, no_items, num, int, Dict, as_str, as_dict, as_list, as_int,
  get?, get_value, or_else, dict,
}
use inference_grid.Result.{
  Result, ok, raised, refused, type_error, key_error, Error, ◌>>=◌, ◌>>◌, or_raise,
}
use inference_grid.Aliases.{canonical_account}
use inference_grid.Ledger.State.{Task, Attempt, State, Clock, tx, item, text_item}
use inference_grid.Ledger.Claim.{claim}

-- `tasks where id not in (select task from attempts)`.
unfoldable pub pending : State → List Task
pending s = where_rows (λ t. not (any (λ r. r.task == t.id) s.attempts)) s.tasks

-- `spec.get("priority", 100)`, which `submit` admits as an int only.
unfoldable pub priority_of : Task → Result ℤ
priority_of t =
    or_raise (as_int (or_else (get? "priority" t.spec) (num (int (pos 100))))) type_error

-- The sort key of a task, and the order of two keys.
abbrev pub Keyed : Type 0
Keyed = ℤ × Task

unfoldable pub keyed : List Task → Result (List Keyed)
unfolding priority_of
keyed [] = ok []
keyed (t ∷ ts) = do p ← priority_of t; rest ← keyed ts; ok ((p, t) ∷ rest)

unfoldable pub key_leb : Keyed → Keyed → Bool
key_leb (p, t) (q, u) = ltb_ℤ p q || (eqb_ℤ p q && text_leb t.id u.id)

-- `list.sort`, as an insertion sort: ids differ, so every sort gives the same list.
unfoldable pub insert : Keyed → List Keyed → List Keyed
unfolding key_leb
insert x [] = x ∷ []
insert x (y ∷ ys) = let rest = insert x ys in if key_leb x y then x ∷ y ∷ ys else y ∷ rest

unfoldable pub sort : List Keyed → List Keyed
unfolding insert
sort [] = []
sort (x ∷ xs) = insert x (sort xs)

pub data Outcome : Type 0 where
  queued : String → String → ℕ → Outcome
  blocked : String → List String → Outcome

-- The source of attempt ids and clocks: one of each for every call of `claim`.
pub record Supply : Type 0 where
  pub next_id : ℕ → String
  pub next_clock : ℕ → Clock

-- One candidate: the canonical alias, then the claim.
unfoldable pub try_candidate : Supply → ℕ → Task → Dict → State → Result ((String × ℕ) × State)
try_candidate supply i task candidate s = do
  account ← item "account" candidate
  alias ← canonical_account account (or_else (get? "account_aliases" task.spec) (obj no_fields))
  estimate_in ← item "estimate" candidate
  estimate ← or_raise (as_dict estimate_in) type_error
  claim (supply.next_clock i) (supply.next_id i) task.id alias estimate s

abbrev blocked_reasons : List String → List String
blocked_reasons [] = "no authorized candidates" ∷ []
blocked_reasons (reason ∷ reasons) = reason ∷ reasons

-- The candidate loop of a task: the first admission ends it, a refusal is noted, and any other
-- exception leaves `tick`. The count is that of the claims made so far.
unfoldable pub try_candidates :
    Supply → ℕ → Task → List String → List Value → State → Result Outcome × ℕ × State
try_candidates supply i task reasons [] s = (ok (blocked task.id (blocked_reasons reasons)), i, s)
try_candidates supply i task reasons (c ∷ cs) s =
    elim (or_raise (as_dict c) type_error >>= λ d. try_candidate supply i task d s) [
      | ok ((aid, gen), s') ↦ (ok (queued task.id aid gen), i + 1, s')
      | raised (refused reason) ↦ try_candidates supply (i + 1) task (reasons ++ reason ∷ []) cs s
      | raised e ↦ (raised e, i + 1, s)
    ]

abbrev candidates_of : Task → List Value
candidates_of t = or_else (as_list (or_else (get? "candidates" t.spec) (arr no_items))) []

unfoldable pub tick_each :
    Supply → ℕ → List Outcome → List Keyed → State → Result (List Outcome) × State
tick_each supply i outcomes [] s = (ok outcomes, s)
tick_each supply i outcomes ((_, t) ∷ ts) s =
    let (outcome, j, s') = try_candidates supply i t [] (candidates_of t) s in
    elim outcome [
      | raised e ↦ (raised e, s')
      | ok o ↦ tick_each supply j (outcomes ++ o ∷ []) ts s'
    ]

-- The outcomes, or the exception that ended the tick, and the tables behind the claims it made.
unfoldable pub tick : Supply → State → Result (List Outcome) × State
unfolding pending keyed sort tick_each
tick supply s = elim (keyed (pending s)) [
  | raised e ↦ (raised e, s)
  | ok tasks ↦ tick_each supply 0 [] (sort tasks) s
]
