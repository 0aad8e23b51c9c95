-- ===== src/Ledger/Claim.antt =====
-- ledger.py, `inference_paused` (404-411) and `claim` (413-464): the admission of an attempt.
pub mod Admission
pub mod Reservation
use inference_grid.Prelude.{
  ℕ, String, Bool, true, false, not, ◌||◌, ◌&&◌, ◌+◌, Option, none, some, List, [], ◌∷◌, ◌==◌, ltb,
  leb, if◌then◌else◌, any, length, is_empty, where_rows, update_rows,
}
use inference_grid.Prelude.Int.{pos, ltb_ℤ, pos_part}
use inference_grid.Value.{Dict, null, str, Number, as_number, is_finite, amount, get?}
use inference_grid.Result.{
  Result, ok, raised, refused, overflow_error, no_result_found, key_error, integrity_error, ◌>>=◌,
  ◌>>◌, raise_if, or_raise,
}
use inference_grid.Ledger.State.{
  Quota, Account, Attempt, State, Clock, queued, is_active, reserved, same_keys, text_item, item,
  account_row, alias_row, task_row, has_model, cooldown_row, count_value, event,
}

-- One value of an estimate: a finite number above 0.
positive_amount : Number → Result ℕ
unfolding amount is_finite
positive_amount n = elim (is_finite n) [
  | none ↦ raised overflow_error
  | some usable ↦ elim (amount n) [
    | none ↦ raised (refused "positive quota estimates required")
    | some q ↦ do
      raise_if (not usable || not (ltb_ℤ (pos 0) q)) (refused "positive quota estimates required")
      ok (pos_part q)
  ]
]

pub positive_amounts : Dict → Result Quota
unfolding positive_amount
positive_amounts [] = ok []
positive_amounts ((k, v) ∷ d) = do
  n ← or_raise (as_number v) (refused "positive quota estimates required")
  q ← positive_amount n
  rest ← positive_amounts d
  ok ((k, q) ∷ rest)

unfoldable pub positive_quota : Dict → Result Quota
unfolding positive_amounts
positive_quota estimate = do
  raise_if (is_empty estimate) (refused "positive quota estimates required")
  positive_amounts estimate

unfoldable pub inference_paused : ℕ → String → State → Bool
inference_paused now account s = elim (cooldown_row account "inference" s) [
  | none ↦ false
  | some c ↦ ltb now c.until
]

-- The loop over the windows: what is reserved and the new cost fit in what remains.
unfoldable pub check_windows : Clock → Quota → Quota → List Attempt → Result (Unit {0})
check_windows clock [] windows shared = ok tt
check_windows clock ((window, cost) ∷ estimate) windows shared = do
  remaining ← or_raise (get? window windows) key_error
  raise_if (ltb remaining (clock.plus (reserved clock window shared) cost))
      (refused "insufficient quota")
  check_windows clock estimate windows shared

-- The rows that hold a reservation on an account.
abbrev pub holds_account : String → Attempt → Bool
holds_account account r = is_active r.state && (r.account == account)

abbrev pub holds_workspace : String → Attempt → Bool
holds_workspace workspace r = is_active r.state && (r.workspace == workspace)

abbrev pub admitted_attempt : String → String → String → ℕ → Quota → String → ℕ → Attempt
admitted_attempt aid task account gen estimate workspace now = record {
  id = aid;
  task = task;
  account = account;
  generation = gen;
  state = queued;
  estimate = estimate;
  workspace = workspace;
  receipt = null;
  reason = null;
  updated = now;
}

-- What the transaction writes: the account's generation, the attempt and its event.
abbrev pub admit : Clock → Attempt → State → State
admit clock r s =
    event (clock.time 3) (some r.id) "admitted" (("generation", count_value r.generation) ∷ [])
      (record s {
        accounts =
            update_rows (λ a. a.id == r.account) (λ a. record a { generation = r.generation })
              s.accounts;
        attempts = r ∷ s.attempts;
      })

-- `aid` is the fresh uuid; the table's primary key refuses one that is taken.
unfoldable pub claim :
    Clock → String → String → String → Dict → State → Result ((String × ℕ) × State)
unfolding inference_paused
claim clock aid task alias estimate_in s = do
  estimate ← positive_quota estimate_in
  binding ← or_raise (alias_row alias s) (refused "unknown task or account")
  job ← or_raise (task_row task s) (refused "unknown task or account")
  workspace ← text_item "workspace" job.spec
  acct ← or_raise (account_row binding.account s) no_result_found
  raise_if (inference_paused (clock.time 0) binding.account s)
      (refused "provider inference cooldown active")
  raise_if (leb acct.expires (clock.time 1)) (refused "quota stale or model ineligible")
  model ← item "model" job.spec
  raise_if (not (has_model model acct)) (refused "quota stale or model ineligible")
  raise_if (any (λ r. r.task == task) s.attempts)
      (refused "task already attempted; explicit new task required")
  raise_if (any (holds_workspace workspace) s.attempts) (refused "workspace busy")
  let shared = where_rows (holds_account binding.account) s.attempts
  raise_if (leb acct.capacity (length shared)) (refused "account busy")
  raise_if (not (same_keys estimate acct.windows)) (refused "all quota windows must be reserved")
  check_windows clock estimate acct.windows shared
  raise_if (any (λ r. r.id == aid) s.attempts) integrity_error
  let gen = acct.generation + 1
  let r = admitted_attempt aid task binding.account gen estimate workspace (clock.time 2)
  ok ((aid, gen), admit clock r s)
