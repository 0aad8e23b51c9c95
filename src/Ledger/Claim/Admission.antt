-- ===== src/Ledger/Claim/Admission.antt =====
-- What a successful `claim` has checked and written, as one record that its theorems read.
use inference_grid.Prelude.{
  ℕ, String, false, not, ◌≡◌, refl, ◌+◌, some, ◌==◌, leb, any, length, where_rows,
}
use inference_grid.Value.{Value, Dict}
use inference_grid.Result.{ok, Ensures, gives, then_bind, then_check, then_read, then_unless}
use inference_grid.Ledger.State.{
  Quota, Account, Alias, Task, State, Clock, account_row, alias_row, task_row, item, text_item,
  has_model, same_keys,
}
use inference_grid.Ledger.Claim.{
  claim, positive_quota, inference_paused, check_windows, holds_account, holds_workspace,
  admitted_attempt, admit,
}

pub record Admission (clock : Clock) (aid task alias : String) (estimate_in : Dict) (s : State)
    (out : (String × ℕ) × State) : Type 0 where
  pub estimate : Quota
  pub binding : Alias
  pub job : Task
  pub workspace : String
  pub acct : Account
  pub model : Value
  pub positive : positive_quota estimate_in ≡ ok estimate
  pub known_alias : alias_row alias s ≡ some binding
  pub known_task : task_row task s ≡ some job
  pub workspace_of : text_item "workspace" job.spec ≡ ok workspace
  pub known_account : account_row binding.account s ≡ some acct
  pub not_paused : inference_paused (clock.time 0) binding.account s ≡ false
  pub unexpired : leb acct.expires (clock.time 1) ≡ false
  pub model_of : item "model" job.spec ≡ ok model
  pub eligible : not (has_model model acct) ≡ false
  pub unattempted : any (λ r. r.task == task) s.attempts ≡ false
  pub workspace_free : any (holds_workspace workspace) s.attempts ≡ false
  pub slot_free :
      leb acct.capacity (length (where_rows (holds_account binding.account) s.attempts)) ≡ false
  pub all_windows : not (same_keys estimate acct.windows) ≡ false
  pub fits :
      check_windows clock estimate acct.windows
        (where_rows (holds_account binding.account) s.attempts)
      ≡ ok tt
  pub new_id : any (λ r. r.id == aid) s.attempts ≡ false
  pub result : out ≡ (
    (aid, acct.generation + 1),
    admit clock
        (admitted_attempt aid task binding.account
          (acct.generation + 1)
          estimate
          workspace
          (clock.time 2))
        s,
  )

pub claim-Admission :
    (clock : Clock) (aid task alias : String) (estimate_in : Dict) (s : State)
    → Ensures
        (Admission clock aid task alias estimate_in s)
        (claim clock aid task alias estimate_in s)
unfolding claim
claim-Admission clock aid task alias estimate_in s = then_bind _ λ estimate positive.
    then_read _ _ λ binding known_alias. then_read _ _ λ job known_task.
      then_bind _ λ workspace workspace_of. then_read _ _ λ acct known_account.
        then_unless _ _ λ not_paused. then_unless _ _ λ unexpired. then_bind _ λ model model_of.
          then_unless _ _ λ eligible. then_unless _ _ λ unattempted.
            then_unless _ _ λ workspace_free. then_unless _ _ λ slot_free.
              then_unless _ _ λ all_windows. then_check _ λ fits. then_unless _ _ λ new_id.
                gives (record {
                  estimate = estimate;
                  binding = binding;
                  job = job;
                  workspace = workspace;
                  acct = acct;
                  model = model;
                  positive = positive;
                  known_alias = known_alias;
                  known_task = known_task;
                  workspace_of = workspace_of;
                  known_account = known_account;
                  not_paused = not_paused;
                  unexpired = unexpired;
                  model_of = model_of;
                  eligible = eligible;
                  unattempted = unattempted;
                  workspace_free = workspace_free;
                  slot_free = slot_free;
                  all_windows = all_windows;
                  fits = fits;
                  new_id = new_id;
                  result = refl;
                })
