-- ===== src/Ledger/Submit/Once.antt =====
-- A task is written once: what `submit` (src/inference_grid/ledger.py) does the second time.
use inference_grid.Prelude.{
  String, Bool, true, false, not, ◌≡◌, refl, ◌==◌, ◌||◌, none, some, inl, inr, Option-cases,
}
use inference_grid.Value.{Dict, str, set_key, dict_eq}
use inference_grid.Result.{ok, Ensures, Ensures-ok, Ensures-map, gives, then_bind, then_unless}
use inference_grid.Ledger.State.{Task, State, Env, task_row}
use inference_grid.Ledger.Submit.{check_spec, store_once, store_task, submit}

-- What a submission leaves: a new row, or the tables as they were with the same task in them.
pub data IsWritten (task project : String) (spec : Dict) (s : State) : State → Type 0 where
  new : task_row task s ≡ none → IsWritten task project spec s (store_task task project spec s)
  same :
      {old : Task}
      → task_row task s ≡ some old
      → dict_eq old.spec spec ≡ true
      → (old.project == project) ≡ true
      → IsWritten task project spec s s

pub record IsSubmitted (env : Env) (task project : String) (spec : Dict) (s : State)
    (out : Unit {0} × State) : Type 0 where
  pub workspace : String
  pub valid : check_spec env task project spec ≡ ok workspace
  pub written :
      IsWritten task project (set_key "workspace" (str (env.resolve workspace)) spec) s out.1

record Written (task project : String) (spec : Dict) (s : State) (out : Unit {0} × State)
    : Type 0 where
  written : IsWritten task project spec s out.1

both_hold : (a b : Bool) → not a || not b ≡ false → (a ≡ true) × (b ≡ true)
both_hold true true h = (refl, refl)
both_hold true false h = cc
both_hold false b h = cc

store_once-Written :
    (task project : String) (spec : Dict) (s : State)
    → Ensures (Written task project spec s) (store_once task project spec s)
unfolding store_once
store_once-Written task project spec s = elim (Option-cases (task_row task s)) [
  | inl absent ↦ rw (absent, store_once) (gives (record { written = new absent }))
  | inr (old, found) ↦
      rw (found, store_once)
        (then_unless _ _ λ unchanged.
          let (spec_same, project_same) =
            both_hold (dict_eq old.spec spec) (old.project == project) unchanged in
          gives (record { written = same found spec_same project_same }))
]

-- A `submit` that returns had a spec that passes every check. It adds the task under a new name with
-- its resolved workspace, or found the same project and spec there and changes nothing: no stored
-- task is ever overwritten.
pub submit-IsSubmitted :
    (env : Env) (task project : String) (spec : Dict) (s : State) (out : Unit {0} × State)
    → submit env task project spec s ≡ ok out
    → IsSubmitted env task project spec s out
unfolding submit
submit-IsSubmitted env task project spec s out e =
    Ensures-ok {P = IsSubmitted env task project spec s}
      (then_bind _ λ workspace valid.
        Ensures-map
          (λ out' (w : Written _ _ _ _ out'). record {
            workspace = workspace;
            valid = valid;
            written = w.written;
          })
          (store_once-Written task project (set_key "workspace" (str (env.resolve workspace)) spec)
            s))
      e
