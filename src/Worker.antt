-- ===== src/Worker.antt =====
-- src/inference_grid/worker.py: `execute`, one attempt's adapter process from start to settlement.
pub mod Supervision
pub mod Settlement
use inference_grid.Prelude.{
  ℕ, zero, suc, String, Bool, true, false, not, ◌||◌, ◌&&◌, ◌+◌, ◌*◌, Option, none, some, List, [],
  ◌∷◌, ◌==◌, ltb, leb, eqb, if◌then◌else◌, is_empty,
}
use inference_grid.Prelude.Int.{pos, pos_part}
use inference_grid.Prelude.Text.{join}
use inference_grid.Value.{
  Value, obj, str, Dict, as_dict, as_list, as_str, as_int, get?, get_value, or_else, no_fields,
  value_eq, is_str, one,
}
use inference_grid.Result.{
  Error, Result, ok, raised, refused, type_error, out_of_fuel, ◌>>=◌, ◌>>◌, raise_if, or_raise,
}
use inference_grid.Receipts.{safe_path, validate_receipt}
use inference_grid.Ledger.State.{Attempt, State, Clock, Env, item, text_item}
use inference_grid.Ledger.Dispatch.{start, hold, finish}
use inference_grid.Ledger.Calls.{Call, run}

-- One look at the process: whether it exited, time.monotonic(), and the bytes of its output files.
pub record Poll : Type 0 where
  pub exited : Bool
  pub now : ℕ
  pub bytes : ℕ

-- The operating system, as far as `execute` asks it. `describe` is the exception's class name and its
-- text, cut at 500 characters; `succeeded` is a return code of 0; `stop_again` is the `finally` clause's.
pub record Host : Type 0 where
  pub make_directory : String → String → Result (Unit {0})
  pub locate_input : Value → String → Result (Unit {0})
  pub input_digest : Value → String → Result String
  pub write_input : String → Result (Unit {0})
  pub launch : List Value → Result (Unit {0})
  pub begun : ℕ
  pub poll : ℕ → Poll
  pub stop_group : Result (Unit {0})
  pub stop_again : Result (Unit {0})
  pub succeeded : Bool
  pub final_bytes : ℕ
  pub receipt : Result Value
  pub locate_artifact : String → Result (Unit {0})
  pub artifact_bytes : String → Result ℕ
  pub artifact_digest : String → Result String
  pub describe : Error → String

module _ (host : Host) where
  -- The loop over the manifest.
  unfoldable pub stage_inputs : Dict → Dict → Result (Unit {0})
  unfolding safe_path
  stage_inputs spec [] = ok tt
  stage_inputs spec ((name, expected) ∷ manifest) = do
    root ← item "input_root" spec
    raise_if (not (safe_path (str name))) (refused "unsafe relative path")
    host.locate_input root name
    digest ← host.input_digest root name
    raise_if (not (is_str digest expected)) (refused "input content changed")
    host.write_input name
    stage_inputs spec manifest

  -- The `while not exited_without_reaping(proc)` loop, from poll `i`; `fuel` bounds its rounds.
  unfoldable pub supervise : ℕ → ℕ → ℕ → ℕ → Result (Unit {0})
  supervise zero i deadline cap = raised out_of_fuel
  supervise (suc fuel) i deadline cap =
      let rest = supervise fuel (i + 1) deadline cap in
      if (host.poll i).exited
      then ok tt
      else if leb deadline (host.poll i).now
      then raised (refused "timeout: provider acceptance may be ambiguous")
      else if ltb cap (host.poll i).bytes
      then raised (refused "output limit exceeded")
      else rest

  -- The loop over the receipt's artifacts.
  unfoldable pub check_artifacts : ℕ → List Value → Result (Unit {0})
  unfolding safe_path
  check_artifacts cap [] = ok tt
  check_artifacts cap (v ∷ vs) = do
    d ← or_raise (as_dict v) type_error
    named ← item "path" d
    raise_if (not (safe_path named)) (refused "unsafe relative path")
    path ← or_raise (as_str named) type_error
    host.locate_artifact path
    size ← host.artifact_bytes path
    raise_if (ltb cap size) (refused "artifact size exceeds limit")
    digest ← host.artifact_digest path
    expected ← item "sha256" d
    raise_if (not (is_str digest expected)) (refused "artifact content mismatch")
    check_artifacts cap vs

  -- From the workspace to the running process.
  unfoldable pub prepare : Env → String → Dict → Result (Unit {0})
  unfolding stage_inputs value_eq
  prepare env aid spec = do
    workspace ← text_item "workspace" spec
    host.make_directory workspace aid
    let given = or_else (get? "inputs" spec) (obj no_fields)
    expected ← item "manifest_sha256" spec
    raise_if (not (value_eq (str (env.digest given)) expected)) (refused "input manifest changed")
    manifest ← or_raise (as_dict given) type_error
    stage_inputs spec manifest
    model ← item "model" spec
    given_argv ← item "argv" spec
    argv ← or_raise (as_list given_argv) type_error
    host.launch argv

  abbrev pub count_item : String → Dict → Result ℕ
  count_item k spec = do v ← item k spec; n ← or_raise (as_int v) type_error; ok (pos_part n)

  -- The process until its group is stopped; the deadline is the launch and the timeout.
  unfoldable pub watch : ℕ → Dict → Result (Unit {0})
  unfolding supervise one
  watch fuel spec = do
    seconds ← count_item "timeout" spec
    cap ← count_item "output_bytes" spec
    supervise fuel 0 (host.begun + seconds * one) cap
    host.stop_group

  -- From the stopped process to a receipt whose artifacts are there.
  unfoldable pub inspect : Dict → Result Value
  unfolding check_artifacts
  inspect spec = do
    cap ← count_item "output_bytes" spec
    raise_if (not host.succeeded) (refused "adapter exited without a successful terminal receipt")
    raise_if (ltb cap host.final_bytes) (refused "output limit exceeded")
    receipt ← host.receipt
    model ← item "model" spec
    manifest ← item "manifest_sha256" spec
    let errors = validate_receipt receipt model manifest
    raise_if (not (is_empty errors)) (refused (join "; " errors))
    d ← or_raise (as_dict receipt) type_error
    listed ← item "artifacts" d
    artifacts ← or_raise (as_list listed) type_error
    check_artifacts cap artifacts
    ok receipt

  -- What the `try` block does before it calls the ledger again.
  unfoldable pub work : Env → ℕ → String → Dict → Result Value
  unfolding prepare watch inspect
  work env fuel aid spec = do prepare env aid spec; watch fuel spec; inspect spec

  -- The process was launched, and its group is not known to be stopped.
  unfoldable pub is_running : Env → ℕ → String → Dict → Bool
  unfolding prepare watch
  is_running env fuel aid spec = elim (prepare env aid spec) [
    | raised e ↦ false
    | ok u ↦ elim (watch fuel spec) [ ok u' ↦ false | raised e ↦ true ]
  ]

  -- The `finally` clause: an exception of its own replaces the answer, not the tables.
  abbrev pub cleaned : Bool → String → Result String
  cleaned false answer = ok answer
  cleaned true answer = host.stop_again >>= λ _. ok answer

  -- `ledger.finish`, or the hold of any exception.
  unfoldable pub settle : Env → Clock → String → ℕ → Result Value → State → String × State
  unfolding hold
  settle env clock aid generation (raised e) s = ("held", hold clock aid (host.describe e) s)
  settle env clock aid generation (ok receipt) s =
      elim (finish env clock aid generation receipt s) [
        | ok (_, s') ↦ ("completed", s')
        | raised e ↦ ("held", hold clock aid (host.describe e) s)
      ]

  -- The answer, and the tables; `others` are the calls that the ledger serves while the process runs.
  unfoldable pub execute :
      Env → ℕ → Clock → Clock → List (Clock × Call) → String → ℕ → State → Result String × State
  unfolding start run settle work is_running
  execute env fuel clock clock' others aid generation s = elim (start clock aid generation s) [
    | raised e ↦ (raised e, s)
    | ok (none, s') ↦ (ok "duplicate_or_stale", s')
    | ok (some (row, spec), s') ↦
        let (answer, settled) =
          settle env clock' aid generation (work env fuel aid spec) (run env others s') in
        (cleaned (is_running env fuel aid spec) answer, settled)
  ]
