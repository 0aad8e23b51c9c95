-- ===== src/Tests/Scenario.antt =====
-- One account, one task and the calls that take it from submission to acceptance.
use inference_grid.Prelude.{ℕ, String, true, List, [], ◌∷◌, ◌+◌, ◌*◌}
use inference_grid.Prelude.Int.{pos, ◌+ℤ◌, ◌-ℤ◌}
use inference_grid.Value.{
  Value, int, Dict, null, bool, num, str, arr, obj, of_dict, of_items, one, quanta_of_int,
  float_limit, is_finite, amount, value_eq, dict_eq,
}
use inference_grid.Result.{chain}
use inference_grid.Receipts.{
  has_drive, is_plain_part, safe_codes, safe_path, sha256, check_path, artifact_errors,
  header_errors, validate_receipt,
}
use inference_grid.Aliases.{valid_id, alias_map, follow, canonical_account}
use inference_grid.Ledger.State.{State, Clock, Env, reserved, same_keys, event}
use inference_grid.Ledger.Claim.{positive_quota, inference_paused, check_windows, claim}
use inference_grid.Ledger.Dispatch.{over_budget, admission_lost, start_row, start, hold, finish}
use inference_grid.Ledger.Resolve.{
  is_machine, bounded_text, resolution, settle_quota, resolve, accept,
}
use inference_grid.Ledger.Submit.{
  argv_head, check_submission, absolute_path, check_workspace, timeout_bound, check_timeout,
  candidate_account, check_candidates, check_inputs, check_spec, store_once, submit,
}
use inference_grid.Ledger.Outcomes.{
  check_usage, record_outcome, is_elapsed, insert_external, record_external,
}
use inference_grid.Ledger.Cooldowns.{valid_deadline, store_deadline, defer}
use inference_grid.Ledger.Configure.{
  Reading, finite_amount, window_amounts, observation_time, check_reading, snapshot, less_completed,
  observation_row, store_reading, check_previous, bind_aliases, configure_account,
}
use inference_grid.Ledger.Calls.{Call, perform, run, initial}

-- The sum of amounts, where no float rounds it.
total_of : List ℕ → ℕ
total_of [] = 0
total_of (n ∷ ns) = n + total_of ns

-- A clock that stands at a number of seconds.
unfoldable pub at : ℕ → Clock
unfolding one total_of
at seconds = record { time = λ i. seconds * one; total = total_of; plus = ◌+◌ }

-- The definitions that a test computes.
unfoldable pub program : Unit {0}
unfolding chain one quanta_of_int float_limit is_finite amount value_eq dict_eq has_drive
    is_plain_part safe_codes safe_path sha256 check_path artifact_errors header_errors
    validate_receipt valid_id alias_map follow canonical_account reserved same_keys event
    positive_quota inference_paused check_windows claim over_budget admission_lost start_row start
    hold finish is_machine bounded_text resolution settle_quota resolve accept argv_head
    check_submission absolute_path check_workspace timeout_bound check_timeout candidate_account
    check_candidates check_inputs check_spec store_once submit check_usage record_outcome is_elapsed
    insert_external record_external valid_deadline store_deadline defer finite_amount window_amounts
    observation_time check_reading snapshot less_completed observation_row store_reading
    check_previous bind_aliases configure_account perform run at total_of ◌+ℤ◌ ◌-ℤ◌
program = tt

abbrev pub digest_text : String
digest_text = "0123456789abcdef0123456789abcdef0123456789abcdef0123456789abcdef"

abbrev pub env : Env
env = record { digest = λ v. digest_text; resolve = λ p. p }

abbrev pub whole : ℕ → Value
whole n = num (int (pos n))

abbrev pub reading : Reading
reading = record {
  capacity = whole 1;
  windows = ("5h", whole 100) ∷ [];
  expires = int (pos 1000);
  models = str "m" ∷ [];
}

abbrev pub estimate : Dict
estimate = ("5h", whole 40) ∷ []

abbrev pub spec : Dict
spec =
    ("authorized", bool true)
    ∷ ("model", str "m")
    ∷ ("family", str "f")
    ∷ ("argv", arr (of_items (str "worker" ∷ [])))
    ∷ ("workspace", str "/work/t1")
    ∷ ("timeout", whole 60)
    ∷ ("manifest_sha256", str digest_text)
    ∷ ("output_bytes", whole 1000)
    ∷ (
      "candidates",
      arr (
          of_items (
            obj (of_dict (("account", str "acct") ∷ ("estimate", obj (of_dict estimate)) ∷ []))
            ∷ [])),
    )
    ∷ []

abbrev pub receipt : Value
receipt = obj (
    of_dict (
      ("status", str "completed")
      ∷ ("finish_reason", str "stop")
      ∷ ("actual_model", str "m")
      ∷ ("manifest_sha256", str digest_text)
      ∷ (
        "artifacts",
        arr (
            of_items
              (obj (of_dict (("path", str "out/a.txt") ∷ ("sha256", str digest_text) ∷ [])) ∷ [])),
      )
      ∷ []))

abbrev pub configured : State
configured = perform env (at 1) (Call.configures "acct" reading [] (whole 1)) initial

abbrev pub submitted : State
submitted = perform env (at 2) (Call.submits "t1" "p" spec) configured

abbrev pub claimed : State
claimed = perform env (at 3) (Call.claims "a1" "t1" "acct" estimate) submitted

abbrev pub started : State
started = perform env (at 4) (Call.starts "a1" 1) claimed

abbrev pub finished : State
finished = perform env (at 5) (Call.finishes "a1" 1 receipt) started

abbrev pub stuck : State
stuck = perform env (at 5) (Call.holds "a1" "worker lost") started

abbrev pub resolved : State
resolved =
    perform env (at 6) (Call.resolves "a1" (str "consumed") (str "seen") (str "alice") null) stuck

abbrev pub approved : State
approved =
    perform env (at 6) (Call.accepts "a1" (str digest_text) (str "g") (str "approved")) finished
