-- ===== src/Tests/Parts.antt =====
-- The theorems on submissions, observations, cooldowns and the ledger's surroundings, on examples.
use inference_grid.Prelude.{
  String, true, ◌≡◌, ◌≢◌, refl, none, some, List, [], ◌∷◌, ◌*◌, arith, ◌+◌,
}
use inference_grid.Prelude.Int.{ℤ, pos}
use inference_grid.Value.{
  Value, Dict, null, bool, num, str, obj, of_dict, one, float, nan, arr, of_items,
}
use inference_grid.Result.{ok, raised, refused, Error}
use inference_grid.Receipts.{validate_receipt}
use inference_grid.Receipts.Laws.{IsReceipt, validate_receipt_iff}
use inference_grid.Aliases.{canonical_account}
use inference_grid.Aliases.Walk.{Walked, canonical_account-Walked}
use inference_grid.LaneReadiness.{
  LaneFacts, Readiness, lane_readiness, auth_ok, qualified, ready, read_lane, number_amount,
}
use inference_grid.LaneReadiness.Precedence.{IsOpen, IsReadyAt, lane_readiness-ready}
use inference_grid.Scheduler.{Supply, keyed, pending, tick, Keyed, priority_of}
use inference_grid.Scheduler.History.{Ticked, is_ok, tick-Ticked}
use inference_grid.Scheduler.Order.{IsQueue}
use inference_grid.Ledger.State.{State, Clock}
use inference_grid.Ledger.Claim.{claim}
use inference_grid.Ledger.Calls.{Call, perform, initial}
use inference_grid.Ledger.Cooldowns.Deadlines.{deferred_unclaimed}
use inference_grid.Ledger.Configure.Observations.{IsConfigured, configure_account-IsConfigured}
use inference_grid.Ledger.Submit.Once.{IsSubmitted, submit-IsSubmitted}
use inference_grid.Ledger.Outcomes.{Outcome, record_external}
use inference_grid.Ledger.Outcomes.External.{IsCommitted, record_external_half_done}
use inference_grid.Tests.Scenario.{
  program, at, env, digest_text, whole, reading, estimate, spec, receipt, configured, submitted,
}

configure_account-IsConfigured_example :
    IsConfigured env (at 1) "acct" reading (whole 1) initial configured
unfolding program
configure_account-IsConfigured_example =
    configure_account-IsConfigured env (at 1) "acct" reading [] (whole 1) initial configured refl

submit-IsSubmitted_example : IsSubmitted env "t1" "p" spec configured (tt, submitted)
unfolding program
submit-IsSubmitted_example = submit-IsSubmitted env "t1" "p" spec configured (tt, submitted) refl

abbrev deferred : State
deferred = perform env (at 3) (Call.defers "acct" "inference" (whole 50)) submitted

deferred_unclaimed_example :
    claim (at 4) "a1" "t1" "acct" estimate deferred ≢ ok (("a1", 1), deferred)
unfolding program
deferred_unclaimed_example =
    deferred_unclaimed (at 3) (at 4) "a1" "t1" "acct" (whole 50) estimate submitted
      (("acct", 50 * one), deferred) (("a1", 1), deferred) refl (omega arith)

validate_receipt_iff_example :
    (validate_receipt receipt (str "m") (str digest_text) ≡ []
      → IsReceipt receipt (str "m") (str digest_text))
    × (IsReceipt receipt (str "m") (str digest_text)
        → validate_receipt receipt (str "m") (str digest_text) ≡ [])
validate_receipt_iff_example = validate_receipt_iff receipt (str "m") (str digest_text)

abbrev pairs : List (String × String)
pairs = ("work", "team") ∷ ("team", "acct") ∷ []

abbrev alias_dict : Dict
alias_dict = ("work", str "team") ∷ ("team", str "acct") ∷ []

canonical_account-Walked_example :
    Walked pairs "work" (canonical_account (str "work") (obj (of_dict alias_dict)))
unfolding program
canonical_account-Walked_example =
    canonical_account-Walked (str "work") (obj (of_dict alias_dict)) alias_dict pairs "work" refl
      refl refl

abbrev pub lane : Value
lane = obj (
    of_dict (
      ("provider", str "p")
      ∷ ("auth", str "ok")
      ∷ ("quota_observed_at", whole 10)
      ∷ ("quota_freshness_seconds", whole 60)
      ∷ ("used_percent_max", whole 20)
      ∷ ("admission_limit_percent", whole 80)
      ∷ ("cooldown_until", null)
      ∷ ("qualification", str "qualified")
      ∷ ("blocked_until", null)
      ∷ ("blocker", null)
      ∷ []))

abbrev lane_facts : LaneFacts
lane_facts = record {
  provider = "p";
  auth = auth_ok;
  quota_observed_at = some (pos (10 * one));
  quota_freshness_seconds = pos (60 * one);
  used_percent_max = some (pos (20 * one));
  admission_limit_percent = pos (80 * one);
  cooldown_until = none;
  qualification = qualified;
  blocked_until = none;
  blocker = none;
}

lane_readiness-ready_example :
    (r : Readiness) × (lane_readiness lane (whole 30) ≡ ok r)
    × (r.state ≡ ready → IsReadyAt lane_facts (pos (30 * one)) r)
    × ((observed : ℤ) → IsOpen lane_facts (pos (30 * one)) observed → r.state ≡ ready)
unfolding program read_lane number_amount
lane_readiness-ready_example =
    lane_readiness-ready lane (whole 30) lane_facts (pos (30 * one)) refl refl

abbrev supply : Supply
supply = record { next_id = λ i. "a1"; next_clock = λ i. at (3 + i) }

abbrev tasks : List Keyed
tasks = (pos 100, record { id = "t1"; project = "p"; spec = spec }) ∷ []

tick-Ticked_example :
    (queue : List Keyed) × IsQueue submitted queue
    × Ticked env supply (is_ok (tick supply submitted).0) queue submitted (tick supply submitted).1
unfolding program keyed pending priority_of
tick-Ticked_example = tick-Ticked env supply submitted tasks refl

abbrev external_spec : Dict
external_spec =
    ("authorized", bool true)
    ∷ ("model", str "m")
    ∷ ("family", str "f")
    ∷ ("argv", arr (of_items (str "worker" ∷ [])))
    ∷ ("workspace", str "/work/t2")
    ∷ ("account", str "acct")
    ∷ []

abbrev external_receipt : Value
external_receipt = obj (of_dict (("verified_in_lane", bool true) ∷ []))

-- An outcome whose usage holds a nan.
abbrev bad_outcome : Outcome
bad_outcome = record {
  category = str "code";
  accepted = bool true;
  usage = obj (of_dict (("tokens", num (float nan)) ∷ []));
  repairs = whole 0;
  note = null;
}

abbrev half_done : State
half_done =
    (record_external env (at 3) "x1" "t2" "p" external_spec external_receipt bad_outcome
      configured).1

abbrev usage_error : Error
usage_error = refused "usage must map names to finite nonnegative numbers or be absent"

record_external_half_done_example :
    (record_external env (at 3) "x1" "t2" "p" external_spec external_receipt bad_outcome configured
      ≡ (raised usage_error, half_done))
    × IsCommitted "x1" "t2" "p" half_done
    × ((clock' : Clock) (aid' project' : String) (spec' : Dict) (receipt' : Value) (o' : Outcome)
        → (record_external env clock' aid' "t2" project' spec' receipt' o' half_done).0 ≢ ok tt)
unfolding program
record_external_half_done_example =
    record_external_half_done env (at 3) "x1" "t2" "p" external_spec external_receipt bad_outcome
      configured half_done usage_error refl refl
