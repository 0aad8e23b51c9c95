-- ===== src/Collector/Response.antt =====
-- src/inference_grid/collector.py and quota_status.py: what `collect` makes of the collector's answer.
use inference_grid.Prelude.{
  ℕ, String, Bool, true, false, not, ◌&&◌, ◌||◌, Option, none, some, List, ltb, leb, eqb,
  if◌then◌else◌,
}
use inference_grid.Prelude.Int.{ℤ, pos, negsuc, leb_ℤ, pos_part}
use inference_grid.Value.{
  Value, as_number, as_int, as_dict, get_value, is_finite, amount, is_str, is_null,
}
use inference_grid.Result.{Result, ok, raised, value_error, refused}
use inference_grid.Ledger.State.{State, Clock, time_value}
use inference_grid.Ledger.Cooldowns.{defer}
use inference_grid.Observation.{Observed, normalize_observation}
use inference_grid.RetryAfter.{Floats, retry_deadline}
use inference_grid.Collector.{Grid, settle_collection}

-- `CollectionResponse`.
pub record Response : Type 0 where
  pub status : Value
  pub observation : Value
  pub retry_after : Value
  pub received_at : Value

-- How the call of the collector ends.
pub data Reply : Type 0 where
  call_failed not_a_response : Reply
  replied : Response → Reply

pub data Action : Type 0 where
  to_validate to_cool_down auth_required transient_error http_error : Action

-- Of an integer status.
abbrev pub action_of : ℤ → Option Action
action_of (negsuc n) = none
action_of (pos n) =
    if not (leb 100 n && leb n 599)
    then none
    else if eqb n 200
    then some to_validate
    else if eqb n 429
    then some to_cool_down
    else if eqb n 401 || eqb n 403
    then some auth_required
    else (if leb 500 n then some transient_error else some http_error)

-- `classify_quota_status`; none is its ValueError.
unfoldable pub classify_quota_status : Value → Option Action
classify_quota_status v = elim (as_int v) [ none ↦ none | some n ↦ action_of n ]

pub record CollectAnswer : Type 0 where
  pub answered : String
  pub observed : Option Observed
  pub until : Option ℕ

abbrev pub plain : String → CollectAnswer
plain status = record { answered = status; observed = none; until = none }

-- What the work leaves: a claim that nobody settles, or an answer with which it is settled.
pub data Handled : Type 0 where
  abandoned_claim : State → Handled
  answered_with : CollectAnswer → State → Handled

-- `_number(received) and now <= received <= finished`: the instant.
unfoldable pub receipt_time : ℕ → ℕ → Value → Option ℕ
unfolding is_finite amount
receipt_time now finished v = elim (is_null v) [
  | true ↦ if leb now finished then some finished else none
  | false ↦ elim (as_number v) [
    | none ↦ none
    | some n ↦ elim (is_finite n) [
      | none ↦ none
      | some usable ↦ elim (amount n) [
        | none ↦ none
        | some q ↦
            if usable && (leb_ℤ (pos now) q && leb_ℤ q (pos finished))
            then some (pos_part q)
            else none
      ]
    ]
  ]
]

abbrev pub is_cool_down : Action → Bool
is_cool_down to_cool_down = true
is_cool_down _ = false

abbrev pub action_text : Action → String
action_text to_validate = "validate"
action_text to_cool_down = "cooldown"
action_text auth_required = "auth_required"
action_text transient_error = "transient_error"
action_text http_error = "http_error"

-- The status that an observation reports of itself, where it is unknown or an error.
abbrev pub observed_failure : Value → Option String
observed_failure v = elim (as_dict v) [
  | none ↦ none
  | some d ↦
      if is_str "unknown" (get_value "status" d)
      then some "unknown"
      else (if is_str "error" (get_value "status" d) then some "provider_error" else none)
]

-- A normalizer that raises: its ValueError is an invalid observation.
abbrev pub observation_answer : Result Observed → CollectAnswer
observation_answer (ok o) = record { answered = "observation"; observed = some o; until = none }
observation_answer (raised (value_error m)) = plain "invalid_observation"
observation_answer (raised (refused m)) = plain "invalid_observation"
observation_answer (raised e) = plain "collector_error"

module _ (iso : String → Option (Option ℤ)) where
  -- The branch of a good status.
  unfoldable pub validated : Value → ℕ → CollectAnswer
  unfolding normalize_observation
  validated observation finished =
      if is_null observation
      then plain "response_ok_unvalidated"
      else (elim (observed_failure observation) [
        | some status ↦ plain status
        | none ↦ observation_answer (normalize_observation iso observation finished)
      ])

abbrev pub deferred : Result ((String × ℕ) × State) → State → Handled
deferred (ok ((account, until), s)) before =
    answered_with (record { answered = "cooldown"; observed = none; until = some until }) s
deferred (raised e) before = abandoned_claim before

module _ (fl : Floats) (http_date : List ℕ → Option ℤ) where
  -- The branch of a 429: no error in it settles the claim.
  unfoldable pub cool_down : Clock → String → ℕ → ℕ → Value → State → Handled
  unfolding retry_deadline defer
  cool_down clock account received fallback retry_after s =
      elim (retry_deadline fl http_date retry_after received fallback) [
        | raised e ↦ abandoned_claim s
        | ok until ↦ deferred (defer clock account "usage" (time_value until) s) s
      ]

-- The last transaction, and what `collect` returns.
unfoldable pub settle_handled : String → String → Handled → Grid → CollectAnswer × Grid
unfolding settle_collection
settle_handled account token (abandoned_claim s) g =
    (plain "reconciliation_required", record g { tables = s })
settle_handled account token (answered_with a s) g =
    let out = settle_collection account token a.answered (record g { tables = s }) in
    (if out.0 then a else plain "reconciliation_required", out.1)

module _ (fl : Floats) (http_date : List ℕ → Option ℤ) (iso : String → Option (Option ℤ)) where
  unfoldable pub handle_action :
      Clock → String → ℕ → ℕ → ℕ → ℕ → Response → Action → State → Handled
  unfolding receipt_time cool_down validated
  handle_action clock account now deadline finished fallback r action s =
      elim (receipt_time now finished r.received_at) [
        | none ↦
            if is_cool_down action
            then abandoned_claim s
            else answered_with (plain "invalid_response_time") s
        | some received ↦
            if is_cool_down action
            then cool_down fl http_date clock account received fallback r.retry_after s
            else if ltb deadline finished
            then answered_with (plain "deadline_exceeded") s
            else (elim action [
              | to_validate ↦ answered_with (validated iso r.observation finished) s
              | other ↦ answered_with (plain (action_text other)) s
            ])
      ]

  unfoldable pub handle_reply : Clock → String → ℕ → ℕ → ℕ → ℕ → Reply → State → Handled
  unfolding handle_action classify_quota_status
  handle_reply clock account now deadline finished fallback call_failed s =
      answered_with (plain "collector_error") s
  handle_reply clock account now deadline finished fallback not_a_response s =
      answered_with (plain "invalid_response") s
  handle_reply clock account now deadline finished fallback (replied r) s =
      elim (classify_quota_status r.status) [
        | none ↦ answered_with (plain "collector_error") s
        | some action ↦ handle_action clock account now deadline finished fallback r action s
      ]

  -- `collect` behind its first transaction, which was at `now`.
  unfoldable pub finish_collection :
      Clock → String → String → ℕ → ℕ → ℕ → ℕ → Reply → Grid → CollectAnswer × Grid
  unfolding handle_reply settle_handled
  finish_collection clock account token now deadline finished fallback reply g =
      settle_handled account token
        (handle_reply clock account now deadline finished fallback reply g.tables) g
