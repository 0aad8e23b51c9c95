-- ===== src/Ledger/Lanes.antt =====
-- ledger.py, `classifier_view` (137-141) and `record_lane` (576-597).
use inference_grid.Prelude.{
  ℕ, String, not, none, some, List, [], ◌∷◌, ◌==◌, if◌then◌else◌, update_rows, first,
}
use Prim.Native.String.{◌++◌}
use inference_grid.Value.{
  Value, str, obj, Dict, as_dict, is_str, get_value, dict, of_dict, has_name,
}
use inference_grid.Result.{
  Result, ok, raised, refused, value_error, ◌>>=◌, ◌>>◌, raise_if, or_raise,
}
use inference_grid.LaneReadiness.{
  Readiness, LaneState, blocked, cooling, stale, exhausted, not_qualified, unverified, ready,
  lane_readiness,
}
use inference_grid.Ledger.State.{State, Clock, time_value, event}

-- `LANE_RECORD_METADATA`.
abbrev lane_record_metadata : List String
lane_record_metadata = "unsupported_until" ∷ "raw_used_percent_max" ∷ []

abbrev without_metadata : Dict → Dict
without_metadata [] = []
without_metadata ((k, v) ∷ d) =
    let rest = without_metadata d in if has_name k lane_record_metadata then rest else (k, v) ∷ rest

-- The record without the keys that the classifier does not know.
unfoldable pub classifier_view : Value → Value
classifier_view (obj fs) = obj (of_dict (without_metadata (dict fs)))
classifier_view v = v

abbrev pub lane_state_text : LaneState → String
lane_state_text blocked = "blocked"
lane_state_text cooling = "cooling"
lane_state_text stale = "stale"
lane_state_text exhausted = "exhausted"
lane_state_text not_qualified = "unqualified"
lane_state_text unverified = "unverified"
lane_state_text ready = "ready"

-- `except ValueError as exc: raise Refused("invalid lane record: " + ...)`. The messages are short,
-- so the cut at 120 characters takes nothing off.
abbrev refuse_record : Result Readiness → Result Readiness
refuse_record (raised (value_error m)) = raised (refused ("invalid lane record: " ++ m))
refuse_record r = r

unfoldable pub store_lane : ℕ → String → Value → State → State
store_lane now provider facts s = elim (first (λ l. l.provider == provider) s.lanes) [
  | none ↦ record s {
    lanes = record { provider = provider; facts = facts; updated = now } ∷ s.lanes;
  }
  | some _ ↦ record s {
    lanes =
        update_rows (λ l. l.provider == provider) (λ l. record l { facts = facts; updated = now })
          s.lanes;
  }
]

unfoldable pub record_lane : Clock → String → Value → State → Result (Readiness × State)
unfolding classifier_view store_lane
record_lane clock provider facts s = do
  d ← or_raise (as_dict facts) (refused "record.provider must match provider")
  raise_if (not (is_str provider (get_value "provider" d)))
      (refused "record.provider must match provider")
  classified ← refuse_record (lane_readiness (classifier_view facts) (time_value (clock.time 0)))
  ok (
    classified,
    event (clock.time 2) none "lane_recorded"
        (("provider", str provider) ∷ ("state", str (lane_state_text classified.state)) ∷ [])
        (store_lane (clock.time 1) provider facts s),
  )
