-- ===== src/LaneReadiness.antt =====
-- src/inference_grid/lane_readiness.py: the readiness classification of a provider lane.
pub mod Precedence
use inference_grid.Prelude.{
  ℕ, String, Bool, true, false, not, ◌||◌, ◌&&◌, ◌*◌, Option, none, some, List, [], ◌∷◌, ◌==◌, ltb,
  leb, eqb, if◌then◌else◌, any, all, length,
}
use inference_grid.Prelude.Int.{ℤ, pos, negsuc, ltb_ℤ, leb_ℤ, ◌+ℤ◌, ◌-ℤ◌}
use inference_grid.Prelude.Text.{text_length, is_text}
use inference_grid.Value.{
  Value, Number, null, num, str, Dict, as_dict, as_number, get_value, has_key, keys, is_finite,
  amount, one, has_name,
}
use inference_grid.Result.{
  Result, ok, raised, value_error, overflow_error, ◌>>=◌, ◌>>◌, raise_if, or_raise,
}

pub data Auth : Type 0 where
  auth_ok auth_expired auth_unknown : Auth

pub data Qualification : Type 0 where
  unqualified effort_controlled normalizer representative_job qualified : Qualification

-- The record of a lane, its keys read.
pub record LaneFacts : Type 0 where
  pub provider : String
  pub auth : Auth
  pub quota_observed_at : Option ℤ
  pub quota_freshness_seconds : ℤ
  pub used_percent_max : Option ℤ
  pub admission_limit_percent : ℤ
  pub cooldown_until : Option ℤ
  pub qualification : Qualification
  pub blocked_until : Option ℤ
  pub blocker : Option String

pub data LaneState : Type 0 where
  blocked cooling stale exhausted not_qualified unverified ready : LaneState

pub record Readiness : Type 0 where
  pub provider : String
  pub state : LaneState
  pub reason : String
  pub next_check_at : Option ℤ

-- `_num(v)`, the amount of a finite number.
unfoldable pub number_amount : Value → Result ℤ
unfolding is_finite amount
number_amount v = do
  n ← or_raise (as_number v) (value_error "bad number")
  usable ← or_raise (is_finite n) overflow_error
  or_raise (if usable then amount n else none) (value_error "bad number")

-- `_num(v, lo, hi)`.
ranged_amount : ℤ → ℤ → Value → Result ℤ
unfolding number_amount
ranged_amount lo hi v = do
  q ← number_amount v
  raise_if (ltb_ℤ q lo || ltb_ℤ hi q) (value_error "out of range")
  ok q

-- `_opt_num(v)` and `_opt_num(v, lo, hi)`.
optional_amount : (Value → Result ℤ) → Value → Result (Option ℤ)
optional_amount read null = ok none
optional_amount read v = do q ← read v; ok (some q)

percent : ℤ
unfolding one
percent = pos (100 * one)

unfoldable pub read_auth : Value → Option Auth
read_auth (str s) =
    if s == "ok"
    then some auth_ok
    else if s == "expired"
    then some auth_expired
    else if s == "unknown"
    then some auth_unknown
    else none
read_auth _ = none

unfoldable pub read_qualification : Value → Option Qualification
read_qualification (str s) =
    if s == "unqualified"
    then some unqualified
    else if s == "effort_controlled"
    then some effort_controlled
    else if s == "normalizer"
    then some normalizer
    else if s == "representative_job"
    then some representative_job
    else if s == "qualified"
    then some qualified
    else none
read_qualification _ = none

read_provider : Value → Option String
read_provider (str s) = if not (is_text s) || ltb 40 (text_length s) then none else some s
read_provider _ = none

-- `None`, or a text of at most 200 code points.
read_blocker : Value → Result (Option String)
read_blocker null = ok none
read_blocker (str s) =
    if ltb 200 (text_length s) then raised (value_error "bad blocker") else ok (some s)
read_blocker _ = raised (value_error "bad blocker")

abbrev lane_keys : List String
lane_keys =
    "provider" ∷ "auth" ∷ "quota_observed_at" ∷ "quota_freshness_seconds" ∷ "used_percent_max"
    ∷ "admission_limit_percent" ∷ "cooldown_until" ∷ "qualification" ∷ "blocked_until" ∷ "blocker"
    ∷ []

-- `set(lane) == set(spec)`.
abbrev has_lane_keys : Dict → Bool
has_lane_keys d = all (λ k. has_key k d) lane_keys && all (λ k. has_name k lane_keys) (keys d)

-- The checks of lines 22-47, in their order.
unfoldable pub read_lane : Value → Result LaneFacts
unfolding number_amount ranged_amount optional_amount read_auth read_qualification read_provider
    read_blocker percent
read_lane lane = do
  d ← or_raise (as_dict lane) (value_error "lane must be dict")
  raise_if (not (has_lane_keys d)) (value_error "bad keys")
  provider ← or_raise (read_provider (get_value "provider" d)) (value_error "bad provider")
  auth ← or_raise (read_auth (get_value "auth" d)) (value_error "bad auth")
  observed ← optional_amount number_amount (get_value "quota_observed_at" d)
  freshness ← number_amount (get_value "quota_freshness_seconds" d)
  raise_if (ltb_ℤ freshness (pos 0)) (value_error "out of range")
  raise_if (leb_ℤ freshness (pos 0)) (value_error "bad freshness")
  used ← optional_amount (ranged_amount (pos 0) percent) (get_value "used_percent_max" d)
  limit ← ranged_amount (pos 0) percent (get_value "admission_limit_percent" d)
  cooldown ← optional_amount number_amount (get_value "cooldown_until" d)
  qualification ←
      or_raise (read_qualification (get_value "qualification" d)) (value_error "bad qualification")
  until ← optional_amount number_amount (get_value "blocked_until" d)
  blocker ← read_blocker (get_value "blocker" d)
  ok (record {
    provider = provider;
    auth = auth;
    quota_observed_at = observed;
    quota_freshness_seconds = freshness;
    used_percent_max = used;
    admission_limit_percent = limit;
    cooldown_until = cooldown;
    qualification = qualification;
    blocked_until = until;
    blocker = blocker;
  })

-- `v is not None and v > now`.
abbrev pub is_after : ℤ → Option ℤ → Bool
is_after now none = false
is_after now (some t) = ltb_ℤ now t

abbrev pub is_expired : Auth → Bool
is_expired auth_expired = true
is_expired _ = false

abbrev pub is_unknown : Auth → Bool
is_unknown auth_unknown = true
is_unknown _ = false

abbrev pub is_qualified : Qualification → Bool
is_qualified qualified = true
is_qualified _ = false

abbrev qualification_text : Qualification → String
qualification_text unqualified = "unqualified"
qualification_text effort_controlled = "effort_controlled"
qualification_text normalizer = "normalizer"
qualification_text representative_job = "representative_job"
qualification_text qualified = "qualified"

-- The lane's own blocker text, where there is one.
abbrev blocker_text : Option String → String
blocker_text none = "operator_block"
blocker_text (some s) = if is_text s then s else "operator_block"

-- The admission limit is reached: `used is not None and used >= limit`.
abbrev pub is_exhausted : Option ℤ → ℤ → Bool
is_exhausted none limit = false
is_exhausted (some used) limit = leb_ℤ limit used

abbrev answer : LaneFacts → LaneState → String → Option ℤ → Readiness
answer lane state reason next = record {
  provider = lane.provider;
  state = state;
  reason = reason;
  next_check_at = next;
}

-- The ladder behind the quota observation (57-65).
unfoldable pub classify_observed : LaneFacts → ℤ → ℤ → Readiness
classify_observed lane observed now =
    if ltb_ℤ lane.quota_freshness_seconds (now -ℤ observed)
    then answer lane stale "quota_stale" none
    else if is_exhausted lane.used_percent_max lane.admission_limit_percent
    then answer lane exhausted "admission_limit" none
    else if not (is_qualified lane.qualification)
    then answer lane not_qualified (qualification_text lane.qualification) none
    else if is_unknown lane.auth
    then answer lane unverified "auth_unknown" none
    else answer lane ready "ready" (some (observed +ℤ lane.quota_freshness_seconds))

-- The ladder of lines 48-65.
unfoldable pub classify : LaneFacts → ℤ → Readiness
unfolding classify_observed
classify lane now =
    if is_after now lane.blocked_until
    then answer lane blocked (blocker_text lane.blocker) lane.blocked_until
    else if is_expired lane.auth
    then answer lane blocked "auth_expired" none
    else if is_after now lane.cooldown_until
    then answer lane cooling "usage_cooldown" lane.cooldown_until
    else elim lane.quota_observed_at [
      | none ↦ answer lane stale "quota_unobserved" none
      | some observed ↦ classify_observed lane observed now
    ]

unfoldable pub lane_readiness : Value → Value → Result Readiness
unfolding read_lane classify number_amount
lane_readiness lane now = do t ← number_amount now; facts ← read_lane lane; ok (classify facts t)
