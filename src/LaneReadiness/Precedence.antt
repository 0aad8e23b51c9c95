-- ===== src/LaneReadiness/Precedence.antt =====
-- When a lane of src/inference_grid/lane_readiness.py is ready.
use inference_grid.Prelude.{
  true, false, ◌≡◌, refl, sym, subst, some, inl, inr, Option-cases, Bool-cases, arith,
}
use inference_grid.Prelude.Int.{ℤ, ltb_ℤ, ◌+ℤ◌, ◌-ℤ◌}
use inference_grid.Value.{Value}
use inference_grid.Result.{ok, chain}
use inference_grid.LaneReadiness.{
  LaneFacts, Readiness, ready, Auth, auth_ok, auth_expired, auth_unknown, Qualification, qualified,
  is_after, is_expired, is_unknown, is_qualified, is_exhausted, classify, classify_observed,
  lane_readiness, read_lane, number_amount,
}

-- Every gate of a lane is open.
pub record IsOpen (lane : LaneFacts) (now observed : ℤ) : Type 0 where
  pub unblocked : is_after now lane.blocked_until ≡ false
  pub signed_in : lane.auth ≡ auth_ok
  pub not_cooling : is_after now lane.cooldown_until ≡ false
  pub observed_at : lane.quota_observed_at ≡ some observed
  pub fresh : ltb_ℤ lane.quota_freshness_seconds (now -ℤ observed) ≡ false
  pub below_limit : is_exhausted lane.used_percent_max lane.admission_limit_percent ≡ false
  pub is_qualified : lane.qualification ≡ qualified

auth_ok_only : (a : Auth) → is_expired a ≡ false → is_unknown a ≡ false → a ≡ auth_ok
auth_ok_only auth_ok h k = refl
auth_ok_only auth_expired h k = cc
auth_ok_only auth_unknown h k = cc

qualified_only : (q : Qualification) → is_qualified q ≡ true → q ≡ qualified
qualified_only qualified h = refl
qualified_only _ h = cc

-- The next check of a ready lane is the end of its freshness.
pub record IsReadyAt (lane : LaneFacts) (now : ℤ) (r : Readiness) : Type 0 where
  pub observed : ℤ
  pub open_gates : IsOpen lane now observed
  pub next_check : r.next_check_at ≡ some (observed +ℤ lane.quota_freshness_seconds)

observed-IsReadyAt :
    (lane : LaneFacts) (now observed : ℤ)
    → is_after now lane.blocked_until ≡ false
    → is_expired lane.auth ≡ false
    → is_after now lane.cooldown_until ≡ false
    → lane.quota_observed_at ≡ some observed
    → (classify_observed lane observed now).state ≡ ready
    → IsReadyAt lane now (classify_observed lane observed now)
unfolding classify_observed
observed-IsReadyAt lane now observed unblocked unexpired warm seen h = record {
  observed = observed;
  open_gates = record {
    unblocked = unblocked;
    signed_in = auth_ok_only lane.auth unexpired (ground arith);
    not_cooling = warm;
    observed_at = seen;
    fresh = ground arith;
    below_limit = ground arith;
    is_qualified = qualified_only lane.qualification (ground arith);
  };
  next_check = ground arith;
}

classify-IsReadyAt :
    (lane : LaneFacts) (now : ℤ)
    → (classify lane now).state ≡ ready
    → IsReadyAt lane now (classify lane now)
unfolding classify
classify-IsReadyAt lane now h = elim (Bool-cases (is_after now lane.blocked_until)) [
  | inl b ↦ absurd (ground arith)
  | inr unblocked ↦ elim (Bool-cases (is_expired lane.auth)) [
    | inl b ↦ absurd (ground arith)
    | inr unexpired ↦ elim (Bool-cases (is_after now lane.cooldown_until)) [
      | inl b ↦ absurd (ground arith)
      | inr warm ↦ elim (Option-cases lane.quota_observed_at) [
        | inl unseen ↦ absurd (ground arith)
        | inr (observed, seen) ↦
            let same : classify lane now ≡ classify_observed lane observed now = ground arith in
            subst (IsReadyAt lane now) (sym same)
              (observed-IsReadyAt lane now observed unblocked unexpired warm seen (ground arith))
      ]
    ]
  ]
]

open_ready :
    (lane : LaneFacts) (now observed : ℤ)
    → IsOpen lane now observed
    → (classify lane now).state ≡ ready
unfolding classify classify_observed
open_ready lane now observed h = ground (
  arith, h.unblocked, h.signed_in, h.not_cooling, h.observed_at, h.fresh, h.below_limit,
  h.is_qualified,
)

-- Of a lane and a time that are well formed, `lane_readiness` answers ready exactly when every gate is
-- open: no block lasts, the authentication is known to be good, no cooldown lasts, the quota was
-- observed and is fresh, the use is below the admission limit, and the lane is qualified. The next
-- check of a ready lane is the moment its observation stops being fresh.
pub lane_readiness-ready :
    (lane now : Value) (facts : LaneFacts) (t : ℤ)
    → number_amount now ≡ ok t
    → read_lane lane ≡ ok facts
    → (r : Readiness) × (lane_readiness lane now ≡ ok r)
      × (r.state ≡ ready → IsReadyAt facts t r)
      × ((observed : ℤ) → IsOpen facts t observed → r.state ≡ ready)
unfolding lane_readiness chain
lane_readiness-ready lane now facts t time read = (
  classify facts t,
  rw time (rw read refl),
  classify-IsReadyAt facts t,
  λ observed. open_ready facts t observed,
)
