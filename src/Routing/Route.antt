-- ===== src/Routing/Route.antt =====
-- src/inference_grid/lanes/route.py: `route`, by policy, budget, tier and remaining quota.
pub mod Offers
pub mod Selection
pub mod MostQuota
pub mod Winners
use inference_grid.Prelude.{
  ℕ, suc, String, Bool, true, false, not, ◌||◌, ◌&&◌, ◌+◌, ◌*◌, ◌/◌, Option, none, some, List, [],
  ◌∷◌, ◌++◌, ◌==◌, ltb, leb, eqb, if◌then◌else◌, any, all, is_empty, map, length,
}
use inference_grid.Prelude.Int.{ℤ, pos, ltb_ℤ, eqb_ℤ}
use inference_grid.Prelude.Text.{codes, has_prefix, text_leb, is_text}
use inference_grid.Value.{Value, num, int, str, Dict, as_str, get?, or_else, has_name, keys}
use inference_grid.Result.{Result, ok, raised, key_error, ◌>>=◌, ◌>>◌, or_raise}
use inference_grid.Routing.Views.{Lane, Lanes, RoutedTask, lanes_where, least}
use inference_grid.Routing.Meta.{Requirement, validate_requirement, policy_drop}
use inference_grid.Routing.Select.{Choice, Readinesses, select_lane}

-- `CONTENT_ALLOWANCE` and `REASONING_HEADROOM` of lanes/go.py, and `UNBUDGETED_MAX_TOKENS`.
abbrev pub content_allowance : ℕ
content_allowance = 4000

abbrev pub reasoning_headroom : ℕ
reasoning_headroom = 3

abbrev pub unbudgeted_max_tokens : ℕ
unbudgeted_max_tokens = 16_000

-- `lane_tier` and `wanted_tier`.
abbrev pub lane_tier : Lane → String
lane_tier lane = or_else lane.tier "build"

unfoldable pub wanted_tier : Value → String
wanted_tier (str s) =
    if s == "plan" then "plan" else if s == "independent_review" then "review" else "build"
wanted_tier _ = "build"

abbrev model_windows : List (String × ℕ)
model_windows =
    ("kimi-k3", 1_048_576)
    ∷ ("glm-5.3-flash", 1_048_576)
    ∷ ("glm-5.3", 1_048_576)
    ∷ ("deepseek-v4.1-flash", 262_144)
    ∷ ("deepseek-v4-flash", 262_144)
    ∷ ("qwen3.8-max", 262_144)
    ∷ []

-- `key in text`.
unfoldable pub has_part : List ℕ → List ℕ → Bool
has_part key [] = has_prefix [] key
has_part key (c ∷ s) = has_prefix (c ∷ s) key || has_part key s

unfoldable pub window_of : List (String × ℕ) → String → ℕ
unfolding has_part
window_of [] model = 0
window_of ((key, window) ∷ windows) model =
    let rest = window_of windows model in
    if has_part (codes key) (codes model) then window else rest

-- The catalogue's window for a model that is a text; 0 is None.
unfoldable pub model_context : Value → ℕ
unfolding window_of
model_context (str model) = if is_text model then window_of model_windows model else 0
model_context _ = 0

abbrev pub context_of : Lane → ℕ
context_of lane = if eqb lane.context 0 then model_context lane.model else lane.context

-- `type(v) is int and v > 0`.
abbrev positive_int : Value → Option ℕ
positive_int (num (int (pos n))) = if eqb n 0 then none else some n
positive_int _ = none

unfoldable pub max_tokens_cap : Lane → Value → ℕ
max_tokens_cap lane thinking_tokens =
    or_else (positive_int lane.max_tokens) (elim (positive_int thinking_tokens) [
      | none ↦ unbudgeted_max_tokens
      | some n ↦ reasoning_headroom * n + content_allowance
    ])

abbrev pub declares : Value → Lane → Bool
declares (str cat) lane = has_name cat lane.categories
declares _ lane = false

unfoldable pub default_lanes : Value → Lanes → Lanes
default_lanes category lanes =
    lanes_where (λ lid lane. declares category lane && not lane.explicit_only) lanes

-- Why a lane is not offered, with the values that the report's text shows.
pub data DropReason : Type 0 where
  lane_policy : String → Value → DropReason
  over_cap : ℕ → ℕ → DropReason
  over_context : ℕ → ℕ → DropReason
  tier_mismatch : String → String → DropReason

pub record Drop : Type 0 where
  pub lane : String
  pub reason : DropReason

pub record Answer : Type 0 where
  pub lane : Option String
  pub score : Option ℤ
  pub reason : String
  pub candidates : List (String × ℕ)
  pub dropped : List Drop
  pub tier : String

-- The candidates: the task's own list, or the default.
unfoldable pub offered : RoutedTask → Lanes → Lanes
unfolding default_lanes
offered task lanes =
    if is_empty task.explicit
    then default_lanes task.category lanes
    else lanes_where (λ lid lane. has_name lid task.explicit) lanes

-- The loop over the policy.
abbrev pub meets : Requirement → String → Lane → Bool
meets require lid lane = elim (policy_drop lane.lane_meta require) [ none ↦ true | some _ ↦ false ]

unfoldable pub policy_drops : Requirement → Lanes → List Drop
policy_drops require [] = []
policy_drops require ((lid, lane) ∷ lanes) = elim (policy_drop lane.lane_meta require) [
  | none ↦ policy_drops require lanes
  | some (key, value) ↦
      record { lane = lid; reason = lane_policy key value } ∷ policy_drops require lanes
]

-- `ceil(inputs_bytes / 4)`, which the float division gives exactly below 2 ** 53 bytes.
abbrev pub prompt_tokens : ℕ → ℕ
prompt_tokens inputs_bytes = (inputs_bytes + 3) / 4

abbrev pub output_need : ℕ → ℕ
output_need prompt = prompt / 2 + content_allowance

-- A lane that can hold the packet.
abbrev pub fits : ℕ → Value → Lane → Bool
fits prompt thinking lane =
    not (ltb (max_tokens_cap lane thinking) (output_need prompt))
    && (eqb (context_of lane) 0 || not (ltb (context_of lane) prompt))

-- The drop row of a lane that cannot hold the packet.
abbrev budget_drop : ℕ → Value → String → Lane → Drop
budget_drop prompt thinking lid lane =
    if ltb (max_tokens_cap lane thinking) (output_need prompt)
    then record { lane = lid; reason = over_cap prompt (max_tokens_cap lane thinking) }
    else record { lane = lid; reason = over_context prompt (context_of lane) }

unfoldable pub budget_drops : ℕ → Value → Lanes → List Drop
unfolding max_tokens_cap model_context
budget_drops prompt thinking [] = []
budget_drops prompt thinking ((lid, lane) ∷ lanes) =
    let rest = budget_drops prompt thinking lanes in
    if fits prompt thinking lane then rest else budget_drop prompt thinking lid lane ∷ rest

abbrev pub has_tier : String → String → Lane → Bool
has_tier tier lid lane = lane_tier lane == tier

unfoldable pub tier_drops : String → Lanes → List Drop
tier_drops tier [] = []
tier_drops tier ((lid, lane) ∷ lanes) =
    let rest = tier_drops tier lanes in
    if has_tier tier lid lane
    then rest
    else record { lane = lid; reason = tier_mismatch (lane_tier lane) tier } ∷ rest

-- `matching and len(matching) < len(kept)`.
abbrev pub narrows : String → Lanes → Bool
narrows tier kept =
    not (is_empty (lanes_where (has_tier tier) kept))
    && ltb (length (lanes_where (has_tier tier) kept)) (length kept)

unfoldable pub tier_kept : String → Lanes → Lanes
tier_kept tier kept = if narrows tier kept then lanes_where (has_tier tier) kept else kept

-- The offered rows with their caps, by lane id.
unfoldable pub insert_row : String × ℕ → List (String × ℕ) → List (String × ℕ)
insert_row x [] = x ∷ []
insert_row x (y ∷ ys) =
    let rest = insert_row x ys in if text_leb x.0 y.0 then x ∷ y ∷ ys else y ∷ rest

unfoldable pub rows_with_caps : Value → Lanes → List (String × ℕ)
unfolding insert_row max_tokens_cap
rows_with_caps thinking [] = []
rows_with_caps thinking ((lid, lane) ∷ lanes) =
    insert_row (lid, max_tokens_cap lane thinking) (rows_with_caps thinking lanes)

-- The quota readings: a lane without one has none.
abbrev pub Quotas : Type 0
Quotas = List (String × ℤ)

-- `key(a) < key(b)` for `(quota is None, -quota, lid)`.
abbrev pub by_id : String → String → Bool
by_id a b = not (text_leb b a)

abbrev pub has_more : Option ℤ → Option ℤ → Bool → Bool
has_more (some x) none by = true
has_more none (some y) by = false
has_more none none by = by
has_more (some x) (some y) by = ltb_ℤ y x || (eqb_ℤ x y && by)

abbrev pub has_more_quota : Quotas → String → String → Bool
has_more_quota quotas a b = has_more (get? a quotas) (get? b quotas) (by_id a b)

abbrev pub refuse : String → String → List (String × ℕ) → List Drop → Answer
refuse tier reason candidates dropped = record {
  lane = none;
  score = none;
  reason = reason;
  candidates = candidates;
  dropped = dropped;
  tier = tier;
}

-- `sorted(candidates, key=...)[0]` is the least one. The candidates of `select_lane` are empty exactly
-- where its reason is not "selected".
unfoldable pub pick : String → Value → Lanes → List Drop → Quotas → Choice → Answer
unfolding least rows_with_caps
pick tier thinking kept dropped quotas choice = elim (choice.candidates) [
  | [] ↦ refuse tier choice.reason (rows_with_caps thinking kept) dropped
  | x ∷ xs ↦
      let winner = least (has_more_quota quotas) x xs in
      record {
        lane = some winner;
        score = get? winner quotas;
        reason = "selected";
        candidates = rows_with_caps thinking kept;
        dropped = dropped;
        tier = tier;
      }
]

module _ (quotient : ℕ → ℕ → ℤ) where
  -- From the lanes that policy allows: budget, tier, selection and quota.
  unfoldable pub route_allowed :
      RoutedTask → Readinesses → ℕ → Quotas → Lanes → List Drop → Result Answer
  unfolding wanted_tier budget_drops tier_drops tier_kept pick
  route_allowed task readiness prompt quotas candidates dropped =
      let tier = wanted_tier task.category in
      let fit = lanes_where (λ lid lane. fits prompt task.thinking_tokens lane) candidates in
      let unfit = dropped ++ budget_drops prompt task.thinking_tokens candidates in
      let kept = tier_kept tier fit in
      let all_dropped = unfit ++ (if narrows tier fit then tier_drops tier fit else []) in
      if is_empty fit then ok (refuse tier "budget_unfit" [] unfit) else (do
        choice ← select_lane quotient task.category task.author_family kept readiness []
        ok (pick tier task.thinking_tokens kept all_dropped quotas choice))

  -- The policy, where the board demands one.
  unfoldable pub route : RoutedTask → Lanes → Readinesses → ℕ → Quotas → Result Answer
  unfolding route_allowed offered policy_drops validate_requirement
  route task lanes readiness inputs_bytes quotas = elim task.require [
    | none ↦
        route_allowed task readiness (prompt_tokens inputs_bytes) quotas (offered task lanes) []
    | some given ↦ do
      require ← validate_requirement given
      let allowed = lanes_where (meets require) (offered task lanes)
      let drops = policy_drops require (offered task lanes)
      if is_empty allowed
          then ok (refuse (wanted_tier task.category) "lane_policy" [] drops)
          else route_allowed task readiness (prompt_tokens inputs_bytes) quotas allowed drops
  ]
