-- ===== src/Tests/Configs.antt =====
-- The theorem on lane configurations, at one lane.
use inference_grid.Prelude.{ℕ, Bool, ◌≡◌, refl, false, some, [], ◌∷◌, ◌&&◌, leb, is_empty}
use inference_grid.Value.{Value, Dict, null, str, obj, arr, of_dict, of_items, as_dict, get_value}
use inference_grid.LaneConfig.{check_units, check_config, check_configs, validate_lane_config}
use inference_grid.LaneConfig.Validity.{AreLanes, validate_lane_config-AreLanes}
use inference_grid.Tests.Packets.{packets}
use inference_grid.Tests.Scenario.{whole}

abbrev is_lower : ℕ → Bool
is_lower c = leb b'a' c && leb c b'z'

abbrev lane : Dict
lane =
    ("provider", str "opencode")
    ∷ ("family", str "glm")
    ∷ ("model", str "glm-5.3")
    ∷ ("kind", str "go_http")
    ∷ ("credential_path", str "/keys/go")
    ∷ ("executable", null)
    ∷ ("plan_units", obj (of_dict (("weekly", whole 100) ∷ [])))
    ∷ ("window", null)
    ∷ ("max_concurrency", whole 2)
    ∷ ("wall_seconds", whole 600)
    ∷ ("categories", arr (of_items (str "canary" ∷ str "packet" ∷ [])))
    ∷ []

abbrev config : Value
config = obj (of_dict (("lanes", obj (of_dict (("go-1", obj (of_dict lane)) ∷ []))) ∷ []))

validate_lane_config-AreLanes_example :
    (raw given : Dict) × (as_dict config ≡ some raw)
    × (as_dict (get_value "lanes" raw) ≡ some given)
    × (is_empty given ≡ false)
    × AreLanes is_lower given (("go-1", lane) ∷ [])
unfolding packets check_units check_config check_configs validate_lane_config
validate_lane_config-AreLanes_example =
    validate_lane_config-AreLanes is_lower config (("go-1", lane) ∷ []) refl
