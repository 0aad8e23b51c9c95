-- ===== src/LaneConfig/Validity.antt =====
-- What a lane is that `validate_lane_config` (src/inference_grid/lanes/config.py) takes.
use inference_grid.Prelude.{
  ℕ, String, Bool, true, false, not, ◌≡◌, refl, some, List, [], ◌∷◌, All, arith, is_empty,
}
use inference_grid.Value.{Value, Dict, as_dict, as_list, get_value}
use inference_grid.Result.{
  ok, Ensures, Ensures-ok, Ensures-map, gives, then_bind, then_check, then_read, then_unless,
}
use inference_grid.Prelude.Text.{is_text}
use inference_grid.BoardTask.{distinct}
use inference_grid.BoardTask.Validity.{
  IsBounded, bounded_int-IsBounded, AreTexts, texts_where-AreTexts,
}
use inference_grid.LaneConfig.{
  is_short, is_config_kind, is_file, is_window, is_positive, check_units, is_config_id,
  check_config, check_configs, validate_lane_config,
}

negated : {b : Bool} → not b ≡ false → b ≡ true
negated {b = true} h = refl
negated {b = false} h = cc

-- The allowances of a plan: named, and positive.
abbrev pub AreUnits : Dict → Type 0
AreUnits units = All (λ (e : String × Value). (is_text e.0 ≡ true) × (is_positive e.1 ≡ true)) units

record Measured (units : Dict) (u : Unit {0}) : Type 0 where
  all : AreUnits units

check_units-Measured : (units : Dict) → Ensures (Measured units) (check_units units)
unfolding check_units
check_units-Measured [] = gives (record { all = tt })
check_units-Measured ((w, v) ∷ units) = then_unless _ _ λ named. then_read _ _ λ n number.
    then_read _ _ λ usable finite. then_unless _ _ λ positive.
      Ensures-map (λ u rest. record { all = ((ground arith, ground arith), rest.all) })
        (check_units-Measured units)

pub record IsLaneConfig (is_lower : ℕ → Bool) (lid : String) (spec : Dict) : Type 0 where
  pub identified : is_config_id is_lower lid ≡ true
  pub provider : is_short 40 (get_value "provider" spec) ≡ true
  pub family : is_short 40 (get_value "family" spec) ≡ true
  pub model : is_short 80 (get_value "model" spec) ≡ true
  pub kind : is_config_kind (get_value "kind" spec) ≡ true
  pub credential : is_file (get_value "credential_path" spec) ≡ true
  pub executable : is_file (get_value "executable" spec) ≡ true
  pub units : (d : Dict) × (as_dict (get_value "plan_units" spec) ≡ some d) × AreUnits d
  pub window : is_window (get_value "window" spec) ≡ true
  pub slots : IsBounded 1 8 (get_value "max_concurrency" spec)
  pub wall : IsBounded 30 3600 (get_value "wall_seconds" spec)
  pub categories :
      (vs : List Value) × (names : List String) × (as_list (get_value "categories" spec) ≡ some vs)
      × (is_empty vs ≡ false)
      × AreTexts is_text vs names
      × (distinct names ≡ true)

check_config-IsLaneConfig :
    (is_lower : ℕ → Bool) (lid : String) (v : Value)
    → Ensures
        (λ spec. (as_dict v ≡ some spec) × IsLaneConfig is_lower lid spec)
        (check_config is_lower lid v)
unfolding check_config
check_config-IsLaneConfig is_lower lid v = then_unless _ _ λ identified.
    then_read _ _ λ spec object. then_unless _ _ λ keys. then_unless _ _ λ provider.
      then_unless _ _ λ family. then_unless _ _ λ model. then_unless _ _ λ kind.
        then_unless _ _ λ credential. then_unless _ _ λ executable. then_read _ _ λ units units_of.
          then_check _ λ measured. then_unless _ _ λ window. then_read _ _ λ slots slots_of.
            then_read _ _ λ wall wall_of. then_read _ _ λ given listed.
              then_unless _ _ λ some_given. then_bind _ λ names texts. then_unless _ _ λ distinct.
                gives (
                  object,
                  record {
                    identified = negated identified;
                    provider = negated provider;
                    family = negated family;
                    model = negated model;
                    kind = negated kind;
                    credential = negated credential;
                    executable = negated executable;
                    units =
                        (units, units_of, (Ensures-ok (check_units-Measured units) measured).all);
                    window = negated window;
                    slots = bounded_int-IsBounded 1 8 _ slots slots_of;
                    wall = bounded_int-IsBounded 30 3600 _ wall wall_of;
                    categories = (
                      given,
                      names,
                      listed,
                      some_given,
                      Ensures-ok (texts_where-AreTexts _ _ given) texts,
                      negated distinct,
                    );
                  },
                )

-- Each lane of the answer stands in the given dictionary, in its place, and is well formed.
abbrev pub AreLanes : (ℕ → Bool) → Dict → List (String × Dict) → Type 0
AreLanes is_lower [] [] = Unit
AreLanes is_lower ((k, v) ∷ given) ((lid, spec) ∷ lanes) =
    (k ≡ lid)
    × (as_dict v ≡ some spec)
    × IsLaneConfig is_lower lid spec
    × AreLanes is_lower given lanes
AreLanes is_lower _ _ = ⊥

check_configs-AreLanes :
    (is_lower : ℕ → Bool) (given : Dict)
    → Ensures (AreLanes is_lower given) (check_configs is_lower given)
unfolding check_configs
check_configs-AreLanes is_lower [] = gives tt
check_configs-AreLanes is_lower ((k, v) ∷ given) = then_bind _ λ spec checked.
    then_bind _ λ rest others.
      let (object, lane) = Ensures-ok (check_config-IsLaneConfig is_lower k v) checked in
      gives (refl, object, lane, Ensures-ok (check_configs-AreLanes is_lower given) others)

-- A lane configuration that `validate_lane_config` takes is returned lane by lane as it was given.
-- There is at least one lane, and each has a short id of lower-case letters, digits and hyphens, a
-- provider, a family and a model, a known kind, files that are absolute where they are named,
-- positive allowances, one to eight slots, 30 to 3600 seconds and categories that differ.
pub validate_lane_config-AreLanes :
    (is_lower : ℕ → Bool) (v : Value) (lanes : List (String × Dict))
    → validate_lane_config is_lower v ≡ ok lanes
    → (raw given : Dict) × (as_dict v ≡ some raw)
      × (as_dict (get_value "lanes" raw) ≡ some given)
      × (is_empty given ≡ false)
      × AreLanes is_lower given lanes
unfolding validate_lane_config
validate_lane_config-AreLanes is_lower v lanes e =
    Ensures-ok
      {P = λ lanes.
        (raw given : Dict) × (as_dict v ≡ some raw)
        × (as_dict (get_value "lanes" raw) ≡ some given)
        × (is_empty given ≡ false)
        × AreLanes is_lower given lanes}
      (then_read _ _ λ raw object. then_unless _ _ λ exact. then_read _ _ λ given lanes_of.
        then_unless _ _ λ some_lanes.
          Ensures-map (λ out h. (raw, given, object, lanes_of, some_lanes, h))
            (check_configs-AreLanes is_lower given))
      e
