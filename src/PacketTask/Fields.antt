-- ===== src/PacketTask/Fields.antt =====
-- What a checked packet task (src/inference_grid/board/packet_task.py) holds under its keys.
use inference_grid.Prelude.{
  Option, String, true, false, ◌≡◌, refl, sym, ap, subst, ◌∙◌, none, some, [], ◌∷◌, ◌++◌, ◌==◌,
  arith, inl, inr, Bool-cases, if◌then◌else◌, eq_iff,
}
use inference_grid.Value.{
  Value, null, str, obj, of_dict, is_str, Dict, get?, get_value, or_else, set_key, has_name,
}
use inference_grid.PacketTask.{
  extra_keys, without_extras, core_of, unless_null, PacketSpec, packet_dict, spec_dict,
}

pub get?-append-some :
    (k : String) (d e : Dict) (v : Value) → get? k d ≡ some v → get? k (d ++ e) ≡ some v
get?-append-some k [] e v h = cc
get?-append-some k ((j, w) ∷ d) e v h = ground (arith, get?-append-some k d e v)

pub get?-append-none : (k : String) (d e : Dict) → get? k d ≡ none → get? k (d ++ e) ≡ get? k e
get?-append-none k [] e h = refl
get?-append-none k ((j, w) ∷ d) e h = ground (arith, get?-append-none k d e)

clash :
    (j k : String)
    → has_name j extra_keys ≡ true
    → has_name k extra_keys ≡ false
    → (j == k) ≡ true
    → ⊥
clash j k extra kept same =
    let both : has_name k extra_keys ≡ true =
      subst (λ x. has_name x extra_keys ≡ true) ((eq_iff j k).0 same) extra in
    (cc)

pub get?-without_extras :
    (k : String) (d : Dict) → has_name k extra_keys ≡ false → get? k (without_extras d) ≡ get? k d
get?-without_extras k [] h = refl
get?-without_extras k ((j, w) ∷ d) h = elim (Bool-cases (has_name j extra_keys)) [
  | inl extra ↦ elim (Bool-cases (j == k)) [
    | inl same ↦ absurd (clash j k extra h same)
    | inr differ ↦ rw (extra, differ) (get?-without_extras k d h)
  ]
  | inr kept ↦ rw kept (ap (λ o. if j == k then some w else o) (get?-without_extras k d h))
]

pub get?-without_extras-none :
    (k : String) (d : Dict) → has_name k extra_keys ≡ true → get? k (without_extras d) ≡ none
get?-without_extras-none k [] h = refl
get?-without_extras-none k ((j, w) ∷ d) h = elim (Bool-cases (has_name j extra_keys)) [
  | inl extra ↦ rw extra (get?-without_extras-none k d h)
  | inr kept ↦ elim (Bool-cases (j == k)) [
    | inl same ↦ absurd (clash k j h kept (ground (arith, eq_iff j k, eq_iff k j)))
    | inr differ ↦ rw (kept, differ) (get?-without_extras-none k d h)
  ]
]

pub get?-set_key :
    (j k : String) (v : Value) (d : Dict) → (j == k) ≡ false → get? k (set_key j v d) ≡ get? k d
get?-set_key j k v [] h = ground arith
get?-set_key j k v ((i, w) ∷ d) h = elim (Bool-cases (i == j)) [
  | inl here ↦
      let differ : (i == k) ≡ false = subst (λ x. (x == k) ≡ false) (sym ((eq_iff i j).0 here)) h in
      rw (here, differ) refl
  | inr passed ↦ rw passed (ap (λ o. if i == k then some w else o) (get?-set_key j k v d h))
]

pub get?-unless_null :
    (j k : String) (v : Value) (d : Dict)
    → (j == k) ≡ false
    → get? k (unless_null j v ++ d) ≡ get? k d
get?-unless_null j k null d h = refl
get?-unless_null j k v d h = ground arith

-- The shared check reads the given task, but for its category and its state.
pub get?-core_of :
    (k : String) (raw : Dict)
    → has_name k extra_keys ≡ false
    → ("category" == k) ≡ false
    → ("state" == k) ≡ false
    → get? k (core_of raw) ≡ get? k raw
unfolding core_of
get?-core_of k raw shared not_category not_state =
    let core = set_key "category" (str "pure_function") (without_extras raw) in
    let plain : get? k core ≡ get? k raw =
      get?-set_key "category" k (str "pure_function") (without_extras raw) not_category
      ∙ get?-without_extras k raw shared in
    elim (Bool-cases (is_str "landed" (get_value "state" core))) [
      | inl landed ↦ rw landed (get?-set_key "state" k (str "accepted") core not_state ∙ plain)
      | inr other ↦ rw other plain
    ]

pub get?-packet_dict :
    (k : String) (raw : Dict) (p : PacketSpec) (v : Value)
    → has_name k extra_keys ≡ false
    → get? k raw ≡ some v
    → get? k (packet_dict raw p) ≡ some v
get?-packet_dict k raw p v shared h =
    get?-append-some k (without_extras raw) _ v (get?-without_extras k raw shared ∙ h)

pub spec-packet_dict :
    (raw : Dict) (p : PacketSpec)
    → get? "spec" (packet_dict raw p) ≡ some (obj (of_dict (spec_dict p)))
spec-packet_dict raw p =
    get?-append-none "spec" (without_extras raw) _ (get?-without_extras-none "spec" raw refl)
    ∙ (get?-unless_null "failover_from" "spec" (get_value "failover_from" raw) _ refl
        ∙ get?-unless_null "depends_on" "spec" (get_value "depends_on" raw) _ refl)

get?-unless_null-alone :
    (j k : String) (v : Value) → (j == k) ≡ false → get? k (unless_null j v) ≡ none
get?-unless_null-alone j k null h = refl
get?-unless_null-alone j k v h = ground arith

get_value-unless_null :
    (k : String) (v : Value) (d : Dict) → get? k d ≡ none → get_value k (unless_null k v ++ d) ≡ v
get_value-unless_null k null d h = rw h refl
get_value-unless_null k v d h = ground (arith, eq_iff k k)

-- The predecessor's id is written back as it was given.
pub failover_from-packet_dict :
    (raw : Dict) (p : PacketSpec)
    → get_value "failover_from" (packet_dict raw p) ≡ get_value "failover_from" raw
failover_from-packet_dict raw p =
    let k : String = "failover_from" in
    let tail =
      ("spec", obj (of_dict (spec_dict p))) ∷ unless_null "landed" (get_value "landed" raw) in
    let absent : get? k (unless_null "depends_on" (get_value "depends_on" raw) ++ tail) ≡ none =
      get?-unless_null "depends_on" k (get_value "depends_on" raw) tail refl
      ∙ get?-unless_null-alone "landed" k (get_value "landed" raw) refl in
    ap (λ o. or_else o null)
      (get?-append-none k (without_extras raw) _ (get?-without_extras-none k raw refl))
    ∙ get_value-unless_null k (get_value k raw) _ absent

pub get?-set_key-same : (k : String) (v : Value) (d : Dict) → get? k (set_key k v d) ≡ some v
get?-set_key-same k v [] = ground (arith, eq_iff k k)
get?-set_key-same k v ((j, w) ∷ d) = ground (arith, get?-set_key-same k v d)

-- The landed record is written back where it is not None, and is left out where it is.
abbrev pub unless_none : Value → Option Value
unless_none null = none
unless_none v = some v

get?-unless_null-same : (k : String) (v : Value) → get? k (unless_null k v) ≡ unless_none v
get?-unless_null-same k null = refl
get?-unless_null-same k v = ground (arith, eq_iff k k)

pub landed-packet_dict :
    (raw : Dict) (p : PacketSpec)
    → get? "landed" (packet_dict raw p) ≡ unless_none (get_value "landed" raw)
landed-packet_dict raw p =
    let k : String = "landed" in
    get?-append-none k (without_extras raw) _ (get?-without_extras-none k raw refl)
    ∙ get?-unless_null "failover_from" k (get_value "failover_from" raw) _ refl
    ∙ get?-unless_null "depends_on" k (get_value "depends_on" raw) _ refl
    ∙ get?-unless_null-same k (get_value k raw)
