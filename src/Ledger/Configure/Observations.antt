-- ===== src/Ledger/Configure/Observations.antt =====
-- What `configure_account` (src/inference_grid/ledger.py) stores of a quota observation, and when.
use inference_grid.Prelude.{
  sym, subst, ℕ, String, Bool, true, false, ◌≡◌, refl, ◌-◌, ◌==◌, eq_iff, Option, none, some, List,
  [], ◌∷◌, inl, inr, Option-cases, Bool-cases, arith, if◌then◌else◌, first-update_rows, first-holds,
  where_rows,
}
use inference_grid.Prelude.Int.{ℤ, ltb_ℤ, eqb_ℤ}
use inference_grid.Value.{Value, get?}
use inference_grid.Result.{ok, Ensures, Ensures-ok, Ensures-map, gives, then_bind, then_unless}
use inference_grid.Ledger.State.{
  Quota, Account, Attempt, Observation, State, Clock, Env, reserved, account_row, alias_row, event,
}
use inference_grid.Ledger.Configure.{
  Reading, Checked, check_reading, snapshot, unseen_completion, less_completed, observation_row,
  store_account, store_observation, store_reading, check_previous, bind_aliases, configure_account,
}

-- A window of the stored quota is the observed one, less what completed behind the observation.
pub get?-less_completed :
    (clock : Clock) (k : String) (v : ℕ) (windows : Quota) (rows : List Attempt)
    → get? k windows ≡ some v
    → get? k (less_completed clock windows rows) ≡ some (v - reserved clock k rows)
unfolding less_completed
get?-less_completed clock k v [] rows h = cc
get?-less_completed clock k v ((j, w) ∷ windows) rows h = elim (Bool-cases (j == k)) [
  | inl same ↦ rw (same, (eq_iff j k).0 same) (ground arith)
  | inr other ↦ rw other (get?-less_completed clock k v windows rows (ground arith))
]

-- How an observation stands to the one before: as a replay of it, or as a later one.
pub data IsPlaced (env : Env) (r : Reading) (observed : ℤ)
    : Bool → Option Observation → Type 0 where
  first_seen : IsPlaced env r observed false none
  replayed :
      {o : Observation}
      → eqb_ℤ observed o.observed_at ≡ true
      → (snapshot env r == o.snapshot_digest) ≡ true
      → IsPlaced env r observed true (some o)
  newer :
      {o : Observation}
      → ltb_ℤ observed o.observed_at ≡ false
      → eqb_ℤ observed o.observed_at ≡ false
      → IsPlaced env r observed false (some o)

record Placed (env : Env) (r : Reading) (observed : ℤ) (o : Option Observation) (replay : Bool)
    : Type 0 where
  placed : IsPlaced env r observed replay o

check_previous-Placed :
    (env : Env) (r : Reading) (observed : ℤ) (o : Option Observation)
    → Ensures (Placed env r observed o) (check_previous observed (snapshot env r) o)
unfolding check_previous
check_previous-Placed env r observed none = gives (record { placed = first_seen })
check_previous-Placed env r observed (some o) = then_unless _ _ λ in_order.
    then_unless _ _ λ same_content. elim (Bool-cases (eqb_ℤ observed o.observed_at)) [
      | inl again ↦ rw again (gives (record { placed = replayed again (ground arith) }))
      | inr other ↦ rw other (gives (record { placed = newer in_order other }))
    ]

-- Binding aliases leaves the accounts and the observations alone.
record Bound (s t : State) : Type 0 where
  accounts : t.accounts ≡ s.accounts
  observations : t.observations ≡ s.observations

bind_aliases-Bound :
    (names : List String) (name : String) (s : State)
    → Ensures (Bound s) (bind_aliases name names s)
unfolding bind_aliases
bind_aliases-Bound [] name s = gives (record { accounts = refl; observations = refl })
bind_aliases-Bound (alias ∷ names) name s = elim (Option-cases (alias_row alias s)) [
  | inl absent ↦
      rw (absent, bind_aliases)
        (Ensures-map
          (λ t (b : Bound _ t). record { accounts = b.accounts; observations = b.observations })
          (bind_aliases-Bound names name
            (record s { aliases = record { id = alias; account = name } ∷ s.aliases })))
  | inr (old, found) ↦
      rw (found, bind_aliases) (then_unless _ _ λ same. bind_aliases-Bound names name s)
]

-- What a call leaves of the account: nothing changed by a replay, or the reading stored.
pub data IsStored (env : Env) (clock : Clock) (name : String) (r : Reading) (c : Checked)
    (s s' : State) : Bool → Type 0 where
  unchanged :
      s'.accounts ≡ s.accounts
      → s'.observations ≡ s.observations
      → IsStored env clock name r c s s' true
  stored :
      {acct : Account} {o : Observation}
      → account_row name s' ≡ some acct
      → acct.capacity ≡ c.capacity
      → acct.expires ≡ c.expires
      → acct.models ≡ r.models
      → ((k : String) (v : ℕ)
          → get? k c.windows ≡ some v
          → get? k acct.windows
            ≡ some (
                v
                - reserved clock k (where_rows (unseen_completion name c.observed_at) s.attempts)))
      → observation_row name s' ≡ some o
      → o.observed_at ≡ c.observed_at
      → o.snapshot_digest ≡ snapshot env r
      → IsStored env clock name r c s s' false

pub record IsConfigured (env : Env) (clock : Clock) (name : String) (r : Reading)
    (observed_in : Value) (s s' : State) : Type 0 where
  pub reading : Checked
  pub replay : Bool
  pub valid : check_reading clock r observed_in ≡ ok reading
  pub placed : IsPlaced env r reading.observed_at replay (observation_row name s)
  pub tables : IsStored env clock name r reading s s' replay

module _ (env : Env) (clock : Clock) (name : String) (r : Reading) (c : Checked) (s : State) where
  stored_account :
      (windows : Quota)
      → (acct : Account) × (account_row name (store_account name c windows r.models s) ≡ some acct)
        × (acct.capacity ≡ c.capacity)
        × (acct.expires ≡ c.expires)
        × (acct.models ≡ r.models)
        × (acct.windows ≡ windows)
  stored_account windows = elim (Option-cases (account_row name s)) [
    | inl absent ↦ (
      record {
        id = name;
        capacity = c.capacity;
        generation = 0;
        windows = windows;
        expires = c.expires;
        models = r.models;
      },
      ground (arith, absent, eq_iff name name),
      refl,
      refl,
      refl,
      refl,
    )
    | inr (old, found) ↦
        let updated =
          first-update_rows (λ (a : Account). a.id == name) (λ (a : Account). a.id == name)
            (λ (a : Account). record a {
              capacity = c.capacity;
              windows = windows;
              expires = c.expires;
              models = r.models;
            })
            (λ x. refl) s.accounts old found in
        let same = first-holds (λ (a : Account). a.id == name) s.accounts old found in
        (
          record old {
            capacity = c.capacity;
            windows = windows;
            expires = c.expires;
            models = r.models;
          },
          ground (arith, found, updated, same),
          refl,
          refl,
          refl,
          refl,
        )
  ]

  store_account-observations :
      (windows : Quota) → (store_account name c windows r.models s).observations ≡ s.observations
  store_account-observations windows = elim (Option-cases (account_row name s)) [
    | inl absent ↦ rw (absent, store_account) refl
    | inr (old, found) ↦ rw (found, store_account) refl
  ]

module _ (name : String) (observed : ℤ) (digest : String) (t : State) where
  store_observation-accounts : (store_observation name observed digest t).accounts ≡ t.accounts
  store_observation-accounts = elim (Option-cases (observation_row name t)) [
    | inl absent ↦ rw (absent, store_observation) refl
    | inr (old, found) ↦ rw (found, store_observation) refl
  ]

  stored_observation :
      (o : Observation) × (observation_row name (store_observation name observed digest t) ≡ some o)
      × (o.observed_at ≡ observed)
      × (o.snapshot_digest ≡ digest)
  unfolding observation_row
  stored_observation = elim (Option-cases (observation_row name t)) [
    | inl absent ↦ (
      record { account = name; observed_at = observed; snapshot_digest = digest },
      ground (arith, absent, eq_iff name name),
      refl,
      refl,
    )
    | inr (old, found) ↦
        let updated =
          first-update_rows (λ (o : Observation). o.account == name)
            (λ (o : Observation). o.account == name)
            (λ (o : Observation). record o { observed_at = observed; snapshot_digest = digest })
            (λ x. refl) t.observations old found in
        let same = first-holds (λ (o : Observation). o.account == name) t.observations old found in
        (
          record old { observed_at = observed; snapshot_digest = digest },
          ground (arith, found, updated, same),
          refl,
          refl,
        )
  ]

module _ (env : Env) (clock : Clock) (name : String) (r : Reading) (c : Checked) (s : State) where
  store_reading-IsStored :
      (t : State)
      → Bound (store_reading clock name c r.models (snapshot env r) s) t
      → IsStored env clock name r c s t false
  unfolding store_reading event observation_row
  store_reading-IsStored t b =
      let windows =
        less_completed clock c.windows
          (where_rows (unseen_completion name c.observed_at) s.attempts) in
      let (acct, row, capacity, expires, models, same) =
        stored_account env clock name r c s windows in
      let with_account = store_account name c windows r.models s in
      let (o, observation, at, digest) =
        stored_observation name c.observed_at (snapshot env r) with_account in
      stored {acct = acct} {o = o}
        (rw
          (b.accounts, store_observation-accounts name c.observed_at (snapshot env r) with_account)
          row)
        capacity expires models
        (λ k v h.
          subst
            (λ w.
              get? k w
              ≡ some (
                  v
                  - reserved clock k
                      (where_rows (unseen_completion name c.observed_at) s.attempts)))
            (sym same)
            (get?-less_completed clock k v c.windows
              (where_rows (unseen_completion name c.observed_at) s.attempts) h))
        (rw b.observations observation) at digest

record Configured (env : Env) (clock : Clock) (name : String) (r : Reading) (observed_in : Value)
    (s : State) (out : Unit {0} × State) : Type 0 where
  configured : IsConfigured env clock name r observed_in s out.1

module _ (env : Env) (clock : Clock) (name : String) (r : Reading) (observed_in : Value)
    (s : State) where
  placed-IsStored :
      (c : Checked) (replay : Bool) (t : State)
      → Bound (if replay then s else store_reading clock name c r.models (snapshot env r) s) t
      → IsStored env clock name r c s t replay
  placed-IsStored c true t b = unchanged b.accounts b.observations
  placed-IsStored c false t b = store_reading-IsStored env clock name r c s t b

  configure_account-Configured :
      (names : List String)
      → Ensures
          (Configured env clock name r observed_in s)
          (configure_account env clock name r names observed_in s)
  unfolding configure_account
  configure_account-Configured names = then_bind _ λ c valid. then_bind _ λ replay known.
      then_bind _ λ t bound. gives (record {
        configured = record {
          reading = c;
          replay = replay;
          valid = valid;
          placed =
              (Ensures-ok (check_previous-Placed env r c.observed_at (observation_row name s))
                known).placed;
          tables =
              placed-IsStored c replay t
                (Ensures-ok (bind_aliases-Bound (name ∷ names) name _) bound);
        };
      })

-- A `configure_account` that returns had a valid reading. One at the time of the account's last
-- observation is its replay, with the same content, and leaves accounts and observations alone; any
-- other one is later, and is stored with its capacity, expiry and models, each of its windows less
-- Python's sum of the estimates of the work that the account completed after the observation.
pub configure_account-IsConfigured :
    (env : Env) (clock : Clock) (name : String) (r : Reading) (names : List String)
    (observed_in : Value) (s s' : State)
    → configure_account env clock name r names observed_in s ≡ ok (tt, s')
    → IsConfigured env clock name r observed_in s s'
configure_account-IsConfigured env clock name r names observed_in s s' e =
    (Ensures-ok (configure_account-Configured env clock name r observed_in s names) e).configured
