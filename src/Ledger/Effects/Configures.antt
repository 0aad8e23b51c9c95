-- ===== src/Ledger/Effects/Configures.antt =====
-- The effects of `configure_account`.
use inference_grid.Prelude.{
  String, Bool, true, false, ◌≡◌, refl, sym, ◌∙◌, ◌==◌, none, some, List, [], ◌∷◌, inl, inr,
  Option-cases, Bool-cases, All, arith, eq_iff, first, first-any, first-holds, All-first,
  if◌then◌else◌, subst, update_rows,
}
use inference_grid.Prelude.Int.{ℤ}
use inference_grid.Value.{Value}
use inference_grid.Result.{
  ok, Ensures, Ensures-ok, Ensures-map, gives, then_bind, then_unless, chain,
}
use inference_grid.Ledger.State.{
  Quota, Alias, Observation, State, Clock, Env, account_row, alias_row, event,
}
use inference_grid.Ledger.Configure.{
  Checked, Reading, store_account, store_observation, store_reading, bind_aliases, observation_row,
  configure_account, check_previous, snapshot,
}
use inference_grid.Ledger.Lifecycle.{updated}
use inference_grid.Ledger.Lifecycle.Evolution.{Evolves-refl}
use inference_grid.Ledger.Effects.{Effect, Leaves, IsConnected, has_account}
use inference_grid.Ledger.Effects.Quiet.{quiet-Effect, any_account-update_rows, Effect-refl}
use inference_grid.Ledger.Effects.Added.{behind-Effect}
use inference_grid.Ledger.Effects.Dispatches.{returns}
use inference_grid.Ledger.Effects.Setup.{event-Effect}

-- A step that leaves the attempts alone.
pub record Sets (s s' : State) : Type 0 where
  pub effect : Effect s s'
  pub same : s'.attempts ≡ s.attempts

Sets-refl : (s : State) → Sets s s
Sets-refl s = record { effect = Effect-refl s; same = refl }

Sets-trans : {s t u : State} → Sets s t → Sets t u → Sets s u
Sets-trans h k = record { effect = behind-Effect h.effect k.effect k.same; same = k.same ∙ h.same }

module _ (name : String) (c : Checked) (windows : Quota) (models : List Value) (s : State) where
  store_account-Sets :
      Sets s (store_account name c windows models s)
      × (has_account name (store_account name c windows models s) ≡ true)
  store_account-Sets = elim (Option-cases (account_row name s)) [
    | inl e ↦
        rw (e, store_account)
          (
            record {
              effect = quiet-Effect refl refl refl (λ x h. ground arith) (Evolves-refl s.attempts);
              same = refl;
            },
            ground (arith, eq_iff name name),
          )
    | inr (old, e) ↦
        rw (e, store_account)
          (
            record {
              effect =
                  quiet-Effect refl refl refl
                    (λ x h. any_account-update_rows x _ _ (λ a. refl) s.accounts ∙ h)
                    (Evolves-refl s.attempts);
              same = refl;
            },
            any_account-update_rows name _ _ (λ a. refl) s.accounts ∙ first-any _ s.accounts old e,
          )
  ]

All_observed-update :
    (s : State) (name : String) (f : Observation → Observation) (rows : List Observation)
    → ((o : Observation) → (f o).account ≡ o.account)
    → All (λ o. has_account o.account s ≡ true) rows
    → All (λ o. has_account o.account s ≡ true) (update_rows (λ o. o.account == name) f rows)
All_observed-update s name f [] same h = tt
All_observed-update s name f (o ∷ rows) same h = elim (Bool-cases (o.account == name)) [
  | inl e ↦ rw e (
    subst (λ x. has_account x s ≡ true) (sym (same o)) h.0,
    All_observed-update s name f rows same h.1,
  )
  | inr e ↦ rw e (h.0, All_observed-update s name f rows same h.1)
]

module _ (name : String) (observed : ℤ) (digest : String) (s : State) where
  store_observation-Sets :
      has_account name s ≡ true
      → Sets s (store_observation name observed digest s)
        × (has_account name (store_observation name observed digest s) ≡ true)
  store_observation-Sets known = elim (Option-cases (observation_row name s)) [
    | inl e ↦
        rw (e, store_observation)
          (
            record {
              effect = record {
                attempts = updated (Evolves-refl s.attempts);
                tasks = λ x t h. h;
                aliases = λ x a h. h;
                connected = λ c. record {
                  tasks = c.tasks;
                  accounts = c.accounts;
                  bindings = c.bindings;
                  observed = (known, c.observed);
                };
              };
              same = refl;
            },
            known,
          )
    | inr (old, e) ↦
        rw (e, store_observation)
          (
            record {
              effect = record {
                attempts = updated (Evolves-refl s.attempts);
                tasks = λ x t h. h;
                aliases = λ x a h. h;
                connected = λ c. record {
                  tasks = c.tasks;
                  accounts = c.accounts;
                  bindings = c.bindings;
                  observed = All_observed-update s name _ s.observations (λ o. refl) c.observed;
                };
              };
              same = refl;
            },
            known,
          )
  ]

-- An alias under a new name hides no other.
first_alias-cons :
    (name : String) (a new : Alias) (rows : List Alias)
    → first (λ q. q.id == name) rows ≡ some a
    → first (λ q. q.id == new.id) rows ≡ none
    → first (λ q. q.id == name) (new ∷ rows) ≡ some a
first_alias-cons name a new rows h fresh = elim (Bool-cases (new.id == name)) [
  | inl same ↦
      let e = (eq_iff new.id name).0 same in
      cc (subst (λ x. first (λ (q : Alias). q.id == x) rows ≡ none) e fresh)
  | inr other ↦ rw other h
]

bind_alias-Sets :
    (name alias : String) (s : State)
    → has_account name s ≡ true
    → alias_row alias s ≡ none
    → Sets s (record s { aliases = record { id = alias; account = name } ∷ s.aliases })
bind_alias-Sets name alias s known fresh = record {
  effect = record {
    attempts = updated (Evolves-refl s.attempts);
    tasks = λ x t h. h;
    aliases = λ x a h. first_alias-cons x a _ s.aliases h fresh;
    connected = λ c. record {
      tasks = c.tasks;
      accounts = c.accounts;
      bindings = (known, c.bindings);
      observed = c.observed;
    };
  };
  same = refl;
}

bind_aliases-Sets :
    (name : String) (aliases : List String) (s : State)
    → has_account name s ≡ true
    → Ensures (Sets s) (bind_aliases name aliases s)
unfolding bind_aliases
bind_aliases-Sets name [] s known = gives (Sets-refl s)
bind_aliases-Sets name (alias ∷ rest) s known = elim (Option-cases (alias_row alias s)) [
  | inl e ↦
      rw (e, bind_aliases)
        (Ensures-map (λ u h. Sets-trans (bind_alias-Sets name alias s known e) h)
          (bind_aliases-Sets name rest
            (record s { aliases = record { id = alias; account = name } ∷ s.aliases }) known))
  | inr (old, e) ↦
      rw (e, bind_aliases) (then_unless _ _ λ same. bind_aliases-Sets name rest s known)
]

store_reading-Sets :
    (clock : Clock) (name : String) (c : Checked) (models : List Value) (digest : String)
    (s : State)
    → Sets s (store_reading clock name c models digest s)
      × (has_account name (store_reading clock name c models digest s) ≡ true)
unfolding store_reading event
store_reading-Sets clock name c models digest s =
    let (stored, known) = store_account-Sets name c _ models s in
    let (observed, known') = store_observation-Sets name c.observed_at digest _ known in
    (
      Sets-trans (Sets-trans stored observed) (record {
        effect = event-Effect (clock.time 3) none "quota_observed" _ (Effect-refl _);
        same = refl;
      }),
      known',
    )

-- With a replay the account is known by the observation that it repeats.
All-known :
    (name : String) (s : State) (rows : List Observation) (o : Observation)
    → All (λ q. has_account q.account s ≡ true) rows
    → first (λ q. q.account == name) rows ≡ some o
    → has_account name s ≡ true
All-known name s rows o h e =
    let found =
      All-first (λ q. has_account q.account s ≡ true) (λ q. q.account == name) rows o h e in
    subst (λ x. has_account x s ≡ true)
      ((eq_iff o.account name).0 (first-holds (λ q. q.account == name) rows o e)) found

module _ (env : Env) (clock : Clock) (s : State) (c : IsConnected s) where
  reading-Sets :
      (name : String) (checked : Checked) (models : List Value) (digest : String) (replay : Bool)
      → check_previous checked.observed_at digest (observation_row name s) ≡ ok replay
      → let s' = if replay then s else store_reading clock name checked models digest s in
        Sets s s' × (has_account name s' ≡ true)
  unfolding check_previous observation_row chain
  reading-Sets name checked models digest false e =
      store_reading-Sets clock name checked models digest s
  reading-Sets name checked models digest true e = elim (Option-cases (observation_row name s)) [
    | inl absent ↦ absurd (ground arith)
    | inr (o, found) ↦ (Sets-refl s, All-known name s s.observations o c.observed found)
  ]

  pub configure_account-Effect :
      (name : String) (r : Reading) (aliases : List String) (observed : Value)
      → Ensures (Leaves s) (configure_account env clock name r aliases observed s)
  unfolding configure_account
  configure_account-Effect name r aliases observed = then_bind _ λ checked passed.
      then_bind _ λ replay allowed. then_bind _ λ bound e.
        let (set, known) = reading-Sets name checked r.models (snapshot env r) replay allowed in
        returns
          (Sets-trans set (Ensures-ok (bind_aliases-Sets name (name ∷ aliases) _ known) e)).effect
