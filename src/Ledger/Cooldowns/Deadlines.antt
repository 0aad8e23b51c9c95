-- ===== src/Ledger/Cooldowns/Deadlines.antt =====
-- `defer` (src/inference_grid/ledger.py) only ever lengthens a cooldown, which then stops claims.
use inference_grid.Prelude.{
  ℕ, String, ◌≡◌, refl, ◌<◌, ◌≢◌, eq_iff, Option, none, some, inl, inr, Option-cases, Bool-cases,
  arith, first-update_rows, first-holds, ltb,
}
use inference_grid.Value.{Value, Dict}
use inference_grid.Result.{ok, Ensures, Ensures-ok, gives, then_read, then_unless}
use inference_grid.Ledger.State.{Cooldown, Alias, State, Clock, alias_row, cooldown_row, event}
use inference_grid.Ledger.Claim.{claim, inference_paused}
use inference_grid.Ledger.Claim.Admission.{claim-Admission}
use inference_grid.Ledger.Cooldowns.{defer, store_deadline, valid_deadline, is_cooldown, later}

-- The deadline that a call found, if any, and the one it leaves.
pub data IsLengthened (until deadline : ℕ) : Option Cooldown → Type 0 where
  first_one : deadline ≡ until → IsLengthened until deadline none
  lengthened :
      {c : Cooldown} → deadline ≡ later c.until until → IsLengthened until deadline (some c)

pub record IsDeferred (alias endpoint : String) (until_in : Value) (s : State)
    (out : (String × ℕ) × State) : Type 0 where
  pub until : ℕ
  pub binding : Alias
  pub given : valid_deadline until_in ≡ some until
  pub bound : alias_row alias s ≡ some binding
  pub account : out.0.0 ≡ binding.account
  pub deadline : IsLengthened until out.0.1 (cooldown_row binding.account endpoint s)
  pub row :
      (c : Cooldown) × (cooldown_row binding.account endpoint out.1 ≡ some c) × (c.until ≡ out.0.1)
  pub bound_still : alias_row alias out.1 ≡ some binding

module _ (account endpoint : String) (until : ℕ) (s : State) where
  record Stored (out : ℕ × State) : Type 0 where
    deadline : IsLengthened until out.0 (cooldown_row account endpoint s)
    row : (c : Cooldown) × (cooldown_row account endpoint out.1 ≡ some c) × (c.until ≡ out.0)
    aliases : out.1.aliases ≡ s.aliases

  store_deadline-Stored : Stored (store_deadline account endpoint until s)
  unfolding store_deadline
  store_deadline-Stored = elim (Option-cases (cooldown_row account endpoint s)) [
    | inl absent ↦
        rw (absent, store_deadline)
          (record {
            deadline = rw absent (first_one refl);
            row = (
              record { account = account; endpoint = endpoint; until = until },
              ground (arith, eq_iff account account, eq_iff endpoint endpoint),
              refl,
            );
            aliases = refl;
          })
    | inr (old, found) ↦
        rw (found, store_deadline)
          (elim (Bool-cases (ltb old.until until)) [
            | inl longer ↦
                let here = first-holds (is_cooldown account endpoint) s.cooldowns old found in
                let updated =
                  first-update_rows (is_cooldown account endpoint) (is_cooldown account endpoint)
                    (λ (c : Cooldown). record c { until = until }) (λ x. refl) s.cooldowns old
                    found in
                rw longer (record {
                  deadline = rw found (lengthened (ground arith));
                  row = (record old { until = until }, ground (arith, updated, here), refl);
                  aliases = refl;
                })
            | inr shorter ↦ rw shorter (record {
              deadline = rw found (lengthened (ground arith));
              row = (old, found, refl);
              aliases = refl;
            })
          ])
  ]

defer-Ensures :
    (clock : Clock) (alias endpoint : String) (until_in : Value) (s : State)
    → Ensures (IsDeferred alias endpoint until_in s) (defer clock alias endpoint until_in s)
unfolding defer event
defer-Ensures clock alias endpoint until_in s = then_unless _ _ λ endpoint_known.
    then_read _ _ λ until given. then_read _ _ λ binding bound.
      let stored = store_deadline-Stored binding.account endpoint until s in
      gives (record {
        until = until;
        binding = binding;
        given = given;
        bound = bound;
        account = refl;
        deadline = stored.deadline;
        row = stored.row;
        bound_still = rw stored.aliases bound;
      })

-- A `defer` that returns has stored, for the alias's account and the endpoint, the later one of the
-- given deadline and the one recorded before: it shortens no cooldown.
pub defer-IsDeferred :
    (clock : Clock) (alias endpoint : String) (until : Value) (s : State)
    (out : (String × ℕ) × State)
    → defer clock alias endpoint until s ≡ ok out
    → IsDeferred alias endpoint until s out
defer-IsDeferred clock alias endpoint until s out e =
    Ensures-ok (defer-Ensures clock alias endpoint until s) e

-- Behind a deferral of the inference endpoint, no task is claimed by that alias before the deadline
-- that the deferral returned.
pub deferred_unclaimed :
    (clock clock' : Clock) (aid task alias : String) (until : Value) (estimate : Dict) (s : State)
    (out : (String × ℕ) × State) (out' : (String × ℕ) × State)
    → defer clock alias "inference" until s ≡ ok out
    → clock'.time 0 < out.0.1
    → claim clock' aid task alias estimate out.1 ≢ ok out'
unfolding inference_paused
deferred_unclaimed clock clock' aid task alias until estimate s out out' e early e' =
    let d = defer-IsDeferred clock alias "inference" until s out e in
    let a = Ensures-ok (claim-Admission clock' aid task alias estimate out.1) e' in
    let (c, found, same) = d.row in
    ground (arith, a.known_alias, d.bound_still, a.not_paused, found, same, early)
