-- ===== src/Ledger/Effects/Admit.antt =====
-- The effects of `claim`.
use inference_grid.Prelude.{ℕ, String, refl, sym, subst, ◌∙◌, first-any}
use inference_grid.Value.{Dict}
use inference_grid.Ledger.State.{State, Clock, event}
use inference_grid.Ledger.Claim.Admission.{Admission}
use inference_grid.Ledger.Effects.{Effect}
use inference_grid.Ledger.Effects.Quiet.{any_account-update_rows}
use inference_grid.Ledger.Effects.Added.{added-Effect}

module _ {clock : Clock} {aid task alias : String} {estimate : Dict} {s : State} where
  pub Admission-Effect :
      (out : (String × ℕ) × State) → Admission clock aid task alias estimate s out → Effect s out.1
  unfolding event
  Admission-Effect out a =
      subst (λ (o : (String × ℕ) × State). Effect s o.1) (sym a.result)
        (added-Effect _ refl refl refl
          (λ name h. any_account-update_rows name _ _ (λ x. refl) s.accounts ∙ h) refl
          (record { id = a.new_id; task = a.unattempted; workspace = λ h. a.workspace_free })
          (first-any _ s.tasks a.job a.known_task) (first-any _ s.accounts a.acct a.known_account))
