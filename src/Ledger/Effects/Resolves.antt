-- ===== src/Ledger/Effects/Resolves.antt =====
-- The effects of `resolve`, `accept` and `record_outcome`.
use inference_grid.Prelude.{
  String, true, false, ◌≡◌, refl, ◌∙◌, subst, ◌==◌, some, List, [], ◌∷◌, inl, inr, Bool-cases,
  arith, any, first, update_rows, update_rows_none, eq_iff,
}
use inference_grid.Value.{Value}
use inference_grid.Result.{
  Ensures, Ensures-ok, gives, then_bind, then_check, then_read, then_unless,
}
use inference_grid.Ledger.State.{accepted, Attempt, State, Clock, Env, account_row, item, event}
use inference_grid.Ledger.Resolve.{
  Resolution, released, consumed, resolve, settle_quota, resolvable, resolved_state, accept,
  is_completed, set_resolved,
}
use inference_grid.Ledger.Outcomes.{Outcome, record_outcome}
use inference_grid.Ledger.Lifecycle.{Moves, Evolves}
use inference_grid.Ledger.Lifecycle.Evolution.{
  update_rows-Evolves, held-Moves, completed-Moves, Evolves-refl, Keeps-refl,
}
use inference_grid.Ledger.Lifecycle.Soundness.{IsSound}
use inference_grid.Ledger.Effects.{Effect, Leaves}
use inference_grid.Ledger.Effects.Quiet.{quiet-Effect, idle-Effect, any_account-update_rows}
use inference_grid.Ledger.Effects.Added.{behind-Effect}
use inference_grid.Ledger.Effects.Dispatches.{returns, move_Keeps, and_right}

-- The effect of a call that leaves the attempts alone.
pub record Notes {A : Type 0} (s : State) (out : A × State) : Type 0 where
  pub effect : Effect s out.1
  pub same : out.1.attempts ≡ s.attempts

resolved-Moves :
    (o : Resolution) (r : Attempt) (aid : String)
    → resolvable aid r ≡ true
    → Moves r.state (resolved_state o)
resolved-Moves released r aid h = (held-Moves r.state (and_right _ _ h)).0
resolved-Moves consumed r aid h = (held-Moves r.state (and_right _ _ h)).1

module _ (env : Env) (clock : Clock) (s : State) where
  settle_quota-Effect :
      (o : Resolution) (r : Attempt) (t : State)
      → Evolves s.attempts t.attempts
      → t.tasks ≡ s.tasks
      → t.aliases ≡ s.aliases
      → t.observations ≡ s.observations
      → t.accounts ≡ s.accounts
      → Ensures (Effect s) (settle_quota o r t)
  unfolding settle_quota
  settle_quota-Effect released r t e tasks aliases observations accounts =
      gives (quiet-Effect tasks aliases observations (λ name h. rw accounts h) e)
  settle_quota-Effect consumed r t e tasks aliases observations accounts =
      then_read (account_row r.account t) _ λ acct known. gives (
        quiet-Effect tasks aliases observations
          (λ name h. any_account-update_rows name _ _ (λ x. refl) t.accounts ∙ (rw accounts h)) e)

  pub resolve-Effect :
      (aid : String) (outcome reason operator evidence : Value)
      → Ensures (Leaves s) (resolve env clock aid outcome reason operator evidence s)
  unfolding resolve event
  resolve-Effect aid outcome reason operator evidence = then_read _ _ λ o known.
      then_read _ _ λ reason' bounded. then_read _ _ λ operator' attested. then_unless _ _ λ human.
        then_unless _ _ λ object. then_read _ _ λ found known_row. then_unless _ _ λ is_held.
          then_unless _ _ λ unchanged.
            then_bind (settle_quota o found (set_resolved clock aid o s)) λ settled e. returns (
              behind-Effect
                (Ensures-ok
                  (settle_quota-Effect o found _
                    (update_rows-Evolves _ _
                      (λ r h. move_Keeps r (resolved_state o) _ _ _ (resolved-Moves o r aid h))
                      s.attempts)
                    refl refl refl refl)
                  e)
                (idle-Effect refl refl refl refl refl) refl)

  -- With ids distinct, the update by id alone meets the completed row that was read.
  accept_row-Evolves :
      (aid : String) (found : Attempt) (rows : List Attempt)
      → IsSound rows
      → first (λ r. r.id == aid) rows ≡ some found
      → is_completed found.state ≡ true
      → Evolves rows (update_rows (λ r. r.id == aid) (λ r. record r { state = accepted }) rows)
  accept_row-Evolves aid found [] h e done = cc
  accept_row-Evolves aid found (r ∷ rows) h e done = elim (Bool-cases (r.id == aid)) [
    | inl same ↦
        rw
          (
            same,
            update_rows_none (λ (q : Attempt). q.id == aid)
                (λ (q : Attempt). record q { state = accepted }) rows
                (subst (λ x. any (λ (q : Attempt). q.id == x) rows ≡ false)
                  ((eq_iff r.id aid).0 same) h.0.id),
          )
          (Evolves.row (move_Keeps r accepted _ _ _ (completed-Moves r.state (ground arith)))
            (Evolves-refl rows))
    | inr other ↦
        rw other
          (Evolves.row (Keeps-refl r) (accept_row-Evolves aid found rows h.1 (ground arith) done))
  ]

  pub accept-Effect :
      (aid : String) (receipt_digest family verdict : Value)
      → IsSound s.attempts
      → Ensures (Leaves s) (accept env clock aid receipt_digest family verdict s)
  unfolding accept event
  accept-Effect aid receipt_digest family verdict sound = then_read _ _ λ found known_row.
      then_read _ _ λ task known_task. then_unless _ _ λ candidate. then_unless _ _ λ reviewer.
        then_bind (item "family" task.spec) λ family' family_of. then_unless _ _ λ approved.
          returns (
            quiet-Effect refl refl refl (λ name h. h)
              (accept_row-Evolves aid found s.attempts sound known_row (ground arith)))

  pub record_outcome-Effect :
      (aid : String) (o : Outcome) → Ensures (Notes s) (record_outcome clock aid o s)
  unfolding record_outcome event
  record_outcome-Effect aid o = then_read _ _ λ category bounded. then_read _ _ λ accepted' is_bool.
      then_check _ λ usage. then_unless _ _ λ repairs. then_unless _ _ λ note.
        then_read _ _ λ found known_row. then_unless _ _ λ terminal.
          then_unless _ _
            λ done. gives (record { effect = idle-Effect refl refl refl refl refl; same = refl })
