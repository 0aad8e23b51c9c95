-- ===== src/Collector/Cooled.antt =====
-- A provider's 429 (src/inference_grid/collector.py) pauses the collections of the account.
use inference_grid.Prelude.{ℕ, ◌≤◌, ◌<◌, String, ◌≡◌, ◌⊎◌, Option, none, some, List}
use inference_grid.Prelude.Int.{ℤ}
use inference_grid.Result.{Result, ok}
use inference_grid.Ledger.State.{State, Alias, Cooldown, alias_row, cooldown_row}
use inference_grid.RetryAfter.{Floats, Wait, wait_of, earliest}
use inference_grid.Collector.{Grid, cooling, claim_account}
use inference_grid.Collector.Response.{
  Response, CollectAnswer, Handled, abandoned_claim, answered_with, receipt_time,
}

-- The account is an alias of itself, as every configured one is.
abbrev pub IsSelfBound : String → State → Type 0
IsSelfBound account s = (b : Alias) × (alias_row account s ≡ some b) × (b.account ≡ account)

module _ (fl : Floats) (http_date : List ℕ → Option ℤ) (r : Response) (account : String)
    (now finished fallback : ℕ) where
  -- A stored cooldown: no earlier than the provider asked, from the time of receipt.
  pub record IsCooling (s : State) (until : ℕ) : Type 0 where
    pub received : ℕ
    pub received_then : receipt_time now finished r.received_at ≡ some received
    pub wait : Wait
    pub asked : wait_of fl http_date r.retry_after fallback ≡ ok wait
    pub reached : earliest received wait ≤ until
    pub row : (c : Cooldown) × (cooldown_row account "usage" s ≡ some c) × (c.until ≡ until)

  data HandlesCool : Handled → Type 0 where
    leaves_claim : {s : State} → HandlesCool (abandoned_claim s)
    cools :
        {s : State} {until : ℕ}
        → IsCooling s until
        → HandlesCool (
            answered_with (record { answered = "cooldown"; observed = none; until = some until }) s)

  -- What `collect` leaves behind a 429.
  pub record IsCooled (out : CollectAnswer × Grid) : Type 0 where
    pub kept_back : out.0.observed ≡ none
    pub ended :
        (out.0.answered ≡ "reconciliation_required")
        ⊎ ((until : ℕ) × (out.0.answered ≡ "cooldown")
            × (out.0.until ≡ some until)
            × IsCooling out.1.tables until
            × ((later : ℕ) (token : String) (timeout : ℕ)
                → later < until
                → claim_account later token account timeout out.1 ≡ (cooling until, out.1)))
