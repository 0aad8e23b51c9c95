-- ===== src/OpencodeOutcomes/Qualification.antt =====
-- When `classify_opencode` (src/inference_grid/opencode_outcomes.py) calls a run complete.
use inference_grid.Prelude.{
  ℕ, String, false, ◌≡◌, ◌≢◌, refl, sym, subst, Option, none, some, List, [], ◌∷◌, inl, inr,
  Bool-cases, Option-cases, is_empty, where_rows, length, ltb,
}
use inference_grid.Value.{Value, Dict, get_value}
use inference_grid.GoatOutcomes.{rows_of}
use inference_grid.OpencodeOutcomes.{
  native_complete, Receipt, Classified, Progress, max_events, is_step_finish, terminal_text,
  is_wall_deadline, echoed_model, qualify, judge_terminals, classify_opencode,
}

-- What a stream is that qualifies, with the receipt that it earns.
pub record IsQualified (lower : String → List ℕ) (rows : List Value) (supervisor : Option Dict)
    (model : String) (receipt : Receipt) : Type 0 where
  pub in_time : is_wall_deadline supervisor ≡ false
  pub bounded : ltb max_events (length rows) ≡ false
  pub events : List Dict
  pub objects : rows_of rows ≡ some events
  pub terminal : Dict
  pub only : where_rows is_step_finish events ≡ terminal ∷ []
  pub named : echoed_model lower model (get_value "modelID" terminal) ≡ some receipt.actual_model
  pub worded : is_empty (terminal_text events) ≡ false
  pub text : receipt.text ≡ terminal_text events
  pub finish_reason : receipt.finish_reason ≡ get_value "reason" terminal
  pub usage : receipt.usage ≡ get_value "tokens" terminal

same_receipt : {a b : Receipt} → some a ≡ some b → a ≡ b
same_receipt h = cc

module _ (lower : String → List ℕ) (rows : List Value) (supervisor : Option Dict)
    (model : String) where
  -- What a classification tells: a receipt exactly with the outcome of a qualified stream.
  record Tells (c : Classified) : Type 0 where
    earned :
        (r : Receipt)
        → c.receipt ≡ some r
        → (c.outcome ≡ native_complete) × IsQualified lower rows supervisor model r
    paid : c.outcome ≡ native_complete → c.receipt ≢ none

  qualify-Tells :
      (events : List Dict) (terminal : Dict) (progress : Progress)
      → is_wall_deadline supervisor ≡ false
      → ltb max_events (length rows) ≡ false
      → rows_of rows ≡ some events
      → where_rows is_step_finish events ≡ terminal ∷ []
      → Tells (qualify lower model events progress terminal)
  unfolding qualify
  qualify-Tells events terminal progress in_time bounded objects only =
      elim (Option-cases (echoed_model lower model (get_value "modelID" terminal))) [
        | inl unnamed ↦ rw (unnamed, qualify) (record { earned = λ r e. cc; paid = λ e. cc })
        | inr (echoed, named) ↦
            rw (named, qualify)
              (elim (Bool-cases (is_empty (terminal_text events))) [
                | inl silent ↦ rw silent (record { earned = λ r e. cc; paid = λ e. cc })
                | inr worded ↦ rw worded (record {
                  earned = λ r e. (
                    refl,
                    subst (IsQualified lower rows supervisor model) (same_receipt e) (record {
                      in_time = in_time;
                      bounded = bounded;
                      events = events;
                      objects = objects;
                      terminal = terminal;
                      only = only;
                      named = named;
                      worded = worded;
                      text = refl;
                      finish_reason = refl;
                      usage = refl;
                    }),
                  );
                  paid = λ e absent. cc;
                })
              ])
      ]

  judge_terminals-Tells :
      (events : List Dict) (progress : Progress) (terminals : List Dict)
      → is_wall_deadline supervisor ≡ false
      → ltb max_events (length rows) ≡ false
      → rows_of rows ≡ some events
      → where_rows is_step_finish events ≡ terminals
      → Tells (judge_terminals lower model events progress terminals)
  unfolding judge_terminals
  judge_terminals-Tells events progress [] in_time bounded objects only = record {
    earned = λ r e. cc;
    paid = λ e. cc;
  }
  judge_terminals-Tells events progress (terminal ∷ []) in_time bounded objects only =
      qualify-Tells events terminal progress in_time bounded objects only
  judge_terminals-Tells events progress (terminal ∷ next ∷ rest) in_time bounded objects only =
      record { earned = λ r e. cc; paid = λ e. cc }

  classify_opencode-Tells : Tells (classify_opencode lower rows supervisor model)
  unfolding classify_opencode
  classify_opencode-Tells = elim (Bool-cases (is_wall_deadline supervisor)) [
    | inl late ↦ rw late (record { earned = λ r e. cc; paid = λ e. cc })
    | inr in_time ↦ rw in_time (elim (Bool-cases (ltb max_events (length rows))) [
      | inl long ↦ rw long (record { earned = λ r e. cc; paid = λ e. cc })
      | inr bounded ↦ rw bounded (elim (Option-cases (rows_of rows)) [
        | inl broken ↦ rw broken (record { earned = λ r e. cc; paid = λ e. cc })
        | inr (events, objects) ↦ rw objects (
            judge_terminals-Tells events _ (where_rows is_step_finish events) in_time bounded
              objects refl)
      ])
    ])
  ]

IsQualified-receipt :
    (lower : String → List ℕ) (rows : List Value) (supervisor : Option Dict) (model : String)
    (r : Receipt)
    → IsQualified lower rows supervisor model r
    → (classify_opencode lower rows supervisor model).receipt ≡ some r
unfolding classify_opencode judge_terminals qualify
IsQualified-receipt lower rows supervisor model r q =
    rw (q.in_time, q.bounded, q.objects, q.only)
      (rw (q.named, qualify) (rw q.worded (rw (sym q.text, sym q.finish_reason, sym q.usage) refl)))

-- `classify_opencode` hands out a receipt exactly where the run qualifies: it was not stopped at its
-- deadline, has at most 10000 events, all of them objects, and one terminal event, which names the
-- model but for its case; the texts of all its text events, joined by spaces, are not blank; and the
-- receipt holds the named model, this joined and stripped text, and the terminal's reason and tokens. With a receipt the outcome is
-- native_complete, and without one it is another.
pub classify_opencode_iff :
    (lower : String → List ℕ) (rows : List Value) (supervisor : Option Dict) (model : String)
    (r : Receipt)
    → ((classify_opencode lower rows supervisor model).receipt ≡ some r
        → ((classify_opencode lower rows supervisor model).outcome ≡ native_complete)
          × IsQualified lower rows supervisor model r)
      × (IsQualified lower rows supervisor model r
          → (classify_opencode lower rows supervisor model).receipt ≡ some r)
      × ((classify_opencode lower rows supervisor model).outcome ≡ native_complete
          → (classify_opencode lower rows supervisor model).receipt ≢ none)
classify_opencode_iff lower rows supervisor model r =
    let h = classify_opencode-Tells lower rows supervisor model in
    (h.earned r, IsQualified-receipt lower rows supervisor model r, h.paid)
