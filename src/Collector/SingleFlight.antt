-- ===== src/Collector/SingleFlight.antt =====
-- One collection of an account at a time (src/inference_grid/collector.py).
use inference_grid.Prelude.{
  ℕ, String, Bool, true, false, ◌≡◌, ◌≢◌, refl, sym, ap, subst, ◌∙◌, ◌==◌, ◌&&◌, ◌+◌, ltb, some,
  List, [], ◌∷◌, All, arith, eq_iff, inl, inr, Option-cases, Bool-cases, first-holds,
  first-update_rows, if◌then◌else◌,
}
use inference_grid.Prelude.Text.{is_text}
use inference_grid.Value.{Value}
use inference_grid.Result.{ok, Ensures, Ensures-ok, gives, then_read, Result-cases}
use inference_grid.Ledger.State.{Env, cooldown_row}
use inference_grid.Collector.{
  Collecting, Grid, Admission, collecting, claim_row, is_held, begun, store_claim, claim_account,
  cooling_until, held_now, held_answer, admit_collection, has_token, settled, settle_collection,
  Move, admits, settles, serves, move, moves, behind,
}

-- The account's claim is held by this token.
pub record IsHeldBy (account token : String) (g : Grid) : Type 0 where
  pub claim : Collecting
  pub row : claim_row account g ≡ some claim
  pub holder : claim.token ≡ some token

never_both : true ≡ false → ⊥
never_both h = cc

and_false : (a b : Bool) → b ≡ false → (a && b) ≡ false
and_false a b h = ground arith

held_row :
    (c : Collecting) (token : String)
    → c.token ≡ some token
    → is_text token ≡ true
    → is_held c ≡ true
held_row c token h t = rw h t

-- A claim of another account leaves this one's.
differs :
    (own account other : String)
    → (own == account) ≡ true
    → (other == account) ≡ false
    → (own == other) ≡ false
differs own account other same differ = elim (Bool-cases (own == other)) [
  | inl equal ↦ absurd (
      never_both (
        sym (
          (eq_iff other account).1 (sym ((eq_iff own other).0 equal) ∙ (eq_iff own account).0 same))
        ∙ differ))
  | inr unequal ↦ unequal
]

other_claim :
    (account token other new : String) (deadline : ℕ) (g : Grid)
    → (other == account) ≡ false
    → IsHeldBy account token g
    → IsHeldBy account token (store_claim other new deadline g)
unfolding store_claim
other_claim account token other new deadline g differ h = elim (Option-cases (claim_row other g)) [
  | inl absent ↦ record {
    claim = h.claim;
    row = rw (absent, store_claim) (rw differ h.row);
    holder = h.holder;
  }
  | inr (prior, found) ↦
      let is_own = first-holds (λ (c : Collecting). c.account == account) g.claims h.claim h.row in
      let kept =
        first-update_rows (λ (c : Collecting). c.account == account)
          (λ (c : Collecting). c.account == other) (begun new deadline) (λ x. refl) g.claims h.claim
          h.row in
      let passed = differs h.claim.account account other is_own differ in
      record {
        claim = h.claim;
        row =
            rw (found, store_claim)
              (kept ∙ ap (λ b. some (if b then begun new deadline h.claim else h.claim)) passed);
        holder = h.holder;
      }
]

-- What an admission may have done, while a token holds an account.
record Admits (account token : String) (out : Admission × Grid) : Type 0 where
  still : IsHeldBy account token out.1
  elsewhere :
      (other : String) (deadline : ℕ)
      → out.0 ≡ collecting other deadline
      → (other == account) ≡ false

eq_sym : (a b : String) → (a == b) ≡ false → (b == a) ≡ false
eq_sym a b h = elim (Bool-cases (b == a)) [
  | inl same ↦ absurd (never_both (sym ((eq_iff a b).1 (sym ((eq_iff b a).0 same))) ∙ h))
  | inr differ ↦ differ
]

unsettled :
    (account token other gone : String) (c : Collecting)
    → (c.account == account) ≡ true
    → c.token ≡ some token
    → ((other == account) && (gone == token)) ≡ false
    → has_token other gone c ≡ false
unsettled account token other gone c own holder differ = elim (Bool-cases (other == account)) [
  | inr apart ↦ let passed = differs c.account account other own apart in rw passed refl
  | inl same ↦
      let gone_differs : (gone == token) ≡ false = ground (arith, same, differ) in
      let kept = eq_sym gone token gone_differs in
      rw holder (and_false (c.account == other) (token == gone) kept)
]

abbrev is_collecting : Admission → Bool
is_collecting (collecting o d) = true
is_collecting _ = false

held_answer_idle :
    (now : ℕ) (account : String) (g : Grid) → is_collecting (held_answer now account g) ≡ false
held_answer_idle now account g = elim (Option-cases (claim_row account g)) [
  | inl absent ↦ rw (absent, held_answer) refl
  | inr (prior, found) ↦ elim (Bool-cases (ltb now prior.deadline)) [
    | inl early ↦ rw (found, held_answer) (rw early refl)
    | inr late ↦ rw (found, held_answer) (rw late refl)
  ]
]

held_answer-waits :
    (now : ℕ) (account : String) (g : Grid) (o : String) (d : ℕ)
    → held_answer now account g ≡ collecting o d
    → ⊥
held_answer-waits now account g o d e =
    never_both (sym (ap is_collecting e) ∙ held_answer_idle now account g)

same_account : {a b : String} {c d : ℕ} → Admission.collecting a c ≡ collecting b d → a ≡ b
same_account h = cc

free_elsewhere :
    (account token other : String) (g : Grid)
    → is_text token ≡ true
    → IsHeldBy account token g
    → held_now other g ≡ false
    → (other == account) ≡ false
free_elsewhere account token other g t h free = elim (Bool-cases (other == account)) [
  | inr differ ↦ differ
  | inl same ↦
      let taken : held_now account g ≡ true =
        rw (h.row, held_now) (held_row h.claim token h.holder t) in
      absurd (
        never_both
          (sym taken ∙ (ap (λ x. held_now x g) (sym ((eq_iff other account).0 same)) ∙ free)))
]

claim_account-Admits :
    (account token : String) (now : ℕ) (new other : String) (timeout : ℕ) (g : Grid)
    → is_text token ≡ true
    → IsHeldBy account token g
    → Admits account token (claim_account now new other timeout g)
unfolding claim_account
claim_account-Admits account token now new other timeout g t h =
    let differs_free : held_now other g ≡ false → (other == account) ≡ false =
      λ free. free_elsewhere account token other g t h free in
    elim (Option-cases (cooling_until now (cooldown_row other "usage" g.tables))) [
      | inr (until, cool) ↦ rw (cool, claim_account) (record { still = h; elsewhere = λ o d e. cc })
      | inl warm ↦ elim (Bool-cases (held_now other g)) [
        | inl taken ↦
            rw (warm, claim_account)
              (rw taken (record {
                still = h;
                elsewhere = λ o d e. absurd (held_answer-waits now other g o d e);
              }))
        | inr free ↦
            rw (warm, claim_account)
              (rw free (record {
                still = other_claim account token other new (now + timeout) g (differs_free free) h;
                elsewhere = λ o d e.
                    subst (λ x. (x == account) ≡ false) (same_account e) (differs_free free);
              }))
      ]
    ]

admit_collection-Admits :
    (account token : String) (now : ℕ) (new alias : String) (timeout fallback : Value) (g : Grid)
    → is_text token ≡ true
    → IsHeldBy account token g
    → Ensures (Admits account token) (admit_collection now new alias timeout fallback g)
unfolding admit_collection
admit_collection-Admits account token now new alias timeout fallback g t h =
    then_read _ _ λ seconds timeout_of. then_read _ _ λ wait fallback_of.
      then_read _ _ λ binding bound. then_read _ _ λ acct known.
        gives (claim_account-Admits account token now new binding.account seconds g t h)

settle-IsHeldBy :
    (account token other gone status : String) (g : Grid)
    → ((other == account) && (gone == token)) ≡ false
    → IsHeldBy account token g
    → IsHeldBy account token (settle_collection other gone status g).1
unfolding settle_collection
settle-IsHeldBy account token other gone status g differ h =
    let kept =
      first-update_rows (λ (c : Collecting). c.account == account) (has_token other gone)
        (settled status) (λ x. refl) g.claims h.claim h.row in
    let is_own = first-holds (λ (c : Collecting). c.account == account) g.claims h.claim h.row in
    record {
      claim = h.claim;
      row =
          kept
          ∙ ap (λ b. some (if b then settled status h.claim else h.claim))
              (unsettled account token other gone h.claim is_own h.holder differ);
      holder = h.holder;
    }

-- A move that does not end this collection: a token is ended by the collection that wrote it.
abbrev pub Spares : String → String → Move → Type 0
Spares account token (settles other gone status) = ((other == account) && (gone == token)) ≡ false
Spares account token _ = Unit

move-IsHeldBy :
    (env : Env) (account token : String) (m : Move) (g : Grid)
    → is_text token ≡ true
    → Spares account token m
    → IsHeldBy account token g
    → IsHeldBy account token (move env m g)
unfolding move
move-IsHeldBy env account token (admits now new alias timeout fallback) g t spares h =
    elim (Result-cases (admit_collection now new alias timeout fallback g)) [
      | inl (out, e) ↦
          rw (e, behind)
            (Ensures-ok (admit_collection-Admits account token now new alias timeout fallback g t h)
              e).still
      | inr (error, e) ↦ rw (e, behind) h
    ]
move-IsHeldBy env account token (settles other gone status) g t spares h =
    settle-IsHeldBy account token other gone status g spares h
move-IsHeldBy env account token (serves clock call) g t spares h = record {
  claim = h.claim;
  row = h.row;
  holder = h.holder;
}

moves-IsHeldBy :
    (env : Env) (account token : String) (ms : List Move) (g : Grid)
    → is_text token ≡ true
    → All (Spares account token) ms
    → IsHeldBy account token g
    → IsHeldBy account token (moves env ms g)
unfolding moves
moves-IsHeldBy env account token [] g t spares h = h
moves-IsHeldBy env account token (m ∷ ms) g t spares h =
    moves-IsHeldBy env account token ms (move env m g) t spares.1
      (move-IsHeldBy env account token m g t spares.0 h)

own_claim :
    (account token : String) (deadline : ℕ) (g : Grid)
    → IsHeldBy account token (store_claim account token deadline g)
unfolding store_claim
own_claim account token deadline g = elim (Option-cases (claim_row account g)) [
  | inl absent ↦ record {
    claim = record {
      account = account;
      token = some token;
      deadline = deadline;
      last_status = "collecting";
    };
    row = rw (absent, store_claim) (rw ((eq_iff account account).1 refl) refl);
    holder = refl;
  }
  | inr (prior, found) ↦
      let kept =
        first-update_rows (λ (c : Collecting). c.account == account)
          (λ (c : Collecting). c.account == account) (begun token deadline) (λ x. refl) g.claims
          prior found in
      let is_own = first-holds (λ (c : Collecting). c.account == account) g.claims prior found in
      record {
        claim = begun token deadline prior;
        row =
            rw (found, store_claim)
              (kept ∙ ap (λ b. some (if b then begun token deadline prior else prior)) is_own);
        holder = refl;
      }
]

record Begins (token : String) (out : Admission × Grid) : Type 0 where
  held :
      (account : String) (deadline : ℕ)
      → out.0 ≡ collecting account deadline
      → IsHeldBy account token out.1

claim_account-Begins :
    (now : ℕ) (token account : String) (timeout : ℕ) (g : Grid)
    → Begins token (claim_account now token account timeout g)
unfolding claim_account
claim_account-Begins now token account timeout g =
    elim (Option-cases (cooling_until now (cooldown_row account "usage" g.tables))) [
      | inr (until, cool) ↦ rw (cool, claim_account) (record { held = λ o d e. cc })
      | inl warm ↦ elim (Bool-cases (held_now account g)) [
        | inl taken ↦
            rw (warm, claim_account)
              (rw taken (record { held = λ o d e. absurd (held_answer-waits now account g o d e) }))
        | inr free ↦
            rw (warm, claim_account)
              (rw free (record {
                held = λ o d e.
                    subst (λ x. IsHeldBy x token (store_claim account token (now + timeout) g))
                      (same_account e) (own_claim account token (now + timeout) g);
              }))
      ]
    ]

admit_collection-Begins :
    (now : ℕ) (token alias : String) (timeout fallback : Value) (g : Grid)
    → Ensures (Begins token) (admit_collection now token alias timeout fallback g)
unfolding admit_collection
admit_collection-Begins now token alias timeout fallback g = then_read _ _ λ seconds timeout_of.
    then_read _ _ λ wait fallback_of. then_read _ _ λ binding bound.
      then_read _ _ λ acct known. gives (claim_account-Begins now token binding.account seconds g)

-- The claim that a collection begins with.
begun-IsHeldBy :
    (now : ℕ) (token alias : String) (timeout fallback : Value) (g : Grid) (account : String)
    (deadline : ℕ) (g' : Grid)
    → admit_collection now token alias timeout fallback g ≡ ok (collecting account deadline, g')
    → IsHeldBy account token g'
begun-IsHeldBy now token alias timeout fallback g account deadline g' e =
    (Ensures-ok (admit_collection-Begins now token alias timeout fallback g) e).held account
      deadline refl

-- A collection is the only one of its account until it ends. Once `collect` has claimed an account
-- under its token, and whatever collections and calls of the ledger come next, but for the
-- settlement of that very token, the account stays claimed by it, and no other collection of the
-- account begins.
pub collect_single_flight :
    (env : Env) (now : ℕ) (token alias : String) (timeout fallback : Value) (g g' : Grid)
    (account : String) (deadline : ℕ) (ms : List Move)
    → is_text token ≡ true
    → admit_collection now token alias timeout fallback g ≡ ok (collecting account deadline, g')
    → All (Spares account token) ms
    → IsHeldBy account token (moves env ms g')
      × ((now' : ℕ) (token' alias' : String) (timeout' fallback' : Value) (deadline' : ℕ)
            (g'' : Grid)
          → admit_collection now' token' alias' timeout' fallback' (moves env ms g')
            ≢ ok (collecting account deadline', g''))
collect_single_flight env now token alias timeout fallback g g' account deadline ms t began spares =
    let start = begun-IsHeldBy now token alias timeout fallback g account deadline g' began in
    let still = moves-IsHeldBy env account token ms g' t spares start in
    (
      still,
      λ now' token' alias' timeout' fallback' deadline' g'' e. never_both (
          sym ((eq_iff account account).1 refl)
          ∙ (Ensures-ok
                (admit_collection-Admits account token now' token' alias' timeout' fallback'
                  (moves env ms g') t still)
                e).elsewhere
              account deadline' refl),
    )
