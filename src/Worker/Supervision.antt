-- ===== src/Worker/Supervision.antt =====
-- The supervision loop of `execute` (src/inference_grid/worker.py) ends.
use inference_grid.Prelude.{
  ℕ, zero, suc, true, false, ◌≡◌, subst, ◌+◌, ◌≤◌, ◌<◌, inl, inr, ◌⊎◌, Bool-cases, arith, leb, ltb,
}
use inference_grid.Result.{Result, ok, raised, refused}
use inference_grid.Worker.{Host, supervise}

module _ (host : Host) where
  -- The process runs, in time and within its output.
  pub record IsQuiet (deadline cap i : ℕ) : Type 0 where
    pub running : (host.poll i).exited ≡ false
    pub in_time : (host.poll i).now < deadline
    pub within : (host.poll i).bytes ≤ cap

  -- How the loop ends, at poll `n`.
  pub data Watched (deadline cap n : ℕ) : Result (Unit {0}) → Type 0 where
    exited : (host.poll n).exited ≡ true → Watched deadline cap n (ok tt)
    timed_out :
        (host.poll n).exited ≡ false
        → deadline ≤ (host.poll n).now
        → Watched deadline cap n (raised (refused "timeout: provider acceptance may be ambiguous"))
    overflowed :
        (host.poll n).exited ≡ false
        → cap < (host.poll n).bytes
        → Watched deadline cap n (raised (refused "output limit exceeded"))

  pub record Ends (deadline cap i last : ℕ) (r : Result (Unit {0})) : Type 0 where
    pub n : ℕ
    pub range : (i ≤ n) × (n ≤ last)
    pub before : (j : ℕ) → i ≤ j → j < n → IsQuiet deadline cap j
    pub ending : Watched deadline cap n r

  -- Where the poll `last` sees an exit or is past the deadline.
  abbrev pub IsLast : ℕ → ℕ → Type 0
  IsLast deadline last = ((host.poll last).exited ≡ true) ⊎ (deadline ≤ (host.poll last).now)

  here :
      {deadline cap i last : ℕ} {r : Result (Unit {0})}
      → i ≤ last
      → Watched deadline cap i r
      → Ends deadline cap i last r
  here le w = record {
    n = _;
    range = (omega arith, le);
    before = λ j a b. absurd (omega arith);
    ending = w;
  }

  later :
      {deadline cap i last : ℕ} {r : Result (Unit {0})}
      → IsQuiet deadline cap i
      → Ends deadline cap (i + 1) last r
      → Ends deadline cap i last r
  later {deadline} {cap} {i} q e =
      let low = e.range.0 in
      record {
        n = e.n;
        range = (omega (arith, low), e.range.1);
        before = λ j a b. elim (Bool-cases (leb j i)) [
          | inl first ↦
              let same : i ≡ j = ground (arith, a, first) in subst (IsQuiet deadline cap) same q
          | inr beyond ↦ e.before j (ground (arith, beyond)) b
        ];
        ending = e.ending;
      }

  quiet_early :
      (deadline cap i last : ℕ)
      → IsQuiet deadline cap i
      → i ≤ last
      → IsLast deadline last
      → i + 1 ≤ last
  quiet_early deadline cap i last q le h = elim (Bool-cases (ltb i last)) [
    | inl less ↦ ground (arith, less)
    | inr not_less ↦
        let same : i ≡ last = ground (arith, not_less) in
        let quiet = subst (IsQuiet deadline cap) same q in
        elim h [
          | inl gone ↦ cc (gone, quiet.running)
          | inr late ↦ absurd (omega (arith, late, quiet.in_time))
        ]
  ]

  supervise-Ends :
      (fuel i deadline cap last : ℕ)
      → i ≤ last
      → last < i + fuel
      → IsLast deadline last
      → Ends deadline cap i last (supervise host fuel i deadline cap)
  unfolding supervise
  supervise-Ends zero i deadline cap last le lt h = absurd (omega arith)
  supervise-Ends (suc fuel) i deadline cap last le lt h = elim (Bool-cases (host.poll i).exited) [
    | inl gone ↦ rw gone (here le (exited gone))
    | inr running ↦ elim (Bool-cases (leb deadline (host.poll i).now)) [
      | inl late ↦ rw (running, late) (here le (timed_out running (ground arith)))
      | inr early ↦ elim (Bool-cases (ltb cap (host.poll i).bytes)) [
        | inl big ↦ rw (running, early, big) (here le (overflowed running (ground arith)))
        | inr small ↦
            let quiet : IsQuiet deadline cap i = record {
              running = running;
              in_time = ground arith;
              within = ground arith;
            } in
            rw (running, early, small)
              (later quiet (
                supervise-Ends fuel (i + 1) deadline cap last
                  (quiet_early deadline cap i last quiet le h) (omega arith) h))
      ]
    ]
  ]

-- Supervision ends, with fuel for the polls up to one that sees the process gone or the deadline
-- reached: at a first poll that finds the process exited, out of time or over its output, with the
-- matching answer, while at every poll before it the process ran in time and within its output.
pub supervise_ends :
    (host : Host) (fuel deadline cap last : ℕ)
    → last < fuel
    → IsLast host deadline last
    → Ends host deadline cap 0 last (supervise host fuel 0 deadline cap)
supervise_ends host fuel deadline cap last enough h =
    supervise-Ends host fuel 0 deadline cap last (omega arith) (omega (arith, enough)) h
