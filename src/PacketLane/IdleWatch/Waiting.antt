-- ===== src/PacketLane/IdleWatch/Waiting.antt =====
-- The wait for one round (src/inference_grid/lanes/packet.py) ends, and says why.
use inference_grid.Prelude.{
  ℕ, zero, suc, ◌+◌, ◌-◌, ◌≤◌, ◌<◌, String, Bool, true, false, ◌&&◌, ◌||◌, ◌≡◌, refl, ◌⊎◌, inl, inr,
  Option, none, some, List, [], ◌∷◌, ◌++◌, leb, All, Bool-cases, arith, tests, eq_iff,
}
use inference_grid.Prelude.Int.{ℤ}
use inference_grid.Result.{Result, ok}
use inference_grid.PacketLane.IdleWatch.{
  Look, Watch, watch_from, has_moved, after_look, poll_watch, wait_step, AgentReason,
  process_exited, wall_deadline, agent_idle, Waited, ended, expired, Turn, watched, wait_for_round,
  is_readable, idle_transcript_bytes,
}

-- A later look that shows no activity since this one.
abbrev pub StoodStill : Look → Look → Type 0
StoodStill start l =
    ((l.marker ≡ none) ⊎ (l.marker ≡ start.marker)) × (l.size < start.size + idle_transcript_bytes)

-- The looks, newest first, from one at which the window opened.
pub record IsQuiet (w : Watch) (looks : List Look) : Type 0 where
  pub opening_look : Look
  pub newer : List Look
  pub earlier : List Look
  pub split : looks ≡ newer ++ (opening_look ∷ earlier)
  pub opened : w ≡ watch_from opening_look
  pub still : All (StoodStill opening_look) newer

-- The looks of the turns before `k`, newest first, down to the one at the construction.
unfoldable pub looks_before : Look → (ℕ → Turn) → ℕ → List Look
looks_before first turns zero = first ∷ []
looks_before first turns (suc k) = elim ((turns k).waited) [
  | ended code ↦ looks_before first turns k
  | expired l ↦ l ∷ looks_before first turns k
]

-- Why a wait ended, at its last turn `k`.
pub data IsOver (first : Look) (turns : ℕ → Turn) (deadline : ℕ) (idle : Option ℕ)
    : AgentReason → ℤ → Type 0 where
  over_exited :
      (k : ℕ) (code : ℤ)
      → (turns k).clock < deadline
      → (turns k).waited ≡ ended code
      → IsOver first turns deadline idle process_exited code
  over_at_wall :
      (k : ℕ)
      → deadline ≤ (turns k).clock
      → IsOver first turns deadline idle wall_deadline ((turns k).killed)
  over_idle :
      (k window : ℕ) (w : Watch) (l : Look) (m : String)
      → (turns k).clock < deadline
      → (turns k).waited ≡ expired l
      → idle ≡ some window
      → l.marker ≡ some m
      → w.since + window ≤ l.now
      → IsQuiet w (looks_before first turns (suc k))
      → IsOver first turns deadline idle agent_idle ((turns k).killed)

stood_still : (m old : Option String) → has_moved m old ≡ false → (m ≡ none) ⊎ (m ≡ old)
unfolding has_moved
stood_still none old h = inl refl
stood_still (some m) none h = cc
stood_still (some m) (some k) h = ground (arith, eq_iff m k)

or_false_right : (a b : Bool) → (a || b) ≡ false → (a ≡ false) × (b ≡ false)
or_false_right a b h = ground arith

after_look-IsQuiet :
    (l : Look) (w : Watch) (looks : List Look)
    → IsQuiet w looks
    → IsQuiet (after_look l w) (l ∷ looks)
unfolding after_look
after_look-IsQuiet l w looks q =
    elim (Bool-cases
      (has_moved l.marker w.seen_marker || leb (w.seen_size + idle_transcript_bytes) l.size)) [
        | inl active ↦ rw active (record {
          opening_look = l;
          newer = [];
          earlier = looks;
          split = refl;
          opened = refl;
          still = tt;
        })
        | inr quiet ↦ rw quiet (
            let halves = or_false_right _ _ quiet in
            let marker : w.seen_marker ≡ q.opening_look.marker = rw q.opened refl in
            let size : w.seen_size ≡ q.opening_look.size = rw q.opened refl in
            record {
              opening_look = q.opening_look;
              newer = l ∷ q.newer;
              earlier = q.earlier;
              split = rw q.split refl;
              opened = q.opened;
              still = (
                (
                  stood_still l.marker q.opening_look.marker (rw (← marker) halves.0),
                  grind (tests, halves, size),
                ),
                q.still,
              );
            })
      ]

one-le-wait_step : (poll : Option ℕ) (remaining : ℕ) → 1 ≤ wait_step poll remaining
unfolding wait_step
one-le-wait_step none remaining = ground arith
one-le-wait_step (some p) remaining = ground arith

readable : (o : Option String) → is_readable o ≡ true → (m : String) × (o ≡ some m)
readable none h = cc
readable (some m) h = (m, refl)

both : (a b : Bool) → (a && b) ≡ true → (a ≡ true) × (b ≡ true)
both a b h = ground arith

Waited-cases : (w : Waited) → ((code : ℤ) × (w ≡ ended code)) ⊎ ((l : Look) × (w ≡ expired l))
Waited-cases (ended code) = inl (code, refl)
Waited-cases (expired l) = inr (l, refl)

module _ (first : Look) (turns : ℕ → Turn) (deadline : ℕ) (poll : Option ℕ) where
  -- `TimeoutExpired` is raised once the time that the wait was given has passed.
  abbrev pub Expires : Type 0
  Expires =
      (k : ℕ) (l : Look)
      → (turns k).waited ≡ expired l
      → (turns k).clock + wait_step poll (deadline - (turns k).clock) ≤ (turns (suc k)).clock

  Quiet : Option ℕ → Watch → ℕ → Type 0
  Quiet idle w k = (window : ℕ) → idle ≡ some window → IsQuiet w (looks_before first turns k)

  abbrev pub Ends : Option ℕ → Result (AgentReason × ℤ) → Type 0
  Ends idle m =
      (reason : AgentReason) × (code : ℤ) × (m ≡ ok (reason, code))
      × IsOver first turns deadline idle reason code

  watched-Quiet :
      (idle : Option ℕ) (w : Watch) (k : ℕ) (l : Look)
      → (turns k).waited ≡ expired l
      → Quiet idle w k
      → Quiet idle (watched idle l w).1 (suc k)
  unfolding watched poll_watch Quiet looks_before
  watched-Quiet none w k l e quiet = λ window same. cc
  watched-Quiet (some d) w k l e quiet = λ window same.
      rw (e, looks_before) (after_look-IsQuiet l w (looks_before first turns k) (quiet window same))

  watched-IsOver :
      (idle : Option ℕ) (w : Watch) (k : ℕ) (l : Look)
      → (turns k).clock < deadline
      → (turns k).waited ≡ expired l
      → (watched idle l w).0 ≡ true
      → Quiet idle w k
      → IsOver first turns deadline idle agent_idle ((turns k).killed)
  unfolding watched poll_watch Quiet
  watched-IsOver none w k l early e h quiet = cc
  watched-IsOver (some d) w k l early e h quiet =
      let halves = both _ _ h in
      let seen = readable l.marker halves.0 in
      over_idle k d (after_look l w) l seen.0 early e refl seen.1 (grind (tests, halves))
        (watched-Quiet (some d) w k l e quiet d refl)

  wait-Ends :
      (fuel k : ℕ) (idle : Option ℕ) (w : Watch)
      → Expires
      → 0 < fuel
      → deadline < (turns k).clock + fuel
      → Quiet idle w k
      → Ends idle (wait_for_round fuel turns k deadline idle w)
  unfolding wait_for_round
  wait-Ends zero k idle w passes some_fuel enough quiet = absurd (omega arith)
  wait-Ends (suc fuel) k idle w passes some_fuel enough quiet =
      elim (Bool-cases (leb deadline (turns k).clock)) [
        | inl late ↦ rw (late, wait_for_round) (_, _, refl, over_at_wall k (grind (tests, late)))
        | inr early ↦
            rw (early, wait_for_round)
              (elim (Waited-cases ((turns k).waited)) [
                | inl (code, e) ↦
                    rw (e, wait_for_round) (_, _, refl, over_exited k code (grind (tests, early)) e)
                | inr (l, e) ↦
                    rw (e, wait_for_round)
                      (elim (Bool-cases ((watched idle l w).0)) [
                        | inl cut ↦
                            rw (cut, wait_for_round)
                              (
                                _,
                                _,
                                refl,
                                watched-IsOver idle w k l (grind (tests, early)) e cut quiet,
                              )
                        | inr going ↦
                            rw (going, wait_for_round)
                              (let in_time : (turns k).clock < deadline = grind (tests, early) in
                                let passing = passes k l e in
                                let step = one-le-wait_step poll (deadline - (turns k).clock) in
                                wait-Ends fuel (suc k) idle ((watched idle l w).1) passes
                                  (omega arith) (omega arith) (watched-Quiet idle w k l e quiet))
                      ])
              ])
      ]

-- The wait for a round ends, within its fuel, and says why. Where every wait that expires lasted the
-- time it was given, `_wait_for_round` returns, in as many turns as there are hundredths of a second
-- up to the deadline. An exit is reported with the code of the turn in which the process ended,
-- before the deadline; the wall only where the clock has reached it; and an idle round only before
-- the deadline, where the tree can be read and, for a whole window, no look showed a tree that had
-- moved or 2048 more bytes of transcript.
pub wait_for_round_ends :
    (first : Look) (turns : ℕ → Turn) (deadline : ℕ) (poll idle : Option ℕ)
    → Expires first turns deadline poll
    → Ends first turns deadline poll idle
        (wait_for_round (suc deadline) turns 0 deadline idle (watch_from first))
unfolding Quiet looks_before
wait_for_round_ends first turns deadline poll idle passes =
    wait-Ends first turns deadline poll (suc deadline) 0 idle (watch_from first) passes
      (omega arith) (omega arith)
      λ window same. record {
        opening_look = first;
        newer = [];
        earlier = [];
        split = refl;
        opened = refl;
        still = tt;
      }
