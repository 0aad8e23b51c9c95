-- ===== src/PacketLane/Loop/Outcome.antt =====
-- `build_loop` (src/inference_grid/lanes/packet.py) returns a verdict that tells what happened.
use inference_grid.Prelude.{
  ap, ◌<◌, ℕ, zero, suc, ◌+◌, ◌≤◌, String, Bool, true, false, ◌&&◌, ◌≡◌, refl, sym, subst, inl, inr,
  Option, some, List, length, All, Bool-cases, arith, tests, ltb,
}
use inference_grid.Prelude.Int.{ℤ}
use inference_grid.Value.{Value}
use inference_grid.Result.{ok, chain}
use inference_grid.PacketLane.IdleWatch.Waiting.{Expires, wait_for_round_ends}
use inference_grid.PacketLane.Session.{
  AgentRun, Entry, Loop, Settings, Stop, World, disk_low, no_time_for_round, poll_of,
  window_of_idle,
}
use inference_grid.PacketLane.Loop.{entry_of, play, play_rounds, record_round, run_round}
use inference_grid.PacketLane.Loop.Rounds.{
  IsOpen, WasPlayed, reason_after-either, IsPlayed, IsUnderway, IsEnding, ends_disk_low,
  ends_no_time, ends_spent, NextArgv, argv_known, IsRecorded, record_round-IsRecorded,
}
use inference_grid.PacketLane.Loop.Judgement.{IsJudged, halts, goes_on, Reads, judge_round-IsJudged}

too_late : (n late deadline : ℕ) → (ltb 1 n && ltb deadline late) ≡ true → deadline < late
too_late n late deadline h = ground arith

enough_time :
    (n late deadline : ℕ) → (ltb 1 n && ltb deadline late) ≡ false → 2 ≤ n → late ≤ deadline
enough_time n late deadline h behind = ground arith

-- The variables at the end of the loop.
pub record IsFinal (show : ℤ → String) (parse : List ℕ → Option Value) (matches : String → Bool)
    (s : Settings) (world : World) (l : Loop) : Type 0 where
  pub played : IsPlayed show parse matches s world l
  pub ending : IsEnding show parse matches s world l l.reason

-- What the world does: a wait that expires lasted its time, and the transcript can be searched.
abbrev pub Answers : (List ℕ → Option Value) → (String → Bool) → Settings → AgentRun → Type 0
Answers parse matches s run =
    Expires run.first_look run.turns s.deadline (poll_of s.idle_seconds) × Reads parse matches run

module _ (show : ℤ → String) (parse : List ℕ → Option Value) (matches : String → Bool)
    (s : Settings) (world : World) where
  -- What the body leaves in round `n`.
  BodyEnds : ℕ → Bool → Loop → Type 0
  BodyEnds n true l = IsFinal show parse matches s world l
  BodyEnds n false l = IsUnderway show parse matches s world (suc n) l

  judged_after :
      (n : ℕ) (before l : Loop) (e : Entry) (halted : Bool) (stop : Stop)
      → IsUnderway show parse matches s world n before
      → IsRecorded show parse matches s world n before l e
      → IsJudged show parse matches s world l e halted stop
      → BodyEnds n halted (record l { reason = stop })
  unfolding BodyEnds
  judged_after n before l e true stop under made (halts ending) = record {
    played = record {
      bounded = made.played.bounded;
      numbered = made.played.numbered;
      played = made.played.played;
      chained = made.played.chained;
      ran = made.played.ran;
      idles = made.played.idles;
    };
    ending = ending;
  }
  judged_after n before l e false stop under made (goes_on {sid} red session) = record {
    played = record {
      bounded = made.played.bounded;
      numbered = made.played.numbered;
      played = made.played.played;
      chained = made.played.chained;
      ran = made.played.ran;
      idles = made.played.idles;
    };
    count = rw made.rounds (omega (arith, under.count));
    red = subst (All (IsOpen parse matches s world)) (sym made.rounds) (red, under.red);
    told = rw made.rounds refl;
    entered = λ some_round. (sid, session);
  }

  run_round-BodyEnds :
      (n : ℕ) (argv : List String) (l : Loop)
      → n ≤ s.max_rounds
      → IsUnderway show parse matches s world n l
      → s.min_free_bytes ≤ world.free_bytes n
      → (2 ≤ n → world.clock_at n + s.min_for_round ≤ s.deadline)
      → NextArgv show s n l.session l.rounds argv
      → Answers parse matches s (world.agent n (s.sandbox_command argv))
      → (halted : Bool) × (l' : Loop) × (run_round parse matches s n argv
            (world.agent n (s.sandbox_command argv))
            l
          ≡ ok (halted, l'))
        × BodyEnds n halted l'
  unfolding run_round entry_of chain
  run_round-BodyEnds n argv l within under room in_time next (expires, reads) =
      let run = world.agent n (s.sandbox_command argv) in
      let out =
        wait_for_round_ends run.first_look run.turns s.deadline (poll_of s.idle_seconds)
          (window_of_idle s.idle_seconds) expires in
      let after = record_round parse s n argv run out.0 out.1 l in
      let e = entry_of parse s n argv run l.rounds out.0 out.1 in
      let was : WasPlayed parse matches s world e = record {
        room = room;
        in_time = in_time;
        waited = (out.0, out.2, reason_after-either parse s l.rounds run out.0 out.1 e.results);
        gated = refl;
      } in
      let made =
        record_round-IsRecorded show parse matches s world n argv run out.0 out.1 l within
          under.count under.played was next in
      let count : length after.rounds ≡ n = under.count in
      let answer =
        judge_round-IsJudged show parse matches s world n after e l.rounds made.rounds count
          made.played.idles under.red reads in
      (
        answer.0,
        record after { reason = answer.1 },
        rw (out.2, answer.2, run_round) refl,
        judged_after n l after e answer.0 answer.1 under made answer.3,
      )

  second_round :
      (n : ℕ) (b : Bool) (rounds : List Entry)
      → (ltb 1 n && b) ≡ true
      → suc (length rounds) ≡ n
      → 1 ≤ length rounds
  second_round n b rounds h count = ground (arith, count)

  halted_at :
      (n free : ℕ) (l : Loop) (stop : Stop)
      → IsUnderway show parse matches s world n l
      → length l.rounds ≤ s.max_rounds
      → IsEnding show parse matches s world (record l { disk_free = some free; reason = stop }) stop
      → IsFinal show parse matches s world (record l { disk_free = some free; reason = stop })
  halted_at n free l stop under bounded ending = record {
    played = record {
      bounded = bounded;
      numbered = under.played.numbered;
      played = under.played.played;
      chained = under.played.chained;
      ran = under.played.ran;
      idles = under.played.idles;
    };
    ending = ending;
  }

  measured_at :
      (n free : ℕ) (l : Loop)
      → IsUnderway show parse matches s world n l
      → IsUnderway show parse matches s world n (record l { disk_free = some free })
  measured_at n free l under = record {
    played = record {
      bounded = under.played.bounded;
      numbered = under.played.numbered;
      played = under.played.played;
      chained = under.played.chained;
      ran = under.played.ran;
      idles = under.played.idles;
    };
    count = under.count;
    red = under.red;
    told = under.told;
    entered = under.entered;
  }

  module _
      (answers : (n : ℕ) (argv : List String) → Answers parse matches s (world.agent n argv)) where
    play-BodyEnds :
        (n : ℕ) (l : Loop)
        → n ≤ s.max_rounds
        → IsUnderway show parse matches s world n l
        → (halted : Bool) × (l' : Loop) × (play show parse matches s world n l ≡ ok (halted, l'))
          × BodyEnds n halted l'
    unfolding play chain BodyEnds
    play-BodyEnds n l within under =
        let free = world.free_bytes n in
        let measured = record l { disk_free = some free } in
        let known = measured_at n free l under in
        elim (Bool-cases (ltb free s.min_free_bytes)) [
          | inl low ↦ (
            true,
            record measured { reason = disk_low },
            rw (low, play) refl,
            halted_at n free l disk_low under under.played.bounded (
                ends_disk_low (ap (λ k. some (world.free_bytes k)) (sym under.count))
                  (subst (λ k. world.free_bytes k < s.min_free_bytes) (sym under.count)
                    (grind (tests, low)))
                  under.red),
          )
          | inr room ↦
              elim (Bool-cases (ltb 1 n && ltb s.deadline (world.clock_at n + s.min_for_round))) [
                | inl late ↦ (
                  true,
                  record measured { reason = no_time_for_round },
                  rw (room, late, play) refl,
                  halted_at n free l no_time_for_round under under.played.bounded (
                      ends_no_time
                        (second_round n (ltb s.deadline (world.clock_at n + s.min_for_round))
                          l.rounds late under.count)
                        (subst (λ k. s.min_free_bytes ≤ world.free_bytes k) (sym under.count)
                          (grind (tests, room)))
                        (subst (λ k. s.deadline < world.clock_at k + s.min_for_round)
                          (sym under.count)
                          (too_late n (world.clock_at n + s.min_for_round) s.deadline late))
                        under.red),
                )
                | inr time_left ↦
                    let argv =
                      argv_known show s n l.rounds measured refl under.count under.entered in
                    let done =
                      run_round-BodyEnds n argv.0 measured within known (grind (tests, room))
                        (enough_time n (world.clock_at n + s.min_for_round) s.deadline time_left)
                        argv.2 (answers n (s.sandbox_command argv.0)) in
                    (done.0, done.1, rw (room, time_left, argv.1, play) done.2, done.3)
              ]
        ]

    pub play_rounds-IsFinal :
        (left n : ℕ) (l : Loop)
        → n + left ≡ suc s.max_rounds
        → IsUnderway show parse matches s world n l
        → (l' : Loop) × (play_rounds show parse matches s world left n l ≡ ok l')
          × IsFinal show parse matches s world l'
    unfolding play_rounds chain BodyEnds
    play_rounds-IsFinal zero n l last under =
        let over : length l.rounds ≡ s.max_rounds = omega (arith, under.count) in
        (
          l,
          refl,
          record {
            played = under.played;
            ending =
                subst (IsEnding show parse matches s world l) (sym under.told)
                  (ends_spent over under.red);
          },
        )
    play_rounds-IsFinal (suc left) n l last under =
        let done = play-BodyEnds n l (omega arith) under in
        elim (Bool-cases (done.0)) [
          | inl halted ↦ (
            done.1,
            rw (done.2, halted, play_rounds) refl,
            subst (λ b. BodyEnds n b done.1) halted done.3,
          )
          | inr going ↦
              let rest =
                play_rounds-IsFinal left (suc n) done.1 (omega arith)
                  (subst (λ b. BodyEnds n b done.1) going done.3) in
              (rest.0, rw (done.2, going, play_rounds) rest.1, rest.2)
        ]
