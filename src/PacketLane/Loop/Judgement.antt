-- ===== src/PacketLane/Loop/Judgement.antt =====
-- What `build_loop` (src/inference_grid/lanes/packet.py) decides behind one round.
use inference_grid.Prelude.{
  ℕ, String, Bool, true, false, not, ◌&&◌, ◌||◌, ◌≡◌, refl, sym, subst, ◌⊎◌, inl, inr, Option, none,
  some, List, ◌∷◌, length, All, Bool-cases, arith, tests, eqb, leb,
}
use inference_grid.Prelude.Int.{ℤ, pos, eqb_ℤ}
use inference_grid.Value.{Value}
use inference_grid.Result.{ok, chain}
use inference_grid.PacketLane.IdleWatch.{
  AgentReason, process_exited, wall_deadline, agent_idle, agent_stopped_early,
}
use inference_grid.PacketLane.Transcript.{provider_limit_message}
use inference_grid.PacketLane.Gates.{all_ok}
use inference_grid.PacketLane.Session.{
  AgentRun, Entry, Loop, Settings, Stop, World, at_wall, gates_passed, has_session, idle,
  is_at_wall, is_idle,
}
use inference_grid.PacketLane.Loop.{after_limit, judge_round, limit_of}
use inference_grid.PacketLane.Loop.Rounds.{
  IsRed, IsOpen, FoundNoLimit, run_of, spent_reason, idle_count, IsEnding, ends_at_wall,
  ends_passed, ends_limit, ends_idle, ends_no_session,
}

at_the_wall : (r : AgentReason) → is_at_wall r ≡ true → r ≡ wall_deadline
at_the_wall process_exited h = cc
at_the_wall wall_deadline h = refl
at_the_wall agent_idle h = cc
at_the_wall agent_stopped_early h = cc

no_session : (o : Option String) → has_session o ≡ false → o ≡ none
no_session none h = refl
no_session (some sid) h = cc

a_session : (o : Option String) → has_session o ≡ true → (sid : String) × (o ≡ some sid)
a_session none h = cc
a_session (some sid) h = (sid, refl)

split_idle :
    (i two last known : Bool)
    → (i && (two || (last || not known))) ≡ true
    → (i ≡ true) × ((two ≡ true) ⊎ ((last ≡ true) ⊎ (known ≡ false)))
split_idle true true last known h = (refl, inl refl)
split_idle true false true known h = (refl, inr (inl refl))
split_idle true false false true h = cc
split_idle true false false false h = (refl, inr (inr refl))
split_idle false two last known h = cc

split_known : (i two last : Bool) → (i && (two || (last || not false))) ≡ false → i ≡ false
split_known i two last h = ground arith

module _ (parse : List ℕ → Option Value) (matches : String → Bool) where
  -- No row of the transcript makes the search for a limit raise.
  abbrev pub Reads : AgentRun → Type 0
  Reads run =
      (message : Option (List ℕ)) × (provider_limit_message parse matches run.native ≡ ok message)

module _ (parse : List ℕ → Option Value) (matches : String → Bool) (s : Settings)
    (world : World) where
  -- What the search for a limit found behind a round.
  data Searched (e : Entry) : Option (List ℕ) → Type 0 where
    found :
        {m : List ℕ}
        → eqb_ℤ e.agent_returncode (pos 0) ≡ false
        → provider_limit_message parse matches (run_of parse matches s world e).native ≡ ok (some m)
        → Searched e (some m)
    not_found : FoundNoLimit parse matches s world e → Searched e none

  found_or_none :
      (e : Entry) (message : Option (List ℕ))
      → eqb_ℤ e.agent_returncode (pos 0) ≡ false
      → provider_limit_message parse matches (run_of parse matches s world e).native ≡ ok message
      → Searched e message
  found_or_none e none failed reads = not_found (inr reads)
  found_or_none e (some m) failed reads = found failed reads

  limit_of-known :
      (e : Entry)
      → Reads parse matches (run_of parse matches s world e)
      → (message : Option (List ℕ)) × (limit_of parse matches s (run_of parse matches s world e) e
          ≡ ok message)
        × Searched e message
  unfolding limit_of
  limit_of-known e (message, reads) = elim (Bool-cases (eqb_ℤ e.agent_returncode (pos 0))) [
    | inl zero_code ↦ (none, rw (zero_code, limit_of) refl, not_found (inl zero_code))
    | inr failed ↦ (message, rw (failed, limit_of) reads, found_or_none e message failed reads)
  ]

module _ (show : ℤ → String) (parse : List ℕ → Option Value) (matches : String → Bool)
    (s : Settings) (world : World) where
  -- An answer of the loop's body, about the variables it leaves.
  pub data IsJudged (l : Loop) (e : Entry) : Bool → Stop → Type 0 where
    halts :
        {stop : Stop}
        → IsEnding show parse matches s world (record l { reason = stop }) stop
        → IsJudged l e true stop
    goes_on :
        {sid : String}
        → IsOpen parse matches s world e
        → l.session ≡ some sid
        → IsJudged l e false (spent_reason e)

  module _ (n : ℕ) (l : Loop) (e : Entry) (es : List Entry) (rounds : l.rounds ≡ e ∷ es)
      (count : length l.rounds ≡ n) (idles : l.idle_rounds ≡ idle_count l.rounds)
      (earlier : All (IsOpen parse matches s world) es) where
    rounds-IsOpen : IsOpen parse matches s world e → All (IsOpen parse matches s world) l.rounds
    rounds-IsOpen now = subst (All (IsOpen parse matches s world)) (sym rounds) (now, earlier)

    idle_end :
        is_idle e.agent_reason ≡ true
        → (leb 2 l.idle_rounds ≡ true)
          ⊎ ((eqb n s.max_rounds ≡ true) ⊎ (has_session l.session ≡ false))
        → IsOpen parse matches s world e
        → IsJudged l e true idle
    idle_end still (inl twice) now =
        halts (ends_idle e es rounds still (inl (grind (tests, twice, idles))) (rounds-IsOpen now))
    idle_end still (inr (inl last)) now =
        let ended : length l.rounds ≡ s.max_rounds = ground (arith, last, count) in
        halts (ends_idle e es rounds still (inr (inl ended)) (rounds-IsOpen now))
    idle_end still (inr (inr unknown)) now =
        halts (
          ends_idle e es rounds still (inr (inr (no_session l.session unknown)))
            (rounds-IsOpen now))

    after_limit-IsJudged :
        (message : Option (List ℕ))
        → Searched parse matches s world e message
        → IsRed e
        → IsJudged l e (after_limit s n message e l).0 (after_limit s n message e l).1
    unfolding after_limit
    after_limit-IsJudged (some m) (found failed reads) red =
        halts (ends_limit e es m rounds red failed reads earlier)
    after_limit-IsJudged none (not_found unlimited) red =
        let now : IsOpen parse matches s world e = (red, unlimited) in
        elim (Bool-cases (
          is_idle e.agent_reason
          && (leb 2 l.idle_rounds || (eqb n s.max_rounds || not (has_session l.session))))) [
            | inl still ↦
                let parts = split_idle _ (leb 2 l.idle_rounds) (eqb n s.max_rounds) _ still in
                rw (still, after_limit) (idle_end parts.0 parts.1 now)
            | inr busy ↦ elim (Bool-cases (has_session l.session)) [
              | inl known ↦
                  let session = a_session l.session known in
                  rw (busy, known, after_limit) (goes_on now session.1)
              | inr unknown ↦
                  let moving : is_idle e.agent_reason ≡ false =
                    split_known _ (leb 2 l.idle_rounds) (eqb n s.max_rounds) (
                      subst
                        (λ b.
                          (is_idle e.agent_reason
                            && (leb 2 l.idle_rounds || (eqb n s.max_rounds || not b)))
                          ≡ false)
                        unknown busy) in
                  rw (busy, unknown, after_limit)
                    (halts (
                      ends_no_session e es rounds moving (no_session l.session unknown)
                        (rounds-IsOpen now)))
            ]
          ]

  pub judge_round-IsJudged :
      (n : ℕ) (l : Loop) (e : Entry) (es : List Entry)
      → l.rounds ≡ e ∷ es
      → length l.rounds ≡ n
      → l.idle_rounds ≡ idle_count l.rounds
      → All (IsOpen parse matches s world) es
      → Reads parse matches (run_of parse matches s world e)
      → (halted : Bool) × (stop : Stop) × (judge_round parse matches s n
            (run_of parse matches s world e)
            e
            l
          ≡ ok (halted, stop))
        × IsJudged l e halted stop
  unfolding judge_round chain
  judge_round-IsJudged n l e es rounds count idles earlier reads =
      elim (Bool-cases (is_at_wall e.agent_reason)) [
        | inl late ↦ (
          true,
          at_wall,
          rw (late, judge_round) refl,
          halts (ends_at_wall e es rounds (at_the_wall e.agent_reason late) earlier),
        )
        | inr early ↦ elim (Bool-cases (all_ok e.results)) [
          | inl green ↦ (
            true,
            gates_passed,
            rw (early, green, judge_round) refl,
            halts (ends_passed e es rounds early green earlier),
          )
          | inr red ↦
              let limit = limit_of-known parse matches s world e reads in
              (
                _,
                _,
                rw (early, red, limit.1, judge_round) refl,
                after_limit-IsJudged n l e es rounds count idles earlier limit.0 limit.2
                    (red, early),
              )
        ]
      ]
