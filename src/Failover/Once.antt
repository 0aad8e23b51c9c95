-- ===== src/Failover/Once.antt =====
-- A packet's failover (src/inference_grid/board/failover.py) happens once.
use inference_grid.Prelude.{
  ℕ, String, Bool, true, false, not, ◌≡◌, ◌==◌, refl, sym, subst, ◌∙◌, ◌||◌, ◌&&◌, Option, List, [],
  ◌∷◌, any, map, arith, eq_iff, inl, inr, Bool-cases, if◌then◌else◌, is_empty,
}
use inference_grid.Prelude.Text.{is_text}
use inference_grid.Value.{
  Value, str, arr, of_items, Dict, get_value, has_key, has_name, value_eq, is_str,
}
use inference_grid.Result.{ok, Ensures, Ensures-ok, gives, then_bind}
use inference_grid.Ledger.State.{State}
use inference_grid.Routing.Route.Offers.{has_name-sorted_ids}
use inference_grid.Failover.{
  Board, Authored, authored, no_candidate, not_authored, failover_candidate, is_failover,
  is_superseded, successor, predecessor, author_failover, superseded_reason, failover_candidates,
  takes_over, other_lanes, succeeds, write_successor, write_predecessor, families_of,
  reason_eligible, failover_on,
}
use inference_grid.Failover.Retry.{
  IsSettled, failover-IsSettled, successor-IsSuccessor, predecessor-IsPredecessor,
}

-- What an authored failover leaves, also where the runner stops between the two files.
pub record IsHandedOver (failed : Value) (lanes : List (String × Dict)) (key new_id : String)
    (task : Dict) (candidates : List String) (before after : Board) : Type 0 where
  pub retry : Dict
  pub retired : Dict
  pub written : after ≡ write_predecessor key retired (write_successor new_id retry before)
  pub to_lanes : get_value "lanes" retry ≡ arr (of_items (map str candidates))
  pub elsewhere :
      (lid : String)
      → has_name lid candidates ≡ true
      → any (λ (e : String × Dict). (e.0 == lid) && takes_over failed e.1) lanes ≡ true
  pub linked : get_value "failover_from" retry ≡ get_value "id" task
  pub free : has_key new_id before ≡ false
  pub retry_settled : IsSettled retry
  pub retired_settled : IsSettled retired
  pub crash_safe : failover_candidate task (write_successor new_id retry before) ≡ false

succeeds-write_successor :
    (id : Value) (k : String) (t : Dict) (board : Board)
    → value_eq (get_value "failover_from" t) id ≡ true
    → any (succeeds id) (write_successor k t board) ≡ true
succeeds-write_successor id k t [] h = ground arith
succeeds-write_successor id k t ((j, u) ∷ board) h =
    ground (arith, succeeds-write_successor id k t board h)

guarded_last : (a b c d e f : Bool) → (a && (b && (c && (d && (e && (f && false)))))) ≡ false
guarded_last a b c d e f = ground arith

succeeded-candidate :
    (task : Dict) (board : Board)
    → any (succeeds (get_value "id" task)) board ≡ true
    → failover_candidate task board ≡ false
unfolding failover_candidate
succeeded-candidate task board h = rw h (
    guarded_last (is_str "packet" (get_value "category" task))
      (is_str "blocked" (get_value "state" task)) (failover_on task) (not (is_failover task))
      (not (is_superseded (get_value "blocked_reason" task)))
      (reason_eligible (get_value "blocked_reason" task ∷ [])))

kept_or_passed :
    {b : Bool} (takes : Bool) (k lid : String) (rest : List String)
    → (has_name lid rest ≡ true → b ≡ true)
    → has_name lid (if takes then k ∷ rest else rest) ≡ true
    → (((k == lid) && takes) || b) ≡ true
kept_or_passed true k lid rest f h = ground (arith, f)
kept_or_passed false k lid rest f h = ground (arith, f)

other_lanes-takes_over :
    (failed : Value) (lanes : List (String × Dict)) (lid : String)
    → has_name lid (other_lanes failed lanes) ≡ true
    → any (λ (e : String × Dict). (e.0 == lid) && takes_over failed e.1) lanes ≡ true
unfolding other_lanes
other_lanes-takes_over failed [] lid h = cc
other_lanes-takes_over failed ((k, lane) ∷ lanes) lid h =
    kept_or_passed (takes_over failed lane) k lid (other_lanes failed lanes)
      (other_lanes-takes_over failed lanes lid) h

failover_candidates-takes_over :
    (failed : Value) (lanes : List (String × Dict)) (lid : String)
    → has_name lid (failover_candidates lanes failed) ≡ true
    → any (λ (e : String × Dict). (e.0 == lid) && takes_over failed e.1) lanes ≡ true
unfolding failover_candidates
failover_candidates-takes_over failed lanes lid h =
    other_lanes-takes_over failed lanes lid
      (sym (has_name-sorted_ids lid (other_lanes failed lanes)) ∙ h)

or_false : (a b : Bool) → (a || b) ≡ false → a ≡ false
or_false a b h = ground arith

record HandsOver (failed : Value) (lanes : List (String × Dict)) (key new_id : String) (task : Dict)
    (before : Board) (out : Authored × (Board × Option State)) : Type 0 where
  handed :
      (id : String) (candidates families : List String)
      → out.0 ≡ authored id candidates families
      → IsHandedOver failed lanes key new_id task candidates before out.1.0

linked_failover :
    (t : Dict) (s : String)
    → get_value "failover_from" t ≡ str s
    → is_text s ≡ true
    → is_failover t ≡ true
linked_failover t s linked h = rw linked h

linked_eq :
    (t u : Dict) (s : String)
    → get_value "failover_from" t ≡ str s
    → get_value "id" u ≡ str s
    → value_eq (get_value "failover_from" t) (get_value "id" u) ≡ true
unfolding value_eq
linked_eq t u s linked id_of = rw (linked, id_of) ((eq_iff s s).1 refl)

same_candidates :
    {i j : String} {c d f g : List String} → Authored.authored i c f ≡ authored j d g → c ≡ d
same_candidates h = cc

module _ (is_decimal : ℕ → Bool) (show : Value → String) (now : ℕ) (new_id new_brief : String)
    (brief_exists : Bool) (failed : Value) (lanes : List (String × Dict)) (texts : List Value)
    (key : String) (task : Dict) (board : Board) (tables : Option State) where
  abbrev chosen : List String
  chosen = failover_candidates lanes failed

  written-HandsOver :
      (next last : Dict) (tables' : Option State)
      → successor is_decimal task new_id new_brief chosen ≡ ok next
      → predecessor is_decimal task
          (superseded_reason show new_id failed (families_of show lanes chosen))
        ≡ ok last
      → has_key new_id board ≡ false
      → HandsOver failed lanes key new_id task board (
        authored new_id chosen (families_of show lanes chosen),
        (write_predecessor key last (write_successor new_id next board), tables'),
      )
  written-HandsOver next last tables' next_of last_of free =
      let retry =
        Ensures-ok (successor-IsSuccessor is_decimal show task new_id new_brief chosen) next_of in
      let retired =
        Ensures-ok
          (predecessor-IsPredecessor is_decimal show task new_id failed
            (families_of show lanes chosen))
          last_of in
      let linked : get_value "failover_from" next ≡ str retired.id = retry.from ∙ retired.id_of in
      let over : IsHandedOver failed lanes key new_id task chosen board
          (write_predecessor key last (write_successor new_id next board)) =
        record {
          retry = next;
          retired = last;
          written = refl;
          to_lanes = retry.lanes;
          elsewhere = λ lid h. failover_candidates-takes_over failed lanes lid h;
          linked = retry.from;
          free = free;
          retry_settled =
              failover-IsSettled next (linked_failover next retired.id linked retired.id_text);
          retired_settled = retired.settled;
          crash_safe = succeeded-candidate task (write_successor new_id next board) (
              succeeds-write_successor (get_value "id" task) new_id next board
                (linked_eq next task retired.id linked retired.id_of));
        } in
      record {
        handed = λ id candidates families same.
            subst
              (λ c.
                IsHandedOver failed lanes key new_id task c board
                  (write_predecessor key last (write_successor new_id next board)))
              (same_candidates same) over;
      }

  no_candidate-HandsOver :
      HandsOver failed lanes key new_id task board (no_candidate, (board, tables))
  no_candidate-HandsOver = record { handed = λ id candidates families same. cc }

  not_authored-HandsOver :
      (reason : String)
      → HandsOver failed lanes key new_id task board (not_authored reason, (board, tables))
  not_authored-HandsOver reason = record { handed = λ id candidates families same. cc }

  author_failover-HandsOver : Ensures (HandsOver failed lanes key new_id task board) (
      author_failover is_decimal show now new_id new_brief brief_exists failed lanes texts key task
        board tables)
  unfolding author_failover
  author_failover-HandsOver =
      elim (Bool-cases (
        not (failover_candidate task board)
        || not (reason_eligible (get_value "blocked_reason" task ∷ texts)))) [
          | inl settled ↦ rw settled (gives no_candidate-HandsOver)
          | inr due ↦ rw due (elim (Bool-cases (is_empty chosen)) [
            | inl none_left ↦ rw none_left (gives (not_authored-HandsOver _))
            | inr left ↦ rw left (
                then_bind _ λ next next_of. then_bind _ λ last last_of.
                  elim (Bool-cases (has_key new_id board || brief_exists)) [
                    | inl taken ↦ rw taken (gives (not_authored-HandsOver _))
                    | inr free ↦ rw free (
                        gives (
                          written-HandsOver next last _ next_of last_of
                            (or_false (has_key new_id board) brief_exists free)))
                  ])
          ])
        ]

-- A packet's failover happens once, and elsewhere. Where `author_failover` reports a retry, its id was
-- free, it names the failed task as its predecessor, and its lanes are the candidates, each a lane of
-- another family that declares packets and can run them. Neither the retry nor the superseded task is
-- a candidate on any board, and where the runner stops between the two files, the failed task is
-- no candidate on the board that is left.
pub author_failover_once :
    (is_decimal : ℕ → Bool) (show : Value → String) (now : ℕ) (new_id new_brief : String)
    (brief_exists : Bool) (failed : Value) (lanes : List (String × Dict)) (texts : List Value)
    (key : String) (task : Dict) (board : Board) (tables : Option State) (id : String)
    (candidates families : List String) (board' : Board) (tables' : Option State)
    → author_failover is_decimal show now new_id new_brief brief_exists failed lanes texts key task
        board tables
      ≡ ok (authored id candidates families, (board', tables'))
    → IsHandedOver failed lanes key new_id task candidates board board'
author_failover_once is_decimal show now new_id new_brief brief_exists failed lanes texts key task
      board tables id candidates families board' tables' e =
    (Ensures-ok
        (author_failover-HandsOver is_decimal show now new_id new_brief brief_exists failed lanes
          texts key task board tables)
        e).handed
      id candidates families refl
