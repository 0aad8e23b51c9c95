-- ===== src/Failover/Retry.antt =====
-- The two files of a failover (src/inference_grid/board/failover.py): the retry and the superseded task.
use inference_grid.Prelude.{
  ℕ, zero, suc, String, Bool, true, false, not, ◌≡◌, ◌≤◌, refl, sym, ap, subst, ◌∙◌, ◌&&◌, some,
  List, [], ◌∷◌, any, map, arith, Option-cases,
}
use inference_grid.Prelude.Text.{codes, has_prefix, is_text, text_length, join}
use inference_grid.Value.{
  Value, null, bool, str, obj, arr, of_dict, of_items, Dict, get?, get_value, or_else, set_key,
  has_name, is_str,
}
use inference_grid.Result.{Result, ok, Ensures, gives, raises, then_bind, then_read, chain}
use inference_grid.Ledger.State.{item}
use inference_grid.PacketTask.{validate_packet_task, extra_keys, core_of}
use inference_grid.PacketTask.Validity.{validate_packet_task-IsPacketTask}
use inference_grid.PacketTask.Fields.{
  get?-packet_dict, get?-set_key, get?-set_key-same, get?-core_of, failover_from-packet_dict,
}
use inference_grid.BoardTask.{TaskFields, is_id, is_lane_id}
use inference_grid.BoardTask.Validity.{dict-of_dict}
use inference_grid.Failover.{
  Board, failover_candidate, is_failover, is_superseded, cut, successor, predecessor,
  superseded_reason, succeeds, reason_eligible, retry_of, unlinked_retry, replaced, failover_on,
  family_text,
}
use Prim.Native.String.{◌++◌}
use Prim.Native.String.append
use Prim.Native.String.count
use Prim.Native.Char.{Char}

length-cons : (c : Char) (s : String) → text_length (String.◌∷◌ c s) ≡ suc (text_length s)
length-cons c s = λ i. count.cons c s i

-- A text begins with what it was put together from, also behind a cut.
cut-append-prefix :
    (p r : String) (n : ℕ)
    → text_length p ≤ n
    → has_prefix (codes (cut n (p ++ r))) (codes p) ≡ true
cut-append-prefix String.[] r n h = refl
cut-append-prefix (String.◌∷◌ c s) r zero h = absurd (omega (arith, length-cons c s))
cut-append-prefix (String.◌∷◌ c s) r (suc n) h =
    subst (λ x. has_prefix (codes (cut (suc n) x)) (codes (String.◌∷◌ c s)) ≡ true)
      (sym (λ i. append.cons c s r i))
      (ground (arith, cut-append-prefix s r n (omega (arith, length-cons c s))))

Ensures-all {ℓ κ} :
    {A : Type ℓ} {P : A → Type κ} {m : Result A} → ((a : A) → m ≡ ok a → P a) → Ensures P m
Ensures-all {m = ok a} h = gives (h a refl)
Ensures-all {m = Result.raised e} h = raises

module _ (is_decimal : ℕ → Bool) where
  validated_raw :
      (d out : Dict) (e : validate_packet_task is_decimal (obj (of_dict d)) ≡ ok out)
      → (validate_packet_task-IsPacketTask is_decimal (obj (of_dict d)) out e).raw ≡ d
  validated_raw d out e =
      let h = validate_packet_task-IsPacketTask is_decimal (obj (of_dict d)) out e in
      cc (h.object, dict-of_dict d)

  validated_value :
      (k : String) (d out : Dict) (v : Value)
      → validate_packet_task is_decimal (obj (of_dict d)) ≡ ok out
      → has_name k extra_keys ≡ false
      → get? k d ≡ some v
      → get_value k out ≡ v
  validated_value k d out v e shared given =
      let h = validate_packet_task-IsPacketTask is_decimal (obj (of_dict d)) out e in
      let same = validated_raw d out e in
      ap (get_value k) h.written
      ∙ ap (λ o. or_else o null)
          (get?-packet_dict k h.raw h.spec v shared (ap (get? k) same ∙ given))

  validated_predecessor :
      (d out : Dict)
      → validate_packet_task is_decimal (obj (of_dict d)) ≡ ok out
      → get_value "failover_from" out ≡ get_value "failover_from" d
  validated_predecessor d out e =
      let h = validate_packet_task-IsPacketTask is_decimal (obj (of_dict d)) out e in
      ap (get_value "failover_from") h.written
      ∙ (failover_from-packet_dict h.raw h.spec
          ∙ ap (get_value "failover_from") (validated_raw d out e))

  -- The id of a task that passes is a text that is not empty.
  validated_id :
      (d out : Dict)
      → validate_packet_task is_decimal (obj (of_dict d)) ≡ ok out
      → (s : String) × (get_value "id" d ≡ str s) × (is_id s ≡ true)
  validated_id d out e =
      let h = validate_packet_task-IsPacketTask is_decimal (obj (of_dict d)) out e in
      let (s, value, fits) = h.packet.task.id in
      let read : get_value "id" (core_of h.raw) ≡ h.packet.core.id =
        ap (λ (f : TaskFields). f.id) (sym h.packet.read) in
      let raw_id : get_value "id" (core_of h.raw) ≡ get_value "id" h.raw =
        ap (λ o. or_else o null) (get?-core_of "id" h.raw refl refl refl) in
      (s, ap (get_value "id") (sym (validated_raw d out e)) ∙ (sym raw_id ∙ (read ∙ value)), fits)

-- A task that no tick hands on: the guards answer before the board is looked at.
abbrev pub IsSettled : Dict → Type 0
IsSettled task = (board : Board) → failover_candidate task board ≡ false

pub failover-IsSettled : (task : Dict) → is_failover task ≡ true → IsSettled task
unfolding failover_candidate
failover-IsSettled task h board = ground arith

guarded : (a b c d e : Bool) → (a && (b && (c && (d && (false && e))))) ≡ false
guarded a b c d e = ground arith

superseded-IsSettled :
    (task : Dict) → is_superseded (get_value "blocked_reason" task) ≡ true → IsSettled task
unfolding failover_candidate
superseded-IsSettled task h board = rw h (
    guarded (is_str "packet" (get_value "category" task))
      (is_str "blocked" (get_value "state" task)) (failover_on task) (not (is_failover task))
      (reason_eligible (get_value "blocked_reason" task ∷ [])
        && not (any (succeeds (get_value "id" task)) board)))

is_id-is_text : (s : String) → is_id s ≡ true → is_text s ≡ true
unfolding is_lane_id
is_id-is_text s h = ground arith

item_value : (k : String) (d : Dict) (v : Value) → item k d ≡ ok v → get_value k d ≡ v
unfolding chain
item_value k d v h = ground (arith, Option-cases (get? k d))

retry_lanes :
    (task : Dict) (id brief : Value) (inputs : List Value) (spec : Dict) (new_id new_brief : String)
    (candidates : List String)
    → get? "lanes" (retry_of task id brief inputs spec new_id new_brief candidates)
      ≡ some (arr (of_items (map str candidates)))
retry_lanes task id brief inputs spec new_id new_brief candidates =
    let lanes = arr (of_items (map str candidates)) in
    let own = obj (of_dict (set_key "brief" (str new_brief) spec)) in
    let d1 =
      set_key "inputs" (arr (of_items (map (replaced brief (str new_brief)) inputs)))
        (set_key "brief" (str new_brief) (set_key "id" (str new_id) task)) in
    let d2 = set_key "lanes" lanes d1 in
    let d3 = set_key "spec" own d2 in
    let d4 = set_key "state" (str "ready") d3 in
    let d5 = set_key "blocked_reason" null d4 in
    let d6 = set_key "failover" (bool true) d5 in
    get?-set_key "failover_from" "lanes" id d6 refl
    ∙ (get?-set_key "failover" "lanes" (bool true) d5 refl
        ∙ (get?-set_key "blocked_reason" "lanes" null d4 refl
            ∙ (get?-set_key "state" "lanes" (str "ready") d3 refl
                ∙ (get?-set_key "spec" "lanes" own d2 refl ∙ get?-set_key-same "lanes" lanes d1))))

module _ (is_decimal : ℕ → Bool) (show : Value → String) where
  superseded_reason-prefix :
      (new_id : String) (failed : Value) (families : List String)
      → is_superseded (str (superseded_reason show new_id failed families)) ≡ true
  superseded_reason-prefix new_id failed families =
      cut-append-prefix "superseded:"
        (" "
          ++ (new_id
              ++ (" — failover " ++ (family_text show failed ++ (" -> " ++ join ", " families)))))
        300 (omega arith)

  -- The predecessor as it is written: superseded.
  pub record IsPredecessor (task out : Dict) : Type 0 where
    pub id : String
    pub id_of : get_value "id" task ≡ str id
    pub id_text : is_text id ≡ true
    pub settled : IsSettled out

  pub predecessor-IsPredecessor :
      (task : Dict) (new_id : String) (failed : Value) (families : List String)
      → Ensures
          (IsPredecessor task)
          (predecessor is_decimal task (superseded_reason show new_id failed families))
  unfolding predecessor
  predecessor-IsPredecessor task new_id failed families =
      let reason = superseded_reason show new_id failed families in
      let d = set_key "blocked_reason" (str reason) (set_key "state" (str "blocked") task) in
      Ensures-all λ out e.
        let (id, id_of, fits) = validated_id is_decimal d out e in
        let kept : get_value "id" d ≡ get_value "id" task =
          ap (λ o. or_else o null)
            (get?-set_key "blocked_reason" "id" (str reason) (set_key "state" (str "blocked") task)
                refl
              ∙ get?-set_key "state" "id" (str "blocked") task refl) in
        let value = validated_value is_decimal "blocked_reason" d out (str reason) e refl (
          get?-set_key-same "blocked_reason" (str reason) (set_key "state" (str "blocked") task)) in
        record {
          id = id;
          id_of = sym kept ∙ id_of;
          id_text = is_id-is_text id fits;
          settled = superseded-IsSettled out (
              subst (λ v. is_superseded v ≡ true) (sym value)
                (superseded_reason-prefix new_id failed families));
        }

  pub record IsSuccessor (task : Dict) (candidates : List String) (out : Dict) : Type 0 where
    pub from : get_value "failover_from" out ≡ get_value "id" task
    pub lanes : get_value "lanes" out ≡ arr (of_items (map str candidates))

  pub successor-IsSuccessor :
      (task : Dict) (new_id new_brief : String) (candidates : List String)
      → Ensures
          (IsSuccessor task candidates)
          (successor is_decimal task new_id new_brief candidates)
  unfolding successor
  successor-IsSuccessor task new_id new_brief candidates = then_bind _ λ id id_of.
      then_bind _ λ brief brief_of. then_bind _ λ given given_of. then_read _ _ λ inputs listed.
        then_bind _ λ spec spec_of. Ensures-all λ out e.
          let d = retry_of task id brief inputs spec new_id new_brief candidates in
          record {
            from =
                validated_predecessor is_decimal d out e
                ∙ (ap (λ o. or_else o null)
                      (get?-set_key-same "failover_from" id
                        (unlinked_retry task brief inputs spec new_id new_brief candidates))
                    ∙ sym (item_value "id" task id id_of));
            lanes =
                validated_value is_decimal "lanes" d out (arr (of_items (map str candidates))) e
                  refl (retry_lanes task id brief inputs spec new_id new_brief candidates);
          }
