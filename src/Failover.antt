-- ===== src/Failover.antt =====
-- src/inference_grid/board/failover.py: the one retry of a failed packet on another family.
pub mod Retry
pub mod Once
use inference_grid.Prelude.{
  ℕ, zero, suc, String, Bool, true, false, not, ◌||◌, ◌&&◌, Option, none, some, List, [], ◌∷◌, map,
  any, if◌then◌else◌, is_empty,
}
use inference_grid.Prelude.Text.{codes, has_prefix, join}
use inference_grid.Value.{
  Value, null, bool, str, obj, arr, of_dict, of_items, Dict, as_dict, as_list, as_str, get?,
  get_value, or_else, set_key, has_key, has_name, value_eq, is_str, truthy,
}
use inference_grid.Result.{Result, ok, type_error, ◌>>=◌, or_raise}
use inference_grid.Ledger.State.{State, item, event}
use inference_grid.Routing.Route.{has_part}
use inference_grid.Routing.Views.{sorted_ids}
use inference_grid.PacketTask.{validate_packet_task}
use Prim.Native.String.{◌++◌}

-- A board: its task files, by id.
abbrev pub Board : Type 0
Board = List (String × Dict)

abbrev pub failover_reasons : List String
failover_reasons = "rounds_exhausted" ∷ "agent_stopped_early" ∷ "transport_error" ∷ []

abbrev pub packet_kinds : List String
packet_kinds = "goat_cli" ∷ "zcode_cli" ∷ "opencode_cli" ∷ []

abbrev names_reason : Value → Bool
names_reason (str s) = any (λ reason. has_part (codes reason) (codes s)) failover_reasons
names_reason _ = false

unfoldable pub reason_eligible : List Value → Bool
unfolding has_part
reason_eligible texts = any names_reason texts

abbrev is_false : Value → Bool
is_false (bool b) = not b
is_false _ = false

abbrev pub failover_on : Dict → Bool
failover_on task = not (is_false (get_value "failover" task))

abbrev pub is_failover : Dict → Bool
is_failover task = truthy (get_value "failover_from" task)

-- `str(reason or "").startswith("superseded:")`: no other value than a text is printed so.
abbrev pub is_superseded : Value → Bool
is_superseded (str s) = has_prefix (codes s) (codes "superseded:")
is_superseded _ = false

-- A task of the board that was authored as the failover of this id.
abbrev pub succeeds : Value → String × Dict → Bool
succeeds id (k, other) = value_eq (get_value "failover_from" other) id

-- A loaded task has its id.
unfoldable pub failover_candidate : Dict → Board → Bool
unfolding value_eq reason_eligible
failover_candidate task board =
    is_str "packet" (get_value "category" task)
    && (is_str "blocked" (get_value "state" task)
        && (failover_on task
            && (not (is_failover task)
                && (not (is_superseded (get_value "blocked_reason" task))
                    && (reason_eligible (get_value "blocked_reason" task ∷ [])
                        && not (any (succeeds (get_value "id" task)) board))))))

abbrev pub declares_packet : Dict → Bool
declares_packet lane = elim (as_list (get_value "categories" lane)) [
  | none ↦ false
  | some categories ↦ any (is_str "packet") categories
]

abbrev pub has_packet_kind : Dict → Bool
has_packet_kind lane = any (λ kind. is_str kind (get_value "kind" lane)) packet_kinds

-- A lane to which a failed packet of a family may go.
abbrev pub takes_over : Value → Dict → Bool
takes_over failed lane =
    not (value_eq (get_value "family" lane) failed)
    && (declares_packet lane && has_packet_kind lane)

unfoldable pub other_lanes : Value → List (String × Dict) → List String
unfolding value_eq
other_lanes failed [] = []
other_lanes failed ((lid, lane) ∷ lanes) =
    let rest = other_lanes failed lanes in if takes_over failed lane then lid ∷ rest else rest

unfoldable pub failover_candidates : List (String × Dict) → Value → List String
unfolding other_lanes sorted_ids
failover_candidates lanes failed = sorted_ids (other_lanes failed lanes)

-- `s[:n]`.
abbrev pub cut : ℕ → String → String
cut zero s = String.[]
cut (suc n) String.[] = String.[]
cut (suc n) (String.◌∷◌ c s) = String.◌∷◌ c (cut n s)

-- Each text once.
abbrev pub unique : List String → List String
unique [] = []
unique (s ∷ ss) = let rest = unique ss in if has_name s rest then rest else s ∷ rest

abbrev pub replaced : Value → Value → Value → Value
replaced old new v = if value_eq v old then new else v

pub data Authored : Type 0 where
  -- `None`: the task is no candidate.
  no_candidate : Authored
  not_authored : String → Authored
  authored : String → List String → List String → Authored

-- `dict(task, ...)` of the successor, and the same without the link to the predecessor.
abbrev pub unlinked_retry : Dict → Value → List Value → Dict → String → String → List String → Dict
unlinked_retry task brief inputs spec new_id new_brief candidates = set_key "failover" (bool true) (
    set_key "blocked_reason" null (
      set_key "state" (str "ready") (
        set_key "spec" (obj (of_dict (set_key "brief" (str new_brief) spec))) (
          set_key "lanes" (arr (of_items (map str candidates))) (
            set_key "inputs" (arr (of_items (map (replaced brief (str new_brief)) inputs)))
              (set_key "brief" (str new_brief) (set_key "id" (str new_id) task)))))))

abbrev pub retry_of :
    Dict → Value → Value → List Value → Dict → String → String → List String → Dict
retry_of task id brief inputs spec new_id new_brief candidates =
    set_key "failover_from" id (unlinked_retry task brief inputs spec new_id new_brief candidates)

-- What the authoring of one retry writes: the successor first, then the predecessor, each a file of
-- its own.
abbrev pub write_successor : String → Dict → Board → Board
write_successor new_id task board = set_key new_id task board

abbrev pub write_predecessor : String → Dict → Board → Board
write_predecessor key task board = set_key key task board

abbrev pub log_failover : ℕ → Dict → Option State → Option State
log_failover now detail none = none
log_failover now detail (some s) = some (event now none "failover" detail s)

abbrev pub failover_detail : Value → String → Value → List String → Dict
failover_detail id new_id failed families =
    ("from_task", id)
    ∷ ("to_task", str new_id)
    ∷ ("from_family", failed)
    ∷ ("to_families", arr (of_items (map str families)))
    ∷ []

-- `show` is Python's `str` of a value that is no text.
module _ (show : Value → String) where
  -- `family or "?"`.
  abbrev pub family_text : Value → String
  family_text v = if truthy v then or_else (as_str v) (show v) else "?"

  abbrev pub families_of : List (String × Dict) → List String → List String
  families_of lanes ids =
      sorted_ids
        (unique (map (λ id. family_text (get_value "family" (or_else (get? id lanes) []))) ids))

  abbrev pub superseded_reason : String → Value → List String → String
  superseded_reason new_id failed families = cut 300 (
      "superseded:"
      ++ (" "
          ++ (new_id
              ++ (" — failover " ++ (family_text failed ++ (" -> " ++ join ", " families))))))

module _ (is_decimal : ℕ → Bool) where
  unfoldable pub successor : Dict → String → String → List String → Result Dict
  unfolding value_eq validate_packet_task
  successor task new_id new_brief candidates = do
    id ← item "id" task
    brief ← item "brief" task
    given ← item "inputs" task
    inputs ← or_raise (as_list given) type_error
    spec ← item "spec" task >>= λ v. or_raise (as_dict v) type_error
    validate_packet_task is_decimal
        (obj (of_dict (retry_of task id brief inputs spec new_id new_brief candidates)))

  unfoldable pub predecessor : Dict → String → Result Dict
  unfolding validate_packet_task
  predecessor task reason =
      validate_packet_task is_decimal (
        obj
          (of_dict (set_key "blocked_reason" (str reason) (set_key "state" (str "blocked") task))))

module _ (is_decimal : ℕ → Bool) (show : Value → String) where
  -- `key` is the name of the task's file; `new_id` is the answer of `next_retry_id`, and `new_brief`
  -- the brief beside the old one under that name, which may exist.
  unfoldable pub author_failover :
      ℕ
      → String
      → String
      → Bool
      → Value
      → List (String × Dict)
      → List Value
      → String
      → Dict
      → Board
      → Option State
      → Result (Authored × (Board × Option State))
  unfolding failover_candidate reason_eligible failover_candidates successor predecessor event
  author_failover now new_id new_brief brief_exists failed lanes texts key task board tables =
      let candidates = failover_candidates lanes failed in
      let families = families_of show lanes candidates in
      if not (failover_candidate task board)
        || not (reason_eligible (get_value "blocked_reason" task ∷ texts))
      then ok (no_candidate, (board, tables))
      else if is_empty candidates
      then ok (
        not_authored "no lane of a different family declares the packet category",
        (board, tables),
      )
      else (do
        next ← successor is_decimal task new_id new_brief candidates
        last ← predecessor is_decimal task (superseded_reason show new_id failed families)
        if has_key new_id board || brief_exists
            then ok (not_authored ("failover task id already taken: " ++ new_id), (board, tables))
            else ok (
              authored new_id candidates families,
              (
                write_predecessor key last (write_successor new_id next board),
                log_failover now (failover_detail (get_value "id" task) new_id failed families)
                    tables,
              ),
            ))
