-- ===== src/PacketTask/Admission.antt =====
-- src/inference_grid/board/packet_task.py: `packet_wall_seconds`, `_account_windows` and what
-- `admit_packet` asks of the ledger.
pub mod Bounds
pub mod Refusal
pub mod Started
use inference_grid.Prelude.{
  ℕ, String, Bool, true, ◌*◌, ◌^◌, Option, none, some, List, [], ◌∷◌, first, ◌==◌,
}
use inference_grid.Prelude.Int.{ℤ, pos, ◌+ℤ◌, scale_ℤ}
use inference_grid.Value.{
  Value, null, bool, str, num, int, float, finite, obj, arr, of_items, no_fields, Dict, as_dict,
  as_list, as_int, get?, or_else,
}
use inference_grid.Result.{
  Result, ok, raised, no_result_found, type_error, other_error, ◌>>=◌, or_raise,
}
use inference_grid.Ledger.State.{
  AttemptState, held, Quota, State, Clock, Env, tx, item, account_row, alias_row, attempt_row,
}
use inference_grid.Ledger.Submit.{submit}
use inference_grid.Ledger.Claim.{claim}
use inference_grid.Ledger.Dispatch.{start}
use Prim.Native.String.{◌++◌}

abbrev int_item : String → Dict → Result ℤ
int_item k d = item k d >>= λ v. or_raise (as_int v) type_error

abbrev dict_item : String → Dict → Result Dict
dict_item k d = item k d >>= λ v. or_raise (as_dict v) type_error

-- `g.get("timeout", 1800)`.
unfoldable pub gate_timeout : Value → Result ℤ
gate_timeout v = do
  gate ← or_raise (as_dict v) (other_error "AttributeError")
  or_raise (as_int (or_else (get? "timeout" gate) (num (int (pos 1800))))) type_error

unfoldable pub sum_timeouts : List Value → Result ℤ
unfolding gate_timeout ◌+ℤ◌
sum_timeouts [] = ok (pos 0)
sum_timeouts (v ∷ vs) = do n ← gate_timeout v; rest ← sum_timeouts vs; ok (n +ℤ rest)

unfoldable pub packet_wall_seconds : Dict → Result ℤ
unfolding sum_timeouts ◌+ℤ◌
packet_wall_seconds task = do
  spec ← dict_item "spec" task
  budget ← dict_item "budget" task
  wall ← int_item "wall_seconds" budget
  gates ← item "gates" spec >>= λ v. or_raise (as_list v) type_error
  seconds ← sum_timeouts gates
  rounds ← int_item "max_rounds" spec
  ok (wall +ℤ seconds +ℤ scale_ℤ 60 rounds)

-- The float 0.01.
abbrev hundredth : Value
hundredth = num (float (finite (pos (5764607523034235 * 2 ^ 1015))))

abbrev pub hundredths : Quota → Dict
hundredths [] = []
hundredths ((window, limit) ∷ windows) = (window, hundredth) ∷ hundredths windows

-- The estimate of a packet: a hundredth in each window of the account.
unfoldable pub account_windows : String → State → Result Dict
account_windows alias s = do
  binding ← or_raise (alias_row alias s) no_result_found
  acct ← or_raise (account_row binding.account s) no_result_found
  ok (hundredths acct.windows)

pub record PacketLane : Type 0 where
  pub kind : String
  pub model : Value
  pub family : Value

-- `ledger_spec`.
unfoldable pub packet_ledger_spec : Env → PacketLane → Dict → String → Result Dict
unfolding packet_wall_seconds
packet_ledger_spec env lane task workspace = do
  spec ← dict_item "spec" task
  packet_id ← item "packet_id" spec
  id ← item "id" task
  seconds ← packet_wall_seconds task
  budget ← dict_item "budget" task
  output_bytes ← item "output_bytes" budget
  ok (
      ("authorized", bool true)
      ∷ ("model", lane.model)
      ∷ ("family", lane.family)
      ∷ ("argv", arr (of_items (str ("packet-loop:" ++ lane.kind) ∷ packet_id ∷ id ∷ [])))
      ∷ ("workspace", str workspace)
      ∷ ("timeout", num (int seconds))
      ∷ ("output_bytes", output_bytes)
      ∷ ("inputs", obj no_fields)
      ∷ ("manifest_sha256", str (env.digest (obj no_fields)))
      ∷ [])

-- The admission that is returned, but for the context of the loop; `state` is none where the loop is to run.
pub record PacketAdmission : Type 0 where
  pub aid : String
  pub generation : ℕ
  pub state : Option AttemptState

-- `next((r["state"] for r in ledger.status() if r["id"] == aid), "held")`.
abbrev pub reported : String → State → AttemptState
reported aid s = elim (attempt_row aid s) [ none ↦ held | some r ↦ r.state ]

-- `submit`, `claim` and `start`, each a transaction of its own: what the earlier ones committed stays
-- where a later one raises. `aid` is the fresh id of the claim.
unfoldable pub start_packet : Clock → String × ℕ → State → Result PacketAdmission × State
unfolding start
start_packet clock (aid, generation) s = elim (start clock aid generation s) [
  | raised e ↦ (raised e, s)
  | ok (some started, s') ↦ (ok (record { aid = aid; generation = generation; state = none }), s')
  | ok (none, s') ↦
      (ok (record { aid = aid; generation = generation; state = some (reported aid s') }), s')
]

unfoldable pub claim_packet :
    Clock → Clock → String → String → String → State → Result PacketAdmission × State
unfolding claim account_windows start_packet
claim_packet clock clock' aid task alias s =
    elim (account_windows alias s >>= λ estimate. claim clock aid task alias estimate s) [
      | raised e ↦ (raised e, s)
      | ok (claimed, s') ↦ start_packet clock' claimed s'
    ]

unfoldable pub admit_packet :
    Env
    → Clock
    → Clock
    → PacketLane
    → Dict
    → String
    → String
    → String
    → String
    → String
    → State
    → Result PacketAdmission × State
unfolding submit packet_ledger_spec claim_packet
admit_packet env clock clock' lane task workspace project task_id aid alias s =
    elim (packet_ledger_spec env lane task workspace >>= λ spec.
    submit env task_id project spec s) [
      | raised e ↦ (raised e, s)
      | ok (_, s') ↦ claim_packet clock clock' aid task_id alias s'
    ]
