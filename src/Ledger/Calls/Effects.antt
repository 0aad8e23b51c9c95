-- ===== src/Ledger/Calls/Effects.antt =====
-- Every call has an effect of the allowed kind, whatever its arguments and however it ends.

use inference_grid.Result.{Result, ok, raised, Ensures, Ensures-map, gives}
use inference_grid.Ledger.State.{State, Clock, Env, tx}
use inference_grid.Ledger.Claim.Admission.{claim-Admission}
use inference_grid.Ledger.Calls.{
  Call, configures, submits, defers, claims, starts, holds, finishes, records_lane, resolves,
  accepts, records_outcome, records_external, perform,
}
use inference_grid.Ledger.Lifecycle.Soundness.{IsSound}
use inference_grid.Ledger.Effects.{Effect, Leaves, IsConnected}
use inference_grid.Ledger.Effects.Quiet.{Effect-refl}
use inference_grid.Ledger.Effects.Admit.{Admission-Effect}
use inference_grid.Ledger.Effects.Dispatches.{start-Effect, hold-Effect, finish-Effect}
use inference_grid.Ledger.Effects.Resolves.{
  Notes, resolve-Effect, accept-Effect, record_outcome-Effect,
}
use inference_grid.Ledger.Effects.Setup.{
  submit-Effect, defer-Effect, record_lane-Effect, record_external-Effect,
}
use inference_grid.Ledger.Effects.Configures.{configure_account-Effect}

tx-Effect :
    {A : Type 0} (s : State) (m : Result (A × State)) → Ensures (Leaves s) m → Effect s (tx s m)
tx-Effect s (ok (_, t)) (gives h) = h.effect
tx-Effect s (raised e) h = Effect-refl s

pub perform-Effect :
    (env : Env) (clock : Clock) (call : Call) (s : State)
    → IsSound s.attempts
    → IsConnected s
    → Effect s (perform env clock call s)
unfolding perform
perform-Effect env clock (configures name r aliases observed) s sound c =
    tx-Effect s _ (configure_account-Effect env clock s c name r aliases observed)
perform-Effect env clock (submits task project spec) s sound c =
    tx-Effect s _ (submit-Effect env task project spec s)
perform-Effect env clock (defers alias endpoint until) s sound c =
    tx-Effect s _ (defer-Effect clock alias endpoint until s)
perform-Effect env clock (claims aid task alias estimate) s sound c = tx-Effect s _ (
    Ensures-map (λ out a. record { effect = Admission-Effect out a })
      (claim-Admission clock aid task alias estimate s))
perform-Effect env clock (starts aid generation) s sound c =
    tx-Effect s _ (start-Effect clock s aid generation)
perform-Effect env clock (holds aid reason) s sound c = hold-Effect clock s aid reason
perform-Effect env clock (finishes aid generation receipt) s sound c =
    tx-Effect s _ (finish-Effect clock s env aid generation receipt)
perform-Effect env clock (records_lane provider facts) s sound c =
    tx-Effect s _ (record_lane-Effect clock provider facts s)
perform-Effect env clock (resolves aid outcome reason operator evidence) s sound c =
    tx-Effect s _ (resolve-Effect env clock s aid outcome reason operator evidence)
perform-Effect env clock (accepts aid digest family verdict) s sound c =
    tx-Effect s _ (accept-Effect env clock s aid digest family verdict sound)
perform-Effect env clock (records_outcome aid o) s sound c = tx-Effect s _ (
    Ensures-map (λ out (n : Notes s out). record { effect = n.effect })
      (record_outcome-Effect env clock s aid o))
perform-Effect env clock (records_external aid task project spec receipt o) s sound c =
    record_external-Effect env clock s c aid task project spec receipt o
