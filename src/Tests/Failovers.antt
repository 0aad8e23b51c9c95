-- ===== src/Tests/Failovers.antt =====
-- The theorem on failovers, at a packet whose rounds are exhausted.
use inference_grid.Prelude.{String, false, refl, Option, none, List, [], ◌∷◌}
use inference_grid.Value.{Value, Dict, str, arr, of_items, set_key}
use inference_grid.Result.{Result, ok, raised}
use inference_grid.Ledger.State.{State}
use inference_grid.Routing.Route.{has_part}
use inference_grid.Routing.Views.{insert_id, sorted_ids}
use inference_grid.PacketTask.{packet_dict}
use inference_grid.Failover.{
  Board, Authored, reason_eligible, failover_candidate, other_lanes, failover_candidates, successor,
  predecessor, author_failover,
}
use inference_grid.Failover.Once.{IsHandedOver, author_failover_once}
use inference_grid.Tests.Packets.{packet_of, one_gate, checked, is_decimal, packets}

abbrev stopped : Dict
stopped = set_key "blocked_reason" (str "packet stopped: rounds_exhausted (attempt a1)") (
    set_key "state" (str "blocked")
      (packet_dict (packet_of one_gate) (checked one_gate (1800 ∷ []))))

abbrev lane : String → Dict
lane family =
    ("family", str family)
    ∷ ("kind", str "goat_cli")
    ∷ ("categories", arr (of_items (str "packet" ∷ [])))
    ∷ []

abbrev lanes : List (String × Dict)
lanes = ("zai", lane "glm") ∷ ("kimi", lane "moonshot") ∷ ("codex", lane "openai") ∷ []

abbrev board : Board
board = ("t-1", stopped) ∷ []

abbrev show : Value → String
show v = "?"

abbrev outcome : Result (Authored × (Board × Option State))
outcome =
    author_failover is_decimal show 0 "t-1-2" "t-1-2.txt" false (str "glm") lanes [] "t-1" stopped
      board none

abbrev left_behind : Result (Authored × (Board × Option State)) → Board
left_behind (ok (a, (b, s))) = b
left_behind (raised e) = []

unfoldable failing : Unit {0}
unfolding packets has_part insert_id sorted_ids reason_eligible failover_candidate other_lanes
    failover_candidates successor predecessor author_failover
failing = tt

abbrev after : Board
after = left_behind outcome

author_failover_once_example :
    IsHandedOver (str "glm") lanes "t-1" "t-1-2" stopped ("codex" ∷ "kimi" ∷ []) board after
unfolding failing
author_failover_once_example =
    author_failover_once is_decimal show 0 "t-1-2" "t-1-2.txt" false (str "glm") lanes [] "t-1"
      stopped board none "t-1-2" ("codex" ∷ "kimi" ∷ []) ("moonshot" ∷ "openai" ∷ []) after none
      refl
