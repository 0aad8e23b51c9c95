-- ===== src/Lib.antt =====
-- Inference Grid: the durable task ledger and the deterministic parts around it.
--
-- The program hands tasks to provider accounts. `Ledger` (src/inference_grid/ledger.py) keeps accounts
-- with their quota windows, cooldowns, aliases, tasks and attempts; an attempt is claimed (its quota
-- reserved), started, and then finished or held, a held one is resolved by an operator, and a completed
-- one is accepted behind an independent review. `tick` (src/inference_grid/scheduler.py) claims the
-- pending tasks by priority, through the aliases of src/inference_grid/aliases.py; receipts of
-- finished work are checked by src/inference_grid/receipts.py, and
-- src/inference_grid/lane_readiness.py classifies the lanes that the ledger records, whose
-- configuration src/inference_grid/lanes/config.py checks. A board's tasks are checked by
-- src/inference_grid/board/task.py, and the event stream of a native run by
-- src/inference_grid/goat_outcomes.py or src/inference_grid/opencode_outcomes.py. `execute`
-- (src/inference_grid/worker.py) runs one attempt's process between `start` and `finish` or `hold`,
-- `route` (src/inference_grid/lanes/route.py) picks a task's lane, and
-- src/inference_grid/board/packet_task.py checks a packet task and admits its attempt; a failed packet
-- is handed on by src/inference_grid/board/failover.py. An admitted packet is built by the loop of
-- src/inference_grid/lanes/packet.py. The pass of src/inference_grid/board/runner.py sees the lanes
-- through `readiness_view` and returns stranded tasks. The collections of
-- src/inference_grid/collector.py claim an account on a table of their own, and publish what they read.
--
-- Files and code:
--   Prelude, Value     texts, lists, integers, and the Python and JSON values with their equality
--   Result             raised exceptions as values, and rules for chains of checks
--   Receipts           receipts.py; Receipts/Laws on `validate_receipt`
--   Aliases            aliases.py; Aliases/Walk on `canonical_account`
--   LaneReadiness      lane_readiness.py; LaneReadiness/Precedence on its ladder
--   Scheduler          scheduler.py, `tick`; Scheduler/Order on the order of the tasks,
--                      Scheduler/History on its effect
--   Ledger/State       the tables, `tx` and `event` of ledger.py
--   Ledger/Claim       `inference_paused` and `claim`
--   Ledger/Dispatch    `start`, `hold`, `finish` and `hold_abandoned`
--   Ledger/Resolve     `resolve` and `accept`
--   Ledger/Submit      `submit`
--   Ledger/Outcomes    `record_outcome` and `record_external`
--   Ledger/Cooldowns   `defer` and `cooldown_status`
--   Ledger/Configure   `configure_account`
--   Ledger/Lanes       `classifier_view` and `record_lane`
--   Ledger/Lifecycle   the moves of an attempt, and what a table of attempts keeps
--   Ledger/Effects     what each call may do to the tables
--   Ledger/Calls       the calls as data, histories of them, and what holds behind every history
--   BoardTask          board/task.py; BoardTask/Validity on `validate_task`
--   GoatOutcomes       goat_outcomes.py; GoatOutcomes/Completion on `classify_goat`
--   OpencodeOutcomes   opencode_outcomes.py; OpencodeOutcomes/Qualification on `classify_opencode`
--   Worker             worker.py, `execute`; Worker/Supervision on its loop, Worker/Settlement on
--                      what it leaves in the ledger
--   LaneConfig         lanes/config.py; LaneConfig/Validity on `validate_lane_config`
--   Routing/Meta       lanes/meta.py
--   Routing/Select     lanes/select.py
--   Routing/Route      lanes/route.py; below it Offers (the filters), Selection (`select_lane`),
--                      MostQuota (the ranking) and Winners (`route`)
--   PacketTask         board/packet_task.py, `validate_packet_task`; PacketTask/Validity and
--                      PacketTask/Fields on what it returns
--   PacketTask/Admission  `packet_wall_seconds` and the ledger's part of `admit_packet`, with the
--                      bounds, the refusals and the admissions below it
--   Failover           board/failover.py; Failover/Retry on the two files, Failover/Once on
--                      `author_failover`
--   Observation        observation.py; RetryAfter is retry_after.py, with its bounds
--   Collector          collector.py, the transactions of `collect`; Collector/SingleFlight on them;
--                      Collector/Response (with quota_status.py) on the provider's answer, and
--                      Collector/Cooled on a 429; Collector/Publish (with remaining_units.py),
--                      Collector/Converted on its arithmetic and Collector/Published on
--                      `publish_observation`
--   BoardEntry         board/packet_task.py's `validate_board_task`, with board/verify_merge.py,
--                      board/plan_task.py and board/calibration/__init__.py (their validators)
--   BoardRunner        board/runner.py: the slots of accounts, and tasks that are stranded;
--                      BoardRunner/Requeue and /Stranded on `requeue_dead`
--   BoardReadiness     board/runner.py: `readiness_view`; BoardReadiness/Selectable on it
--   PacketLane         lanes/packet.py: IdleWatch (the wait for a round), Transcript, Adapters, Gates,
--                      Session (the world and the variables), Loop (the rounds) and Build
--                      (`build_loop`); IdleWatch/Waiting on the wait, Loop/Rounds, Loop/Judgement and
--                      Loop/Outcome on the rounds, Build/Report on the verdict
--   Tests              a scenario run through the calls, and the theorems on it
--
-- How the code is read:
--   * A table is the list of its rows, the newest first. A call takes the tables and returns a result
--     with the new ones; `tx` keeps the old ones where the call raises. Transactions serialize writers
--     (BEGIN IMMEDIATE, or the row locks), so concurrent callers are a history of calls in some order.
--   * The parameter `Clock` is what the interpreter gives a call: `time i` is the i-th reading of
--     time.time() that it makes, so a call may see time pass; `total` is Python's `sum` of amounts and
--     `plus` its `+` of two, whatever they round to and in whatever order the database gives the rows,
--     so the tests against a quota are those of the code.
--   * A new uuid is an argument, and a taken one is the primary key's error.
--   * Times and amounts are exact counts of 2 ^ -1074, of which every finite double is a multiple; an
--     int is brought to the same unit. The differences max(0, v - x) of a debit are exact here, where
--     Python rounds them to a double; remaining_units computes with the parameter `Arithmetic`, which is
--     Python's arithmetic of two ints or floats, and with a floor of the model's own. nan and the
--     infinities are values of their own, and an int that is too large for a double makes math.isfinite
--     raise.
--   * sha256 over canonical JSON and Path.resolve are the fields of the parameter `Env`.
--   * Error texts leave the repr of a value out. list.sort is an insertion sort: the keys differ.
--   * The alias walk takes as many rounds as the map has entries and two more, which always suffice.
--   * The operating system that `execute` asks is the parameter `Host`: what each call answers, with the
--     failures; its polls are a function of their number. The rounds of the supervision loop are
--     bounded by fuel, which suffices where it exceeds the number of a poll that sees the process gone
--     or the deadline reached. Other calls of the ledger while the process runs are a list.
--   * The build loop of a packet asks the parameter `World`: the disk, the clock, and for each command
--     line the run of the agent, turn by turn, with its transcript and its gates. Its times are
--     hundredths of a second. The wait for a round has fuel of one turn for each of them up to the
--     deadline, which suffices since no wait is given less. The rounds are structural.
--   * Lanes and tasks are routed as records of the keys that the code reads. The float quotient of
--     `select_lane`, the decimal digits of Python's regular expressions, its lower-case letters,
--     str.lower, and str of a value that is no text are parameters.
--   * The sum of a time of receipt and a delay is the parameter `Floats`, with nextafter; a sum is to be
--     the nearest double. The parsers of timestamps and HTTP dates are parameters.
--   * A board is its task files by id. The database's LIKE is a parameter. The id and the
--     brief of a failed packet's retry are arguments.
--
-- Not modelled: the locks table and the row locks, which only serialize; the outbox; the text of the
-- command line, reports and dashboards; the processes, files and git queries of lanes and boards; the
-- pass of the board runner, which starts threads; the report of `refresh_collect`.
pub mod Prelude
pub mod Value
pub mod Result
pub mod PacketTask
pub mod Failover
pub mod Observation
pub mod RetryAfter
pub mod Collector
pub mod Receipts
pub mod Aliases
pub mod LaneReadiness
pub mod BoardTask
pub mod BoardEntry
pub mod BoardRunner
pub mod BoardReadiness
pub mod GoatOutcomes
pub mod OpencodeOutcomes
pub mod PacketLane
pub mod LaneConfig
pub mod Ledger
pub mod Routing
pub mod Scheduler
pub mod Worker
pub mod Tests
