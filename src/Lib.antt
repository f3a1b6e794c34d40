-- ===== src/Lib.antt =====
-- Verification of the Python component library.
--
-- The program is a collection of components that other projects copy. The parts modelled here are
-- those that keep a state under rules of their own:
--
--   * components/utilities/circuit_breaker/circuit_breaker.py: a breaker in front of a service, with
--     the states closed, open and half-open, and a manager that keeps breakers by name. Breaker.antt.
--   * components/trading/circuit_breakers/circuit_breaker.py: the breaker of the trading components, a
--     sibling of the first with other rules for counting. TradingBreaker.antt.
--   * components/trading/gate_system/gate_manager.py: the capital gates G0 to G12, which say which
--     trades an account may make, with the record of violations, graduation, downgrade and the state
--     file. Gates.antt.
--   * patterns/webhook_idempotency/store.py and middleware.py: the in-memory store of responses and
--     locks by idempotency key, and the wrapper that runs the handler of a request once per key.
--     Idempotency.antt.
--   * components/orchestration/pipeline_executor/executor.py: steps with dependencies, sorted, grouped
--     into levels and run, the steps of a level at the same time. Pipeline.antt.
--   * components/memory/memory_mcp_client/circuit_breaker.py: the breaker of the memory client, with the
--     states of the first one and fewer rules. MemoryBreaker.antt.
--   * components/realtime/websocket_manager/connection_manager.py: WebSocket connections by identifier
--     and by user, and the messages to one connection, to one user or to all. Connections.antt.
--   * components/cognitive_architecture/loopctl/authority.py: decisions of four levels of authority, with
--     vetoes and overrides. Authority.antt.
--   * patterns/money_handling/money.py and operations.py: sums, differences and allocations of amounts
--     with a currency. Money.antt.
--   * components/trading/circuit_breakers/trading_breakers.py: the six breakers of a trading system, the
--     kill switch, the limits on orders and the question whether trading is allowed. TradingSafety.antt.
--   * components/memory/memory_mcp_client/memory_mcp_client.py: a client of a memory service with a
--     breaker, a cache and a fallback for the time in which the service is down. MemoryClient.antt.
--   * components/analysis/violation_factory/violation_factory.py, with Severity of common/types.py: the
--     violations that analysers report, their dicts, and collections of them. Violations.antt.
--   * components/utilities/health_monitor/health_monitor.py: checks of services with retries, the counts of
--     their failures and the alerts. HealthMonitor.antt.
--
-- The wrapper calls the store, TradingSafety holds six breakers of TradingBreaker and asks its manager,
-- and MemoryClient calls the service through the breaker of MemoryBreaker; the others do not call one
-- another. Each keeps its own state, which its operations take and return.
--
-- Which file models what
--
--   Prelude          numbers, Boolean tests, lists, sorting, signed integers, keys and dictionaries
--   Breaker.State    CircuitBreakerConfig, CircuitBreakerMetrics, the fields of CircuitBreaker
--   Breaker.Transitions   _transition_to_open, _transition_to_half_open, _transition_to_closed,
--                    _clean_old_failures, _update_response_time and the callbacks
--   Breaker.Calls    call, in the two parts that the lock holds together: `admit` before the function
--                    runs, `on_success` or `on_failure` after it; force_open, force_close, reset
--   Breaker.Schedule a run over a list of timed events, which is how concurrent calls interleave
--   Breaker.Manager  CircuitBreakerManager
--   TradingBreaker   the same division: `can_make_request`, `record_success`, `record_failure`, `call`
--   Gates.Level      GateLevel, ViolationType
--   Gates.Config     GateConfig with the checks of __post_init__, the default configurations
--   Gates.State      the fields of GateManager, the state file, the record of violations
--   Gates.Capital    _determine_gate_by_capital, update_capital
--   Gates.Trade      validate_trade, one definition for each rule that it checks
--   Gates.Graduation check_graduation, the performance score, execute_graduation, execute_downgrade
--   Gates.Manager    __init__
--   Idempotency.Store     InMemoryIdempotencyStore
--   Idempotency.Wrapper   the wrapper of `idempotent`: `begin` before the handler, `finish` after it
--   Idempotency.Schedule  many requests, interleaved in any way
--   Pipeline.State   StepStatus, StepResult, StepConfig, the fields of PipelineExecutor
--   Pipeline.Sort    _topological_sort: the graph, then the loop
--   Pipeline.Levels  _group_by_level
--   Pipeline.Run     _execute_step, run, add_step, reset
--   MemoryBreaker.Calls   CircuitBreaker of the memory client, every method that changes it
--   MemoryBreaker.Simulation   the same schedule of events at this breaker and at the one of Breaker
--   Connections.Manager   ConnectionManager: connect, disconnect, send_personal_message, send_to_user,
--                    broadcast and the queries
--   Connections.Schedule  any sequence of these operations
--   Authority.State       AuthorityLevel, Decision, the fields of DecisionAuthority
--   Authority.Decisions   the methods of DecisionAuthority
--   Authority.Run         any sequence of decisions, vetoes, overrides and clearings
--   Money.Operations      add_money, subtract_money, sum_money, allocate_money, max_money, min_money
--   TradingSafety.Checks  the operations of TradingCircuitBreakers that watch limits: _trip_breaker,
--                    _activate_kill_switch, _check_daily_loss, _check_drawdown, record_order,
--                    check_position_concentration, record_connection_failure
--   TradingSafety.Controls   can_trade, get_blocking_reasons, get_status, the resets, the callbacks
--   TradingSafety.Schedule   any sequence of these operations, with the rounds of the monitoring loop
--   MemoryClient.Cache, MemoryClient.Fallback   InMemoryCache and InMemoryFallback
--   MemoryClient.Client   the methods of MemoryMCPClient
--   MemoryClient.Schedule any sequence of them
--   HealthMonitor.Probes  _execute_check, _execute_http_check, _execute_function_check
--   HealthMonitor.Monitor the other methods of HealthMonitor
--   HealthMonitor.Schedule   any sequence of them, where the results of checks come back in any order
--   Violations.State      Severity, Location, Violation and the checks of their constructors
--   Violations.Records    to_dict and from_dict
--   Violations.Factory, Violations.Patterns   ViolationFactory
--   Violations.Collection ViolationCollection
--
-- The other files below these modules hold the proofs and are named for what they prove; Tests.antt
-- holds runs at concrete values.
--
-- How the code is translated
--
--   * A clock reading is an argument, in microseconds, and each section under a lock reads the clock
--     once; durations of the configurations are in seconds. The code reads the clock more than once in
--     such a section, at times that differ by the running time of a few statements.
--   * The sections under the asyncio lock, and code whose awaits do not suspend, run as one step.
--     Between two of them any other step may come: a schedule is a list of such steps, in any order.
--     The function that a breaker guards is its outcome: a value, an error text, or an end that the
--     code passes on without a record (cancellation, the error of an inner breaker).
--   * Response times are in microseconds too; an average of them is rounded down. A failure rate is
--     compared with its threshold as a fraction, by cross multiplication. The backoff multiplier is a
--     whole number.
--   * A Decimal or float of the gate system is a whole number of ten-thousandths, with its sign.
--   * Callbacks are the list of notices, or events, that the operation sends, in their order.
--   * `str.upper` is a parameter of the trade rules, the SHA-256 of a body one of the wrapper.
--   * A WebSocket is a number. Which sockets fail is a parameter of each operation that sends, and what
--     happens to the sockets is the list of frames that an operation returns. The authenticator of a
--     connection is a function from the token, and the identifiers that `uuid4` draws are fields of the
--     request. An operation on the connections runs as one step: what another task does while a message
--     is being sent comes before it or after it.
--   * The identifier of a decision is a pair, the second in which it was made and the counter, and not
--     the text that spells them out.
--   * An amount of money is a whole number of a unit that is small enough for the amounts at hand, with
--     its sign; the rounded portion of an allocation is a parameter, of which nothing is supposed.
--   * The portfolio of the trading breakers is its answers, where no answer is an exception. A position
--     is compared with its limit by cross multiplication. The six breakers are fields; the manager, which
--     holds the same objects, is computed from them.
--   * The transport of the memory client is the outcome of each call. Of the dicts of tasks the entries
--     are kept that the code reads; `json.dumps`, `json.loads` and `str.lower` are parameters. The client
--     has the cache and the fallback that it makes when it is given none, and between the statements of
--     one method no other method runs.
--   * A value of type Any in the dict of a violation is a text, a number, None or a dict. `str.lower`,
--     `str.strip`, `str.upper` and `str` of a number are parameters.
--   * `sorted` is an insertion sort, which is stable as the one of Python.
--   * The alert function of the health monitor is one that is not a coroutine. It takes some time and
--     returns or raises, and no other step comes before the time of the alert is noted. A check that
--     awaits what it probes is two steps, of which a schedule has the one that handles the result.
--   * Bodies of requests and responses are texts, and of the headers of a request only the one with the
--     key is kept.
--   * A Python dictionary is an association list in the order of insertion. The state file of
--     the gates is an optional snapshot of the values that its JSON text stands for: what `str`,
--     `isoformat` and the values of the enumerations write is taken to be read back as it was. The
--     message and the details of a violation record are left out.
--   * A Python set of names is a list without repetitions. The order in which a loop visits it is the
--     parameter `arrange`, of which only is known that it keeps every name as often as it is there.
--     `schedule` is such a parameter for the order in which the steps of a level end. The function of
--     a step is what its attempts do, by their number and the outputs that they are given.
--   * Loops are recursion on the list that they run over. Only the loop of the topological sort is on
--     fuel: as many rounds as there are steps, since every step enters the queue at most once.
--
-- Not modelled: an alert function that is a coroutine; the limit of 28 digits of a Decimal, products, quotients and rounding of money; the
-- callback of the health monitor on a change of the overall state; JSON texts and the violation of
-- common/types.py; the transport of the memory client and the tags of its payloads; in the
-- connection manager, Redis, and an authenticator or `accept` that raises; in the pipeline, a run of
-- selected steps, the picture of the graph, the callback on_failure, delays, timeouts as times and the
-- limit on concurrent steps; message texts, log lines, most status and report dictionaries, which change
-- no state, the failure of file writes, time zones, and the other components of the library, most of which call
-- services, parse text by regular expressions or are base classes for the code of a client.
pub mod Prelude
pub mod Authority
pub mod Breaker
pub mod Connections
pub mod Gates
pub mod MemoryBreaker
pub mod MemoryClient
pub mod HealthMonitor
pub mod Money
pub mod TradingBreaker
pub mod TradingSafety
pub mod Violations
pub mod Idempotency
pub mod Pipeline
