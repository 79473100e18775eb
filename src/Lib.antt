-- ===== src/Lib.antt =====
-- faas-provider serves the HTTP interface of an OpenFaaS provider, passes requests on to functions
-- and to flows of functions, caches the answers of flows in a PaperCache server, and decides from
-- what it measures what eviction policy that server runs. The parts and the files that model them:
--
--   pkg/adaptive/pattern.go (PatternDetector)           Adaptive/Pattern.antt
--   pkg/adaptive/metrics.go (MetricsAggregator)         Adaptive/Metrics.antt, Metrics/Defs.antt,
--                                                       Metrics/Operations.antt
--   pkg/adaptive/trend.go (TrendAnalyzer)               Adaptive/Trend.antt
--   pkg/adaptive/cost_benefit.go (CostBenefitAnalyzer)  Adaptive/CostBenefit.antt
--   pkg/adaptive/orchestrator.go (IntelligentOrchestrator)
--                                                       Adaptive/Orchestrator.antt,
--                                                       Orchestrator/Threads.antt
--   proxy/proxy.go: buildProxyRequest, copyHeaders      Proxy/Request.antt
--   proxy/proxy.go: proxyRequest, NewHandlerFunc        Proxy/Forward.antt
--   proxy/proxy.go: NewProxyClient                      Proxy/Client.antt
--   proxy/proxy.go: NewFlowHandler's setup              Proxy/Setup.antt
--   proxy/proxy.go: NewFlowHandler's handler, types/flows.go
--                                                       Proxy/Flow.antt, Proxy/Flow/Handler.antt
--   types/cache.go (the clients' wrappers)              Proxy/Cache.antt
--   serve.go (Serve)                                    Serve/Routes.antt
--   metrics.go (InstrumentHandler)                      Serve/Instrument.antt
--   logs/handler.go, logs/logs.go                       Logs.antt
--   types/config.go, types/read_config.go               Config.antt
--   auth/basic_auth.go, auth/credentials.go             Auth.antt
--   httputil/write_interceptor.go                       Interceptor.antt
--   httputil/writers.go                                 Http.antt
--
-- The server's routes lead to handlers, some behind basic authentication and most behind a counter
-- that reads the code from the interceptor. A flow's handler looks for the answer in the cache,
-- tells the orchestrator whether it was there, and otherwise calls the flow's children, passes
-- their outputs on to the function and stores the answer. The orchestrator owns the other four of
-- pkg/adaptive. Its setup asks the client for the configured policies, has the aggregator try each
-- of them, and sets the best. Its loop runs one evaluation cycle a tick: outside the stability
-- period after a switch it collects the metrics, asks the detector whether the accesses have
-- shifted and the trend analyzer whether the policy degrades, and if so lets the cost-benefit
-- analyzer compare the measured policies and may switch. Request handlers feed the detector between
-- cycles.
--
-- Each struct is a record with the source's fields, each method a function by clauses that takes
-- the state and returns the new one; RecordAccess is `record_access`, evaluationLoop is
-- `evaluation_loop`, and so on. In the modules below each part stand its theorems, named for what
-- they are about (Pattern/Window, Metrics/Best, Orchestrator/Switches), and its Tests.
--
-- What the code calls and does not implement is a parameter. Adaptive/Client.antt is the interface
-- of the PaperCache client and of the clock, over a state of the cache server that each call may
-- change in any way; Adaptive/Sample.antt is a concrete one for the tests. Float/Defs.antt is the
-- interface of float64, NaN included: `IsOrdered` and `IsRounded` are what IEEE 754 says of its
-- order and of the signs of results, and Float/Fixed.antt is a fixed-point number that has them.
-- Config.antt takes the environment as a function, and the standard library's parsers as a record;
-- Auth.antt and Interceptor.antt take the disk and the response's writer as records. Proxy takes
-- the provider's resolver, the HTTP clients and the reverse proxy as `Network`, the cache and the
-- children's client as `Services` (`PaperClient` and `RedisClient` below it), JSON and the hash as
-- `Json`, and what it uses of net/url as `Urls`; Logs takes parsers and the encoder as `Formats`,
-- Serve the metrics' registry as `Registry`. Each works on a state of the outside that a call may
-- change in any way. Http.antt writes out what the handlers rely on of a net/http response: the
-- first code is sent, with the headers set by then. A statement of the flow's handler goes on,
-- returns or panics (`Step`), and the handler is their composition in the monad `M`. The handlers
-- that Serve puts together are the list of calls that they make on their response. An int is an
-- integer without a bound; a time is in nanoseconds on the native numbers. The product of seconds
-- and nanoseconds in ParseIntOrDurationValue wraps around as int64 does. A map is an association
-- list, and a range over it visits the list's order.
--
-- Loops are structural recursion: over the log, the history, a map, a flow's children, or the list
-- of events that the orchestrator's, the monitoring and the log stream's loop receive up to the
-- stop. No definition needs fuel. In `run_loop` an evaluation cycle is one step. In
-- Orchestrator/Threads.antt the loop goes from one critical section or client call to the next:
-- `Position` says where it stands and what its local variables hold, `advance` is its next step, and
-- `Steps` and `Reach` are the interleavings with the accesses of handlers, with starts and with
-- stops. Elsewhere a handler runs in one piece, and what others do meanwhile is among what its calls
-- of the outside may change; Proxy/Flow/Provenance.antt says what they may store in the cache.
--
-- Not modelled: the log lines and summaries, the orchestrator's status report, the structs that only
-- carry JSON, and the run of the router, of prometheus and of the http.Server.
pub mod Prelude
pub mod Float
pub mod Http
pub mod Adaptive
pub mod Config
pub mod Auth
pub mod Interceptor
pub mod Proxy
pub mod Logs
pub mod Serve
