-- ===== src/Lib.antt =====
-- mule: a tunnel for TCP services over QUIC (Go).
--
-- The server of mule runs beside services and accepts QUIC connections from its agents; an agent
-- runs beside clients or services of its own. Each pair shares a secret, from which both derive
-- their identities. A service is forward (an agent listens, the server dials) or reverse (the
-- server listens, an agent dials). Every TCP connection travels on a QUIC stream of its own, which
-- starts with one control frame each way: OPEN or PROBE with the name of the service, and OK or
-- ERROR. Neither side names an address to the other: the side that dials looks the service up in
-- its own configuration.
--
-- The modules and the code that each is about:
--   Base      Go's byte strings, maps, errors and integers, for all others. A string is the list of
--             its bytes; a map the list of its entries in the order in which a range meets them;
--             a value with an error is a Result.
--   Protocol  internal/protocol/control.go: Frame, WriteFrame and ReadFrame over any writer and any
--             stream, with the wire format as an independent description (Protocol.Layout).
--   Config    internal/config/config.go: the Validate, Parse and Normalize functions, with what
--             they use of net, strconv, strings and regexp; Limits and Services are the parts that
--             the ValidateConfig functions of both sides share, and Loading what their LoadConfig
--             functions share, with the YAML decoder and ParseDuration as parameters.
--   Auth      internal/auth/derive.go and internal/auth/tls.go: keys, serial numbers, certificates
--             and the identification of a peer. Crypto holds the primitives as parameters.
--             Auth.Secret: internal/auth/secret.go, on files that are a map from paths, with what
--             the operating system answers as the parameter Os; Auth.Encoding is what it uses of
--             encoding/hex, encoding/base64 and strings.
--   Runtime   What the goroutines of both sides are made of. Runtime.Program is the tree of a
--             goroutine's actions, which branches on their results; a function such as
--             handleAgentStream is one such tree, its deferred calls written where they run.
--             Runtime.Monitor states rules on the order of actions: Runtime.Dialing on what is
--             dialled, Runtime.Conduct on the stream and the TCP connection, Runtime.Ledger on
--             semaphores and gauges. Runtime.System interleaves any number of goroutines, and
--             Runtime.Environment runs one against results settled beforehand.
--   Server    internal/server/server.go: Settings (Config, ApplyDefaults, ValidateConfig), Policy
--             (forwardTarget, reverseAllowed), Streams and Reverse (the goroutines), Connections
--             (register, unregister and the metrics round them, as a step relation of the accept
--             loop and handleAgent; Registry, Calls and Held are about the map under any sequence
--             of its calls), Accepting (the accept loop of Run, from the peer's keys to the
--             goroutine that serves it, and the goroutine that accepts for it), Loading
--             (LoadConfig), Startup (Run before its accept loop).
--   Agent     internal/agent/agent.go: Settings, Loading (LoadConfig), Startup (Run), Streams (the
--             goroutines), Reconnect (maintainConnection and nextReconnectDelay, over the turns
--             that the loop meets), Waiting (getConn, over what its turns find).
--   Listening acceptForward (internal/agent/agent.go) and acceptReverse (internal/server/server.go),
--             the loops of all TCP listeners over the slots that they share.
--   Transport internal/transport/proxy.go: Pipe, its two goroutines as turns that any schedule
--             interleaves, over connections that end and fail where they are told to.
--   Command   cmd/mule/main.go: the mappings of the command line and validateCommon; Flags
--             (parseFlags, rejectFlagsWithConfig and the parser of the package flag), Assemble
--             (runServer and runAgent up to New, in ServerSide and AgentSide), Checks
--             (runCheckConfig, runCheck, runKeygen), Probe (runProbe), Dispatch (run, runHelp,
--             runWithMetrics) and Exposure (warnMetricsExposure). World is what they start in: files, configuration sources
--             and the operating system.
--   Logging   internal/logging/logging.go: which lines are written, and what is in them.
--   Metrics   internal/metrics/metrics.go: the status and what sets it; Endpoint (Handler, Serve).
--   Tunnel    The agent, the server and the frames between them together.
-- The Runs modules hold concrete inputs, the tests of the sources among them.
--
-- Bounds. Durations are in nanoseconds and with int are integers without their wrap-around: the
-- one product, in nextReconnectDelay, is of a delay of at most half the limit. The loop of
-- writeFull has as fuel the bytes that are left, which is enough because each turn takes at least
-- one and an empty write is an error. The loop of getConn has as fuel its turns: one for each 25 ms
-- of the timeout, and two. All other loops are structural. Slots and gauges are counted
-- in natural numbers.
--
-- Not modelled: QUIC and TLS themselves (quic-go, crypto/tls, crypto/x509), of which the code uses
-- results; time, contexts and deadlines, which show as results of the calls that they end; which
-- events are logged, but for that of Exposure; the usage texts of the command line; ParseDuration,
-- which computes with floating-point numbers, and the printing of numbers and of JSON, which are
-- parameters.
pub mod Base
pub mod Protocol
pub mod Config
pub mod Runtime
pub mod Server
pub mod Agent
pub mod Tunnel
pub mod Auth
pub mod Command
pub mod Metrics
pub mod Transport
pub mod Logging
pub mod Listening
