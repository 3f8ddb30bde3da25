-- ===== src/Lib.antt =====
-- The verification library of grpc-template, a Go template for gRPC servers and clients. It models
-- the hand-written packages under internal/, the programs under cmd/ and the example, and states what
-- they do.
--
-- The program. A server (internal/server) is built from functional options, registers services and
-- runs until it is cancelled; a client (internal/client) is built in the same way, connects, watches
-- the server's health and closes. Around each call runs a chain of interceptors
-- (internal/server/interceptor, internal/client/interceptor), which read a configuration that the
-- options fill and write to a log handler (internal/logging).
--
-- The parts.
--   Common           native numbers, lists, Go's int64 with its wrap-around (Int), texts as lists of
--                    bytes (Text), scanning of texts (Scan)
--   World            clock, log, response headers and default log handler, and how a call ends: it
--                    returns or it panics
--   Rpc              the interface of errors with a status, of metadata and of the call's context;
--                    Rpc/Demo is an instance for the examples
--   Logging          internal/logging/logging.go: SetDefault, Default, Resolve
--   Client/Interceptor/Config, Backoff, Retry, Auth, Timeout, CallLogging
--                    internal/client/interceptor: config.go, retry.go (backoffDuration and Retry),
--                    auth.go, timeout.go, logging.go
--   Client/Options   internal/client/option.go, and New and buildDialOpts of client.go
--   Client/Connection, Client/Health, Client/Ready, Client/Reflection
--                    internal/client/client.go: Connect, Close and Conn with the steps that hold the
--                    lock; the loop of startHealthWatch; WaitReady and State; ListServices and
--                    defaultListServices
--   Server/Interceptor/PeerKey, RateLimit, Gates
--                    internal/server/interceptor/rate_limit.go: peerKey, MemoryRateLimiter, and the
--                    interceptors RateLimit and StreamRateLimit; Gates also has validation.go.
--                    RateLimit/Concurrent has the two halves of Allow, interleaved
--   Server/Interceptor/Config, Auth, Uuid, RequestId, CallLogging, Recovery, Calls
--                    config.go, auth.go, requestid.go (Uuid and RequestId), logging.go, recovery.go
--                    and stream.go of the same directory. Config/Snapshot has the copies of getConfig,
--                    which share the maps
--   Server/Interceptor/Chain
--                    the order of RequestID and Logging; Chain/Whole has Recovery between them, and
--                    Chain/Gated the gates Auth, Validation and RateLimit, each in front of the next
--   Server/Options, Server/Lifecycle
--                    internal/server/option.go and server.go: New, buildOptions, setupServer, Run.
--                    Lifecycle/Goroutines has the two goroutines of Run, interleaved
--   Greeter          internal/service/greeter: the service (greeter.go) and the caller (caller.go)
--   Wire             the client's and the server's auth.go at the two ends of a connection; Wire/Call is
--                    a call of the caller's SayHello between the two programs of cmd/, over a connection
--                    that is an argument
--   Cmd              cmd/client/main.go and cmd/server/main.go: the options of the two programs, the
--                    chains of their unary interceptors, and in Cmd/Client/Session what the client's
--                    main does behind New
--   LoadBalancing    examples/loadbalancing: demo.go and interceptor.go; LoadBalancing/Servers is
--                    server.go and LoadBalancing/Main main.go
--
-- How state is modelled. An interceptor is a function of a configuration snapshot, of the rest of the
-- chain, of the context and of the world. Options are functions on the server or client under
-- construction and on the interceptors' configuration. A log handler, a listener, a connection, an
-- interceptor or a service is a number, its identity. A `*rate.Limiter` is a number into a heap. Calls
-- that run at the same time are sequences of steps, one step for each time the lock is held; the two
-- goroutines of Run step from one call or channel operation to the next.
--
-- Bounds and fuel. The retry loop recurs on the number of rounds of its range, which is computed in
-- int64 and may wrap around; the backoff is computed in int64. Times of the rate limiter are natural
-- numbers of nanoseconds. The health watch recurs on a list of its turns. The loop of WaitReady,
-- which may go on for ever, runs on fuel, one unit a round: a bound on the round in which the
-- connection is ready or the context ends is enough. All other functions are structurally recursive.
--
-- What is a parameter. The gRPC packages (Rpc), a connection's states and answers, the stream of a
-- handler and the generated stub of a caller, the delivery of metadata from client to server and of
-- response headers back, the token bucket of golang.org/x/time/rate (Rate), the reading of
-- certificates, balancers and JSON (Env of the two Options modules), listeners (Net), and user code:
-- handlers, token sources, AuthFunc, Validate, other rate limiters. Randomness is an argument: the
-- jitter of the backoff and the bytes of a UUID. When Serve and GracefulStop return is in the steps of
-- Lifecycle/Goroutines, as their documentation has it; that an RPC ends is an event from outside, on
-- which GracefulStop may wait for ever.
--
-- What is not modelled. Generated code under pkg/, the adapter to log/slog and its setup in the
-- programs, the texts of formatted errors beyond their format, and the spaces outside ASCII that
-- strings.TrimSpace removes. The error of grpc.SetHeader, which the source drops, is not modelled: the
-- header is always set. What a panic that nothing recovers does to the process is not modelled: it
-- comes back as a value, and a theorem that needs a handler to return says so. A race on the maps of config.go, which are read without the lock, is not
-- a step of its own: a read finds a map before or behind an option. The function run of
-- Server/Lifecycle writes the entries of Run in one fixed order; Lifecycle/Goroutines has them in
-- every order, but only those of Run itself.
pub mod Cmd
pub mod Common
pub mod World
pub mod Greeter
pub mod LoadBalancing
pub mod Logging
pub mod Rpc
pub mod Client
pub mod Server
pub mod Wire
