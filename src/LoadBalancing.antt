-- ===== src/LoadBalancing.antt =====
-- examples/loadbalancing: the demos of demo.go and the interceptors of interceptor.go. What
-- `grpc.Header` has stored of a call's response headers, `fmt.Sprintf` on a number and the order in
-- which a range over a map goes are arguments.
mod Main
pub mod Servers
pub mod Tally
mod Tests
use grpc_template.Common.{
  ℕ, zero, suc, ◌+◌, pos, Bool, Option, none, some, List, [], ◌∷◌, String, Bytes, codes, bytes_eq,
  if◌then◌else◌,
}
use grpc_template.World.{World, Level, Value, emit, Exit, done, panicked, set_header}
use grpc_template.Rpc.{Rpc, Context}
use grpc_template.Server.Interceptor.Calls.{UnaryHandler, ServerStream, StreamHandler}
use grpc_template.Greeter.{Caller, call_say_hello, call_say_hello_server_stream}

abbrev pub num_servers : ℕ
num_servers = 3

abbrev pub num_requests : ℕ
num_requests = 12

abbrev pub num_streams : ℕ
num_streams = 6

-- `map[string]int`
abbrev pub Hits : Type 0
Hits = List (Bytes × ℕ)

-- `hits[addr]++`
unfoldable pub bump : Bytes → Hits → Hits
bump addr [] = (addr, 1) ∷ []
bump addr ((a, n) ∷ hits) =
    let rest = bump addr hits in if bytes_eq a addr then (a, n + 1) ∷ hits else (a, n) ∷ rest

-- What a stream gives: its messages, and then an error, at its end or before.
abbrev pub Replies : Type 0
Replies = List Bytes

abbrev drain_from : ℕ → Replies → ℕ
drain_from count [] = count
drain_from count (m ∷ ms) = drain_from (count + 1) ms

pub drain_stream : Replies → ℕ
drain_stream ms = drain_from 0 ms

-- `GetMessage` on a response or nil, and a range over a stream or nil.
abbrev pub or_empty : {A : Type 0} → Option (List A) → List A
or_empty none = []
or_empty (some xs) = xs

-- Go's `+` on strings.
abbrev concat : String → String → String
concat String.[] t = t
concat (String.◌∷◌ c s) t = String.◌∷◌ c (concat s t)

-- `logSummary`, over the map in the order of the range.
log_counts : ℕ → String → Hits → World → World
log_counts l rpc_type [] w = w
log_counts l rpc_type ((addr, count) ∷ hits) w = log_counts l rpc_type hits (
    emit l Level.info "server handled"
      (("type", Value.text rpc_type)
        ∷ ("address", Value.bytes addr)
        ∷ ("count", Value.number (pos count))
        ∷ [])
      w)

pub log_summary : ℕ → String → Hits → World → World
unfolding log_counts
log_summary l rpc_type ranged w =
    log_counts l rpc_type ranged (emit l Level.info (concat rpc_type " distribution summary") [] w)

-- A loop of calls, from the index `i`: each takes the map to the next, or panics.
unfoldable pub repeat_calls :
    (ℕ → Hits → World → Exit Hits × World) → ℕ → ℕ → Hits → World → Exit Hits × World
repeat_calls round zero i hits w = (done hits, w)
repeat_calls round (suc n) i hits w =
    let (r, w') = round i hits w in
    elim r [ panicked v ↦ (panicked v, w') | done hits' ↦ repeat_calls round n (suc i) hits' w' ]

module _ (G : Rpc) where
  -- `serverTag`
  unfoldable pub server_tag : {A : Type 0} → Bytes → UnaryHandler G A → UnaryHandler G A
  server_tag addr handler ctx w = handler ctx (set_header "x-server-addr" addr w)

  -- `streamServerTag`
  unfoldable pub stream_server_tag : Bytes → StreamHandler G → StreamHandler G
  stream_server_tag addr handler ss w = handler ss (set_header "x-server-addr" addr w)

  unfoldable pub addr_from_header : Rpc.Md G → Bytes
  addr_from_header header = elim (Rpc.md_get G header "x-server-addr") [
    | [] ↦ codes "unknown"
    | v ∷ vs ↦ v
  ]

  -- What the demos use besides the caller, whose call option 0 is `grpc.Header(&header)`.
  pub record Env : Type 0 where
    pub header : World → Rpc.Md G
    pub sprintf : String → ℕ → Bytes
    pub range : Hits → Hits

  module _ (env : Env) (caller : Caller G ℕ Replies) (ctx : Context G) (l : ℕ) where
    failed : String → String → ℕ → Rpc.Err G → World → World
    failed message key i e =
        emit l Level.error message
          ((key, Value.number (pos (i + 1))) ∷ ("error", Value.text (Rpc.error_text G e)) ∷ [])

    -- One round of `runUnaryDemo`.
    pub unary_round : ℕ → Hits → World → Exit Hits × World
    unfolding addr_from_header failed
    unary_round i hits w =
        let (r, w') = call_say_hello G caller ctx (env.sprintf "Request-%d" (i + 1)) (0 ∷ []) w in
        elim r [
          | panicked v ↦ (panicked v, w')
          | done (reply, some e) ↦ (done hits, failed "SayHello failed" "request" i e w')
          | done (reply, none) ↦
              let addr = addr_from_header (env.header w') in
              (
                done (bump addr hits),
                emit l Level.info "request routed"
                    (("request", Value.number (pos (i + 1)))
                      ∷ ("server", Value.bytes addr)
                      ∷ ("reply", Value.bytes (or_empty reply))
                      ∷ [])
                    w',
              )
        ]

    -- One round of `runStreamDemo`.
    pub stream_round : ℕ → Hits → World → Exit Hits × World
    unfolding addr_from_header failed drain_stream
    stream_round i hits w =
        let (r, w') =
          call_say_hello_server_stream G caller ctx (env.sprintf "Stream-%d" (i + 1)) (0 ∷ []) w in
        elim r [
          | panicked v ↦ (panicked v, w')
          | done (stream, some e) ↦
              (done hits, failed "SayHelloServerStream failed" "stream" i e w')
          | done (stream, none) ↦
              let count = drain_stream (or_empty stream) in
              let addr = addr_from_header (env.header w') in
              (
                done (bump addr hits),
                emit l Level.info "stream routed"
                    (("stream", Value.number (pos (i + 1)))
                      ∷ ("server", Value.bytes addr)
                      ∷ ("messages", Value.number (pos count))
                      ∷ [])
                    w',
              )
        ]

    -- The end of a demo: the summary of what the loop has counted.
    summed : String → Exit Hits × World → Exit Unit × World
    unfolding log_summary
    summed rpc_type (panicked v, w) = (panicked v, w)
    summed rpc_type (done hits, w) = (done tt, log_summary l rpc_type (env.range hits) w)

    pub run_unary_demo : World → Exit Unit × World
    unfolding unary_round repeat_calls summed
    run_unary_demo w = summed "unary" (
        repeat_calls unary_round num_requests 0 [] (
          emit l Level.info "starting unary load balancing demo"
            (("servers", Value.number (pos num_servers))
              ∷ ("requests", Value.number (pos num_requests))
              ∷ ("policy", Value.text "round_robin")
              ∷ [])
            w))

    pub run_stream_demo : World → Exit Unit × World
    unfolding stream_round repeat_calls summed
    run_stream_demo w = summed "stream" (
        repeat_calls stream_round num_streams 0 [] (
          emit l Level.info "starting streaming load balancing demo"
            (("streams", Value.number (pos num_streams))
              ∷ ("policy", Value.text "round_robin")
              ∷ [])
            w))
