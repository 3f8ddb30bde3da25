-- ===== src/Greeter.antt =====
-- internal/service/greeter: the service (greeter.go) and its caller (caller.go). The generated stub
-- and the stream that gRPC gives to the handler are arguments.
pub mod Script
mod Tests
use grpc_template.Common.{
  ℕ, suc, ◌+◌, ◌-◌, Option, none, some, List, [], ◌∷◌, ◌++◌, String, Bytes, codes, ltb, length,
  if◌then◌else◌,
}
use grpc_template.World.{World, Level, Value, emit, Exit, done}
use grpc_template.Rpc.{Rpc, Context}
use grpc_template.Server.Interceptor.Calls.{UnaryHandler}

-- `Service`, by its log handler.
pub record Service : Type 0 where
  pub log : ℕ

-- `NewService`
pub new_service : ℕ → Service
new_service l = record { log = l }

-- `fmt.Sprintf` on a format that has `name` between two texts.
abbrev pub around : String → Bytes → String → Bytes
around before name after = codes before ++ name ++ codes after

abbrev pub greetings : Bytes → List Bytes
greetings name =
    around "Hello, " name "!"
    ∷ around "How are you, " name "?"
    ∷ around "Good to see you, " name "!"
    ∷ []

-- The stream of a call, on the states `S`: `send` is nil or an error, and `pause` is the wait for the
-- first of 500 ms and the end of the context.
pub record Stream (G : Rpc) (S : Type 0) : Type 0 where
  pub send : Bytes → S → Option (Rpc.Err G) × S
  pub pause : S → S

module _ (G : Rpc) (wrap_error : String → Rpc.Err G → Rpc.Err G) where
  -- `SayHello` of the service. The response is its message.
  unfoldable pub say_hello : Service → Bytes → UnaryHandler G Bytes
  say_hello s name ctx w = (
    done (some (around "Hello, " name "!"), none),
    emit s.log Level.info "received SayHello request" (("name", Value.bytes name) ∷ []) w,
  )

  module _ {S : Type 0} (stream : Stream G S) where
    -- The loop over the greetings from the index `i`, of `n` in all.
    unfoldable pub send_greetings : ℕ → ℕ → List Bytes → S → Option (Rpc.Err G) × S
    send_greetings n i [] s = (none, s)
    send_greetings n i (greeting ∷ rest) s =
        let (err, s') = stream.send greeting s in
        elim err [
          | some e ↦ (some (wrap_error "failed to send greeting: %w" e), s')
          | none ↦ send_greetings n (suc i) rest (if ltb i (n - 1) then stream.pause s' else s')
        ]

    -- `SayHelloServerStream` of the service.
    pub say_hello_server_stream : Service → Bytes → World → S → Option (Rpc.Err G) × (World × S)
    unfolding send_greetings
    say_hello_server_stream svc name w s =
        let (err, s') = send_greetings (length (greetings name)) 0 (greetings name) s in
        (
          err,
          (
            emit svc.log Level.info "received SayHelloServerStream request"
                (("name", Value.bytes name) ∷ []) w,
            s',
          ),
        )

-- The generated client on a connection: its two calls, with their options.
pub record Stub (G : Rpc) (Opt Reply : Type 0) : Type 1 where
  pub say_hello :
      Context G → Bytes → List Opt → World → Exit (Option Bytes × Option (Rpc.Err G)) × World
  pub say_hello_server_stream :
      Context G → Bytes → List Opt → World → Exit (Option Reply × Option (Rpc.Err G)) × World

-- `Caller`
pub record Caller (G : Rpc) (Opt Reply : Type 0) : Type 1 where
  pub client : Stub G Opt Reply
  pub log : ℕ

module _ (G : Rpc) {Opt Reply : Type 0} where
  -- `NewCaller`, on the stub that the connection gives.
  unfoldable pub new_caller : Stub G Opt Reply → ℕ → Caller G Opt Reply
  new_caller stub l = record { client = stub; log = l }

  -- `SayHello` of the caller.
  unfoldable pub call_say_hello :
      Caller G Opt Reply
      → Context G
      → Bytes
      → List Opt
      → World
      → Exit (Option Bytes × Option (Rpc.Err G)) × World
  call_say_hello c ctx name opts w =
      c.client.say_hello ctx name opts
        (emit c.log Level.info "calling SayHello" (("name", Value.bytes name) ∷ []) w)

  -- `SayHelloServerStream` of the caller.
  unfoldable pub call_say_hello_server_stream :
      Caller G Opt Reply
      → Context G
      → Bytes
      → List Opt
      → World
      → Exit (Option Reply × Option (Rpc.Err G)) × World
  call_say_hello_server_stream c ctx name opts w =
      c.client.say_hello_server_stream ctx name opts
        (emit c.log Level.info "calling SayHelloServerStream" (("name", Value.bytes name) ∷ []) w)
