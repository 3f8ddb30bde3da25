-- ===== src/Server/Interceptor/Calls.antt =====
-- What an interceptor of incoming calls is given: the rest of the chain, as a function of the context
-- and the world, that returns or panics. internal/server/interceptor/stream.go is here too.
use grpc_template.Common.{ℕ, Option}
use grpc_template.World.{World, Exit}
use grpc_template.Rpc.{Rpc, Context}

module _ (G : Rpc) where
  -- A `grpc.UnaryHandler` on the request at hand: a response or nil, and an error or nil.
  abbrev pub UnaryHandler : Type 0 → Type 0
  UnaryHandler A = Context G → World → Exit (Option A × Option (Rpc.Err G)) × World

  -- A `grpc.ServerStream` by its context and its identity.
  pub record ServerStream : Type 0 where
    pub context : Context G
    pub stream : ℕ

  abbrev pub StreamHandler : Type 0
  StreamHandler = ServerStream → World → Exit (Option (Rpc.Err G)) × World

  -- `&wrappedServerStream{ServerStream: ss, ctx: ctx}`, whose `Context` is `ctx`.
  unfoldable pub wrap : ServerStream → Context G → ServerStream
  wrap ss ctx = record ss { context = ctx }
