-- ===== src/Wire.antt =====
-- internal/client/interceptor/auth.go and internal/server/interceptor/auth.go at the two ends of a
-- connection. How the outgoing metadata of a call becomes the incoming metadata of its handler is an
-- argument.
pub mod Call
mod Tests
use grpc_template.Common.{
  ℕ, ◌≡◌, refl, inl, Option, none, some, List, [], ◌∷◌, ◌++◌, Bytes, codes, arith,
}
use grpc_template.World.{World}
use grpc_template.Rpc.{Rpc, Context}
use mathlib.Core.Option
use grpc_template.Client.Interceptor.Config.{TokenSource, Config}
use grpc_template.Client.Interceptor.Auth.{auth, stream_auth}
use grpc_template.Client.Interceptor.Auth.Laws.{Carries, auth_sends}
use grpc_template.Server.Interceptor.Auth.{found, extract_bearer_token}
use grpc_template.Server.Interceptor.Auth.Bearer.{extract_bearer_token_iff}

-- The context of a handler: `ctx` with what has been delivered of the outgoing metadata of `sent`.
abbrev pub received : {G : Rpc} → (Rpc.Md G → Rpc.Md G) → Context G → Context G → Context G
received deliver sent ctx = record ctx { incoming = Option.map deliver sent.outgoing }

module _ {G : Rpc} (deliver : Rpc.Md G → Rpc.Md G)
    (delivers : (md : Rpc.Md G)
      → Rpc.md_get G (deliver md) "authorization" ≡ Rpc.md_get G md "authorization") where
  Carries-found :
      (b : ℕ) (bs : Bytes) (ctx sent base : Context G)
      → Carries {G = G} (b ∷ bs) ctx sent
      → extract_bearer_token G (received {G = G} deliver sent base) ≡ found (b ∷ bs)
  Carries-found b bs ctx sent base (md, e, header, _) =
      (extract_bearer_token_iff (received {G = G} deliver sent base) (b ∷ bs)).1 (
        deliver md,
        codes "Bearer " ++ (b ∷ bs),
        [],
        rw e refl,
        rw (delivers md) header,
        (λ z. cc),
        inl (codes "Bearer ", refl, refl),
        λ z. cc,
      )

  -- Where the transport keeps the "authorization" values of a call's metadata: whatever token that is
  -- not empty the client's token source has put into the context, `Auth` and `StreamAuth` run the rest
  -- of the chain on a context from whose delivered metadata the server extracts exactly that token,
  -- whatever else the context of its handler holds and whatever headers the caller had set before.
  pub auth-extract_bearer_token :
      {S : Type 0} (cfg : Config G) (src : TokenSource G) (ctx issued base : Context G)
      (w w' : World) (b : ℕ) (bs : Bytes) (invoker : Context G → World → Option (Rpc.Err G) × World)
      (streamer : Context G → World → (Option S × Option (Rpc.Err G)) × World)
      → cfg.token_source ≡ some src
      → src ctx w ≡ ((issued, none), w')
      → issued.token ≡ some (b ∷ bs)
      → (sent : Context G) × (auth G cfg invoker ctx w ≡ invoker sent w')
        × (stream_auth G cfg streamer ctx w ≡ streamer sent w')
        × (extract_bearer_token G (received {G = G} deliver sent base) ≡ found (b ∷ bs))
  auth-extract_bearer_token cfg src ctx issued base w w' b bs invoker streamer set e t =
      let (sent, carries, unary, stream) =
        auth_sends cfg src ctx issued w w' set b bs invoker streamer e t in
      (sent, unary, stream, Carries-found b bs issued sent base carries)
