-- ===== src/Client/Interceptor/Auth.antt =====
-- internal/client/interceptor/auth.go: `Auth`, `StreamAuth` and `injectToken`. A chain element takes
-- the rest of the chain as a function of the context and the world.
pub mod Laws
pub mod Tests
use grpc_template.Common.{
  ℕ, Option, none, some, List, [], ◌∷◌, ◌++◌, Bytes, codes, is_empty, String,
}
use grpc_template.World.{World, Level, Value, emit}
use grpc_template.Logging.{resolve}
use grpc_template.Rpc.{Rpc, Context, code_unauthenticated}
use grpc_template.Client.Interceptor.Config.{TokenSource, Config}

module _ (G : Rpc) where
  -- The generic error, whatever has gone wrong.
  abbrev pub auth_failed : Rpc.Err G
  auth_failed = Rpc.status_error G code_unauthenticated "authentication failed"

  abbrev outgoing_md : Option (Rpc.Md G) → Rpc.Md G
  outgoing_md none = Rpc.md_new G
  outgoing_md (some md) = md

  -- The part behind the token source: reads the token and sets the header.
  pub attach_token : Context G → Option Bytes → Context G × Option (Rpc.Err G)
  attach_token ctx none = (ctx, some auth_failed)
  attach_token ctx (some []) = (ctx, some auth_failed)
  attach_token ctx (some (b ∷ bs)) =
      let md =
        Rpc.md_set G (outgoing_md ctx.outgoing) "authorization"
          ((codes "Bearer " ++ (b ∷ bs)) ∷ []) in
      (record ctx { outgoing = some md }, none)

  -- What `injectToken` does with the source's result.
  pub token_result :
      ℕ → Context G → Option (Rpc.Err G) → World → (Context G × Option (Rpc.Err G)) × World
  unfolding attach_token
  token_result l ctx (some e) w = (
    (ctx, some auth_failed),
    emit l Level.error "token source failed" (("error", Value.text (Rpc.error_text G e)) ∷ []) w,
  )
  token_result l ctx none w = (attach_token ctx ctx.token, w)

  pub inject_token :
      Context G → Option (TokenSource G) → ℕ → World → (Context G × Option (Rpc.Err G)) × World
  unfolding token_result
  inject_token ctx none l w = ((ctx, none), w)
  inject_token ctx (some src) l w = let ((ctx', err), w') = src ctx w in token_result l ctx' err w'

  -- `Auth` over a configuration snapshot.
  pub auth :
      Config G
      → (Context G → World → Option (Rpc.Err G) × World)
      → Context G
      → World
      → Option (Rpc.Err G) × World
  unfolding inject_token resolve
  auth cfg invoker ctx w =
      let ((ctx', err), w') = inject_token ctx cfg.token_source (resolve cfg.logger w) w in
      elim err [ some e ↦ (some e, w') | none ↦ invoker ctx' w' ]

  -- `StreamAuth`: the streamer's result is a stream or nil, and an error or nil.
  pub stream_auth :
      {S : Type 0}
      → Config G
      → (Context G → World → (Option S × Option (Rpc.Err G)) × World)
      → Context G
      → World
      → (Option S × Option (Rpc.Err G)) × World
  unfolding inject_token resolve
  stream_auth cfg streamer ctx w =
      let ((ctx', err), w') = inject_token ctx cfg.token_source (resolve cfg.logger w) w in
      elim err [ some e ↦ ((none, some e), w') | none ↦ streamer ctx' w' ]
