-- ===== src/Server/Interceptor/Auth.antt =====
-- internal/server/interceptor/auth.go: `Auth`, `StreamAuth` and the bearer token. Folding case is
-- done on ASCII letters; no other character folds to a letter of "bearer ".
pub mod Bearer
pub mod Guard
mod Tests
use grpc_template.Common.{
  ℕ, ◌+◌, Bool, true, false, ◌&&◌, Option, none, some, List, [], ◌∷◌, String, Bytes, codes,
  bytes_eq, take, drop, length, map, leb, if◌then◌else◌, is_empty,
}
use grpc_template.World.{World, Exit, done, panicked}
use grpc_template.Rpc.{Rpc, Context, code_unauthenticated}
use grpc_template.Server.Interceptor.Calls.{UnaryHandler, ServerStream, StreamHandler, wrap}
use grpc_template.Server.Interceptor.Config.{AuthFunc, Config, is_member}

abbrev pub lower_byte : ℕ → ℕ
lower_byte c = if leb b'A' c && leb c b'Z' then c + 32 else c

-- `token[:7]` folds to "bearer ".
pub has_bearer : Bytes → Bool
has_bearer v = leb 7 (length v) && bytes_eq (map lower_byte (take 7 v)) (codes "bearer ")

pub strip_bearer : Bytes → Bytes
unfolding has_bearer
strip_bearer v = if has_bearer v then drop 7 v else v

module _ (G : Rpc) where
  abbrev pub unauthenticated : String → Rpc.Err G
  unauthenticated m = Rpc.status_error G code_unauthenticated m

  -- The token, or an error.
  pub data Token : Type 0 where
    found : Bytes → Token
    refused : Rpc.Err G → Token

  pub header_token : List Bytes → Token
  unfolding strip_bearer
  header_token [] = refused (unauthenticated "missing authorization token")
  header_token ([] ∷ vs) = refused (unauthenticated "missing authorization token")
  header_token ((b ∷ bs) ∷ vs) =
      let token = strip_bearer (b ∷ bs) in
      if is_empty token then refused (unauthenticated "empty bearer token") else found token

  pub extract_bearer_token : Context G → Token
  unfolding header_token
  extract_bearer_token ctx = elim ctx.incoming [
    | none ↦ refused (unauthenticated "missing metadata")
    | some md ↦ header_token (Rpc.md_get G md "authorization")
  ]

  -- `authenticateContext` behind the `AuthFunc`.
  pub auth_result : Exit (Context G × Option (Rpc.Err G)) → Exit (Context G × Option (Rpc.Err G))
  auth_result (panicked v) = panicked v
  auth_result (done (ctx, none)) = done (ctx, none)
  auth_result (done (ctx, some e)) = done (ctx, some (unauthenticated "authentication failed"))

  pub authenticate_context :
      Context G → AuthFunc G → World → Exit (Context G × Option (Rpc.Err G)) × World
  unfolding extract_bearer_token auth_result
  authenticate_context ctx fn w = elim (extract_bearer_token ctx) [
    | refused e ↦ (done (ctx, some e), w)
    | found token ↦ let (r, w') = fn ctx token w in (auth_result r, w')
  ]

  -- The handler with the authenticated context, or the error.
  pub proceed :
      {A : Type 0}
      → UnaryHandler G A
      → Exit (Context G × Option (Rpc.Err G)) × World
      → Exit (Option A × Option (Rpc.Err G)) × World
  proceed handler (panicked v, w) = (panicked v, w)
  proceed handler (done (ctx, some e), w) = (done (none, some e), w)
  proceed handler (done (ctx, none), w) = handler ctx w

  pub proceed_stream :
      StreamHandler G
      → ServerStream G
      → Exit (Context G × Option (Rpc.Err G)) × World
      → Exit (Option (Rpc.Err G)) × World
  unfolding wrap
  proceed_stream handler ss (panicked v, w) = (panicked v, w)
  proceed_stream handler ss (done (ctx, some e), w) = (done (some e), w)
  proceed_stream handler ss (done (ctx, none), w) = handler (wrap G ss ctx) w

  -- The `AuthFunc` that a method is subject to.
  abbrev pub guard : Config G → String → Option (AuthFunc G)
  guard cfg method = if is_member method cfg.excluded_methods then none else cfg.auth_func

  pub auth : {A : Type 0} → Config G → String → UnaryHandler G A → UnaryHandler G A
  unfolding authenticate_context proceed
  auth cfg method handler ctx w = elim (guard cfg method) [
    | none ↦ handler ctx w
    | some fn ↦ proceed handler (authenticate_context ctx fn w)
  ]

  pub stream_auth : Config G → String → StreamHandler G → StreamHandler G
  unfolding authenticate_context proceed_stream
  stream_auth cfg method handler ss w = elim (guard cfg method) [
    | none ↦ handler ss w
    | some fn ↦ proceed_stream handler ss (authenticate_context ss.context fn w)
  ]
