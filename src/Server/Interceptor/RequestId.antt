-- ===== src/Server/Interceptor/RequestId.antt =====
-- internal/server/interceptor/requestid.go: `RequestID`, `StreamRequestID` and `ensureRequestID`. The
-- random bytes that `generateUUID` would read are an argument.
pub mod Laws
mod Tests
use grpc_template.Common.{Option, none, some, List, [], ◌∷◌, Bytes, Bool, if◌then◌else◌}
use grpc_template.World.{World, Exit, set_header}
use grpc_template.Rpc.{Rpc, Context}
use grpc_template.Server.Interceptor.Calls.{UnaryHandler, ServerStream, StreamHandler, wrap}
use grpc_template.Server.Interceptor.Uuid.{generate_uuid, match_uuid}

-- The first value, if it is a UUID.
pub valid_id : List Bytes → Option Bytes
valid_id [] = none
valid_id (v ∷ vs) = if match_uuid v then some v else none

module _ (G : Rpc) where
  unfoldable pub request_id_from_context : Context G → Bytes
  request_id_from_context ctx = elim ctx.request_id [ some id ↦ id | none ↦ [] ]

  -- The client's identifier, if the metadata has a valid one.
  pub client_id : Option (Rpc.Md G) → Option Bytes
  unfolding valid_id
  client_id none = none
  client_id (some md) = valid_id (Rpc.md_get G md "x-request-id")

  pub ensure_request_id : Bytes → Context G → Context G
  unfolding client_id
  ensure_request_id random ctx = elim (client_id ctx.incoming) [
    | some id ↦ record ctx { request_id = some id }
    | none ↦ record ctx { request_id = some (generate_uuid random) }
  ]

  pub request_id : {A : Type 0} → Bytes → UnaryHandler G A → UnaryHandler G A
  unfolding ensure_request_id request_id_from_context
  request_id random handler ctx w =
      let ctx' = ensure_request_id random ctx in
      handler ctx' (set_header "x-request-id" (request_id_from_context ctx') w)

  pub stream_request_id : Bytes → StreamHandler G → StreamHandler G
  unfolding ensure_request_id request_id_from_context wrap
  stream_request_id random handler ss w =
      let ctx = ensure_request_id random ss.context in
      handler (wrap G ss ctx) (set_header "x-request-id" (request_id_from_context ctx) w)
