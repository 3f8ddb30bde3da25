-- ===== src/Server/Interceptor/RequestId/Tests.antt =====
-- A call with a forged identifier.
use grpc_template.Common.{◌≡◌, refl, ◌⊎◌, arith, true, Option, none, some, [], ◌∷◌, Bytes, codes}
use grpc_template.World.{World, Exit, done, set_header}
use grpc_template.Rpc.{Context, StatusInfo}
use grpc_template.Rpc.Demo.{demo, background, start}
use grpc_template.Server.Interceptor.Calls.{ServerStream}
use grpc_template.Server.Interceptor.Uuid.{generate_uuid, match_uuid}
use grpc_template.Server.Interceptor.Uuid.Tests.{random}
use grpc_template.Server.Interceptor.RequestId.{request_id, stream_request_id}
use grpc_template.Server.Interceptor.RequestId.Laws.{Sent, SentNone, request_id_valid}

abbrev forged : Context demo
forged = record background { incoming = some (("x-request-id", codes "a\nb" ∷ []) ∷ []) }

abbrev echo : Context demo → World → Exit (Option (Option Bytes) × Option StatusInfo) × World
echo ctx w = (done (some ctx.request_id, none), w)

abbrev drain : ServerStream demo → World → Exit (Option StatusInfo) × World
drain ss w = (done none, w)

request_id_valid_example :
    (id : Bytes) × (match_uuid id ≡ true)
    × (Sent {G = demo} forged id ⊎ (SentNone {G = demo} forged × (id ≡ generate_uuid random)))
    × (request_id demo random echo forged start
        ≡ echo (record forged { request_id = some id }) (set_header "x-request-id" id start))
    × (stream_request_id demo random drain (record { context = forged; stream = 3 }) start
        ≡ drain
            (record { context = record forged { request_id = some id }; stream = 3 })
            (set_header "x-request-id" id start))
request_id_valid_example = request_id_valid random refl (omega arith) forged echo drain 3 start
