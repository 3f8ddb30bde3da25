-- ===== src/Cmd/Server/Tests.antt =====
-- A call of the command line server with a handler that panics.
use grpc_template.Common.{ℕ, ◌≡◌, refl, true, Option, some, String, Bytes, arith}
use grpc_template.World.{World, Exit, panicked, set_header}
use grpc_template.Rpc.{Context, StatusInfo}
use grpc_template.Rpc.Demo.{demo, background, start}
use grpc_template.Server.Interceptor.Uuid.{match_uuid}
use grpc_template.Server.Interceptor.Uuid.Tests.{random}
use grpc_template.Server.Interceptor.RateLimit.Tests.{counting}
use grpc_template.Server.Interceptor.Chain.Whole.{Ended}
use grpc_template.Server.Options.Tests.{disk, shared}
use grpc_template.Cmd.Server.{main_server, chain_unary, main_server-Ended}

abbrev breaks : Context demo → World → Exit (Option ℕ × Option StatusInfo) × World
breaks ctx w = (panicked "nil map", w)

abbrev stack : World → String
stack w = "goroutine 1"

main_server-Ended_example :
    (id : Bytes) × (match_uuid id ≡ true)
    × Ended {G = demo} stack
        (main_server demo disk counting 9 start shared).shared.config
        "/m"
        9
        id
        (breaks (record background { request_id = some id }) (set_header "x-request-id" id start))
        (chain_unary demo random stack
          (main_server demo disk counting 9 start shared).shared.config
          "/m"
          (main_server demo disk counting 9 start shared).server.unary_interceptors
          breaks
          background
          start)
main_server-Ended_example =
    main_server-Ended {G = demo} disk counting 9 start shared random stack "/m" breaks background
      start refl (omega arith)
