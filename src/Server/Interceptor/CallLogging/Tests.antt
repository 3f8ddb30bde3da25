-- ===== src/Server/Interceptor/CallLogging/Tests.antt =====
-- A cancelled call of a demoted method, and a panic.
use grpc_template.Common.{ℕ, ◌≡◌, refl, Option, none, some}
use grpc_template.World.{World, Level, Exit, done, panicked}
use grpc_template.Rpc.{Context, StatusInfo}
use grpc_template.Rpc.Demo.{demo, background, start}
use grpc_template.Server.Interceptor.Calls.{ServerStream}
use grpc_template.Server.Interceptor.Config.Tests.{plain}
use grpc_template.Server.Interceptor.CallLogging.{outcome}
use grpc_template.Server.Interceptor.CallLogging.Laws.{Logs, StreamLogs, logging-Written}

abbrev canceled : StatusInfo
canceled = record { code = 1; message = "gone" }

abbrev watch : Context demo → World → Exit (Option ℕ × Option StatusInfo) × World
watch ctx w = (done (none, some canceled), record w { now = 160 })

abbrev breaks : ServerStream demo → World → Exit (Option StatusInfo) × World
breaks ss w = (panicked "nil map", w)

abbrev incoming_stream : ServerStream demo
incoming_stream = record { context = background; stream = 5 }

logging-Written_example :
    Logs {G = demo} plain "/watch" watch background start
      (record start { now = 160 })
      (done (none, some canceled))
    × StreamLogs {G = demo} plain "/watch" breaks incoming_stream start start (panicked "nil map")
logging-Written_example =
    logging-Written plain "/watch" watch breaks background incoming_stream start
      (record start { now = 160 }) start (done (none, some canceled)) (panicked "nil map") refl refl

demoted : (outcome demo plain "/watch" (some canceled)).0 ≡ Level.debug
unfolding outcome
demoted = refl
