-- ===== src/Client/Interceptor/CallLogging/Tests.antt =====
-- Runs of `Logging` and `StreamLogging`.
use grpc_template.Common.{◌≡◌, refl, pos, Option, none, some, []}
use grpc_template.World.{World}
use grpc_template.Rpc.{Context, StatusInfo}
use grpc_template.Rpc.Demo.{demo, background, start, unavailable}
use grpc_template.Client.Interceptor.Config.{Config}
use grpc_template.Client.Interceptor.CallLogging.{logging, log_result}

abbrev cfg : Config demo
cfg = record {
  logger = some 7;
  default_timeout = pos 0;
  retry_max = pos 0;
  retry_backoff = pos 0;
  retry_codes = [];
  token_source = none;
}

abbrev call : Context demo → World → Option StatusInfo × World
call ctx w = (some unavailable, record w { now = 130 })

reports_failure : (logging demo cfg "/m" call background start).0 ≡ some unavailable
unfolding logging log_result
reports_failure = refl
