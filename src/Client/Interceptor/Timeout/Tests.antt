-- ===== src/Client/Interceptor/Timeout/Tests.antt =====
-- A run of `Timeout` that sets the deadline.
use grpc_template.Common.{◌≡◌, refl, pos, Option, none, some, []}
use grpc_template.World.{World}
use grpc_template.Rpc.{Context, StatusInfo}
use grpc_template.Rpc.Demo.{demo, background, start, unavailable}
use grpc_template.Client.Interceptor.Config.{Config}
use grpc_template.Client.Interceptor.Timeout.{timeout, timeout_context}

abbrev cfg : Config demo
cfg = record {
  logger = none;
  default_timeout = pos 50;
  retry_max = pos 0;
  retry_backoff = pos 0;
  retry_codes = [];
  token_source = none;
}

-- Fails if no deadline is set.
abbrev call : Context demo → World → Option StatusInfo × World
call ctx w = elim ctx.deadline [
  | none ↦ (some unavailable, w)
  | some d ↦ (none, record w { now = d })
]

sets_deadline :
    timeout demo cfg call background start ≡ call (record background { deadline = some 150 }) start
unfolding timeout timeout_context
sets_deadline = refl
