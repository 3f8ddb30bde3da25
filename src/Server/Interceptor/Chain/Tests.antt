-- ===== src/Server/Interceptor/Chain/Tests.antt =====
-- The two orders of `RequestID` and `Logging` around one call.
use grpc_template.Common.{ℕ, refl, true, false, Option, none, some, [], ◌∷◌, arith, codes}
use grpc_template.World.{World, Exit, done}
use grpc_template.Rpc.{Context, StatusInfo}
use grpc_template.Rpc.Demo.{demo, background, start, unavailable}
use grpc_template.Server.Interceptor.Calls.{ServerStream}
use grpc_template.Server.Interceptor.Config.{AuthFunc, Config, custom}
use grpc_template.Server.Interceptor.Gates.{Allow}
use grpc_template.Server.Interceptor.Gates.Ends.{Validate}
use grpc_template.Server.Interceptor.Chain.Gated.{Gated, gates, stream_gates, gates-Gated}
use grpc_template.Server.Interceptor.Config.Tests.{plain}
use grpc_template.Server.Interceptor.Uuid.Tests.{random}
use grpc_template.Server.Interceptor.Chain.{Ordered, request_id-logging}

abbrev hello : Context demo → World → (Option ℕ × Option StatusInfo) × World
hello ctx w = ((some 1, none), w)

request_id-logging_example : Ordered {G = demo} random plain "/m" hello background start
request_id-logging_example =
    request_id-logging random plain "/m" hello background start refl (omega arith) refl

abbrev with_token : Context demo
with_token = record background { incoming = some (("authorization", codes "Bearer k" ∷ []) ∷ []) }

-- It leaves a claim in the context.
abbrev accept : AuthFunc demo
accept ctx token w = (done (record ctx { values = ("claims", "admin") ∷ [] }, none), w)

-- The limiter knows the claim.
abbrev admins : Allow demo
admins l ctx key w = elim ctx.values [ [] ↦ ((false, none), w) | v ∷ vs ↦ ((true, none), w) ]

abbrev gated_cfg : Config demo
gated_cfg = record plain { auth_func = some accept; rate_limiter = some (custom 1 false) }

abbrev answer : Context demo → World → Exit (Option ℕ × Option StatusInfo) × World
answer ctx w = (done (some 1, none), w)

abbrev drain : ServerStream demo → World → Exit (Option StatusInfo) × World
drain ss w = (done none, w)

-- The request does not validate.
abbrev invalid : Validate demo
invalid = some (λ w. (some unavailable, w))

gates-Gated_example :
    Gated {G = demo} admins
      (λ e. e.message)
      gated_cfg
      "/m"
      5
      with_token
      start
      invalid
      answer
      drain
      (gates admins (λ e. e.message) gated_cfg "/m" invalid answer with_token start)
      (stream_gates admins
        (λ e. e.message)
        gated_cfg
        "/m"
        drain
        (record { context = with_token; stream = 5 })
        start)
gates-Gated_example =
    gates-Gated {G = demo} admins (λ e. e.message) gated_cfg "/m" 5 with_token start invalid answer
      drain
