-- ===== src/Client/Interceptor/Timeout/Laws.antt =====
-- The deadline under which `Timeout` runs a call.
use grpc_template.Common.{ℕ, zero, suc, ◌+◌, ◌≡◌, ap, ℤ, pos, negsuc, Option, none, some, arith}
use grpc_template.World.{World}
use grpc_template.Rpc.{Rpc, Context}
use grpc_template.Client.Interceptor.Config.{Config}
use grpc_template.Client.Interceptor.Timeout.{timeout_context, timeout}

-- The deadline that a call is to run under: its own, or `now + timeout` for a positive timeout.
abbrev pub due : ℤ → Option ℕ → ℕ → Option ℕ
due d (some t) now = some t
due (pos (suc n)) none now = some (now + suc n)
due (pos zero) none now = none
due (negsuc n) none now = none

timeout_context-due :
    {G : Rpc} (d : ℤ) (ctx : Context G) (w : World)
    → timeout_context G d ctx w ≡ record ctx { deadline = due d ctx.deadline w.now }
unfolding timeout_context
timeout_context-due d ctx w = ground arith

-- `Timeout` runs the call exactly once, on a context that differs from the caller's only in the
-- deadline: a deadline that is set is kept, an unset one becomes `now + timeout` if the timeout is
-- positive and stays unset if it is not.
pub timeout-due :
    {G : Rpc} (cfg : Config G) (invoker : Context G → World → Option (Rpc.Err G) × World)
    (ctx : Context G) (w : World)
    → timeout G cfg invoker ctx w
      ≡ invoker (record ctx { deadline = due cfg.default_timeout ctx.deadline w.now }) w
unfolding timeout
timeout-due cfg invoker ctx w =
    ap (λ c. invoker c w) (timeout_context-due cfg.default_timeout ctx w)
