-- ===== src/Server/Interceptor/Gates.antt =====
-- The interceptors that let a call through or answer it themselves: `RateLimit` and
-- `StreamRateLimit` of internal/server/interceptor/rate_limit.go, and `Validation` of
-- internal/server/interceptor/validation.go. The method `Allow` of the configured limiter, whichever
-- it is, is an argument, as is the request's `Validate`.
pub mod Ends
pub mod Laws
use grpc_template.Common.{ℕ, Bool, true, false, Option, none, some, String, Bytes, if◌then◌else◌}
use grpc_template.World.{World, Exit, done, panicked}
use grpc_template.Rpc.{Rpc, Context, code_internal, code_resource_exhausted, code_invalid_argument}
use grpc_template.Server.Interceptor.Calls.{UnaryHandler, ServerStream, StreamHandler}
use grpc_template.Server.Interceptor.Config.{Config, Limiter}
use grpc_template.Server.Interceptor.PeerKey.{peer_key}

module _ (G : Rpc) where
  abbrev pub Allow : Type 0
  Allow = Limiter → Context G → Bytes → World → (Bool × Option (Rpc.Err G)) × World

  -- What the limiter's answer means: an error for the caller, or none.
  pub verdict : Bool × Option (Rpc.Err G) → Option (Rpc.Err G)
  verdict (allowed, some e) = some (Rpc.status_error G code_internal "rate limiter internal error")
  verdict (true, none) = none
  verdict (false, none) = some (Rpc.status_error G code_resource_exhausted "rate limit exceeded")

  pub check_limit : Allow → Config G → Context G → World → Option (Rpc.Err G) × World
  unfolding verdict peer_key
  check_limit allow_of cfg ctx w = elim cfg.rate_limiter [
    | none ↦ (none, w)
    | some l ↦
        let (answer, w') = allow_of l ctx (peer_key G ctx cfg.trust_proxy) w in (verdict answer, w')
  ]

  pub rate_limit : {A : Type 0} → Allow → Config G → UnaryHandler G A → UnaryHandler G A
  unfolding check_limit
  rate_limit allow_of cfg handler ctx w =
      let (err, w') = check_limit allow_of cfg ctx w in
      elim err [ none ↦ handler ctx w' | some e ↦ (done (none, some e), w') ]

  pub stream_rate_limit : Allow → Config G → StreamHandler G → StreamHandler G
  unfolding check_limit
  stream_rate_limit allow_of cfg handler ss w =
      let (err, w') = check_limit allow_of cfg ss.context w in
      elim err [ none ↦ handler ss w' | some e ↦ (done (some e), w') ]

  -- `Validate` of a request that has one; `sprintf` stands for the format with `%v` of the error.
  pub validation :
      {A : Type 0}
      → (Rpc.Err G → String)
      → Option (World → Option (Rpc.Err G) × World)
      → UnaryHandler G A
      → UnaryHandler G A
  validation sprintf none handler ctx w = handler ctx w
  validation sprintf (some validate) handler ctx w =
      let (err, w') = validate w in
      elim err [
        | none ↦ handler ctx w'
        | some e ↦ (done (none, some (Rpc.status_error G code_invalid_argument (sprintf e))), w')
      ]
