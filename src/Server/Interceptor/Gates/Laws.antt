-- ===== src/Server/Interceptor/Gates/Laws.antt =====
-- Which calls the gates let through.
use grpc_template.Common.{
  ℕ, ◌≡◌, refl, ◌⊎◌, inl, inr, ◌≢◌, Bool, true, false, Option, none, some, String, arith,
}
use grpc_template.World.{World, done}
use grpc_template.Rpc.{Rpc, Context, code_internal, code_resource_exhausted, code_invalid_argument}
use grpc_template.Server.Interceptor.Calls.{UnaryHandler, ServerStream, StreamHandler}
use grpc_template.Server.Interceptor.Config.{Config, Limiter}
use grpc_template.Server.Interceptor.PeerKey.{peer_key}
use grpc_template.Server.Interceptor.Gates.{
  Allow, verdict, check_limit, rate_limit, stream_rate_limit, validation,
}

module _ {G : Rpc} {A : Type 0} (allow_of : Allow G) (cfg : Config G) (handler : UnaryHandler G A)
    (stream_handler : StreamHandler G) (ss : ServerStream G) (w : World) where
  -- Both interceptors run their handlers in this world, or return this error.
  abbrev pub Passes : World → Type 0
  Passes w' =
      (rate_limit G allow_of cfg handler ss.context w ≡ handler ss.context w')
      × (stream_rate_limit G allow_of cfg stream_handler ss w ≡ stream_handler ss w')

  abbrev pub Blocks : ℕ → String → World → Type 0
  Blocks code m w' =
      (rate_limit G allow_of cfg handler ss.context w
        ≡ (done (none, some (Rpc.status_error G code m)), w'))
      × (stream_rate_limit G allow_of cfg stream_handler ss w
          ≡ (done (some (Rpc.status_error G code m)), w'))

  abbrev pub Rules : Option Limiter → Bool → Option (Rpc.Err G) → World → Type 0
  Rules l a r w' =
      ((l ≡ none) × Passes w)
      ⊎ ((l ≢ none) × (a ≡ true) × (r ≡ none) × Passes w')
      ⊎ ((l ≢ none)
          × (a ≡ false)
          × (r ≡ none)
          × Blocks code_resource_exhausted "rate limit exceeded" w')
      ⊎ ((l ≢ none) × (r ≢ none) × Blocks code_internal "rate limiter internal error" w')

  -- Without a limiter `RateLimit` and `StreamRateLimit` let every call through. With one, they ask
  -- it once, about the peer's key. A call goes to its handler exactly if the answer is yes without
  -- an error; an answer of no becomes ResourceExhausted, and any error of the limiter Internal,
  -- whatever the answer beside it.
  pub rate_limit-verdict :
      (l : Option Limiter) (a : Bool) (r : Option (Rpc.Err G)) (w' : World)
      → cfg.rate_limiter ≡ l
      → ((i : Limiter)
          → allow_of i ss.context (peer_key G ss.context cfg.trust_proxy) w ≡ ((a, r), w'))
      → Rules l a r w'
  unfolding rate_limit stream_rate_limit check_limit verdict
  rate_limit-verdict none a r w' set ask = inl (refl, (ground arith, ground arith))
  rate_limit-verdict (some i) a (some e) w' set ask =
      let q = ask i in inr (inr (inr ((λ z. cc), (λ z. cc), (ground arith, ground arith))))
  rate_limit-verdict (some i) true none w' set ask =
      let q = ask i in inr (inl ((λ z. cc), refl, refl, (ground arith, ground arith)))
  rate_limit-verdict (some i) false none w' set ask =
      let q = ask i in inr (inr (inl ((λ z. cc), refl, refl, (ground arith, ground arith))))

module _ {G : Rpc} {A : Type 0} (sprintf : Rpc.Err G → String) (handler : UnaryHandler G A) where
  abbrev pub Validated :
      (World → Option (Rpc.Err G) × World) → Context G → World → World → Option (Rpc.Err G) → Type 0
  Validated validate ctx w w' r =
      (validation G sprintf none handler ctx w ≡ handler ctx w)
      × (((r ≡ none) × (validation G sprintf (some validate) handler ctx w ≡ handler ctx w'))
          ⊎ ((e x : Rpc.Err G) × (r ≡ some e)
              × (validation G sprintf (some validate) handler ctx w ≡ (done (none, some x), w'))
              × (Rpc.status_code G (some x) ≡ code_invalid_argument)))

  -- A request without `Validate` goes to the handler. One with it is validated once, before the
  -- handler: it goes on in the world that `Validate` leaves if that returns no error, and otherwise
  -- the caller gets no response and an error with the code InvalidArgument.
  pub validation_guards :
      (validate : World → Option (Rpc.Err G) × World) (ctx : Context G) (w w' : World)
      (r : Option (Rpc.Err G))
      → validate w ≡ (r, w')
      → Validated validate ctx w w' r
  unfolding validation
  validation_guards validate ctx w w' none e = (refl, inl (refl, ground arith))
  validation_guards validate ctx w w' (some err) e = (
    refl,
    inr (
      err,
      _,
      refl,
      ground arith,
      Rpc.status_code_error G code_invalid_argument (sprintf err) (λ z. omega (arith, z)),
    ),
  )
