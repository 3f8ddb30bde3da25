-- ===== src/Server/Interceptor/Gates/Ends.antt =====
-- How `RateLimit`, `StreamRateLimit` and `Validation` end, by what the limiter and `Validate` say.
use grpc_template.Common.{
  ℕ, ◌≡◌, refl, ◌⊎◌, inl, inr, Bool, true, false, Option, none, some, String, arith, Option-cases,
}
use grpc_template.World.{World, done}
use grpc_template.Rpc.{Rpc, Context, code_internal, code_resource_exhausted, code_invalid_argument}
use grpc_template.Server.Interceptor.Calls.{UnaryHandler, StreamHandler}
use grpc_template.Server.Interceptor.Config.{Config, Limiter}
use grpc_template.Server.Interceptor.PeerKey.{peer_key}
use grpc_template.Server.Interceptor.Gates.{
  Allow, verdict, check_limit, rate_limit, stream_rate_limit, validation,
}

abbrev pub Validate : Rpc → Type 0
Validate G = Option (World → Option (Rpc.Err G) × World)

module _ (G : Rpc) where
  -- The request has no `Validate`, or that returns no error.
  pub data Valid (w : World) : Validate G → World → Type 0 where
    not_checked : Valid w none w
    checked :
        {w' : World} (v : World → Option (Rpc.Err G) × World)
        → v w ≡ (none, w')
        → Valid w (some v) w'

  -- It has one, which returns the error.
  pub data Invalid (w : World) : Validate G → Rpc.Err G → World → Type 0 where
    rejects :
        {w' : World} (v : World → Option (Rpc.Err G) × World) (e : Rpc.Err G)
        → v w ≡ (some e, w')
        → Invalid w (some v) e w'

module _ {G : Rpc} (allow_of : Allow G) (cfg : Config G) where
  -- There is no limiter, or it says yes.
  pub data Allowed (ctx : Context G) (w : World) : World → Type 0 where
    unlimited : cfg.rate_limiter ≡ none → Allowed ctx w w
    allowed :
        {w' : World} (l : Limiter)
        → cfg.rate_limiter ≡ some l
        → allow_of l ctx (peer_key G ctx cfg.trust_proxy) w ≡ ((true, none), w')
        → Allowed ctx w w'

  -- The limiter says no, or fails.
  pub data Limited (ctx : Context G) (w : World) : Rpc.Err G → World → Type 0 where
    exhausted :
        {w' : World} (l : Limiter)
        → cfg.rate_limiter ≡ some l
        → allow_of l ctx (peer_key G ctx cfg.trust_proxy) w ≡ ((false, none), w')
        → Limited ctx w (Rpc.status_error G code_resource_exhausted "rate limit exceeded") w'
    limiter_fails :
        {w' : World} (l : Limiter) (a : Bool) (e : Rpc.Err G)
        → cfg.rate_limiter ≡ some l
        → allow_of l ctx (peer_key G ctx cfg.trust_proxy) w ≡ ((a, some e), w')
        → Limited ctx w (Rpc.status_error G code_internal "rate limiter internal error") w'

  -- What `RateLimit` does.
  abbrev pub Limits :
      {A : Type 0} → UnaryHandler G A → StreamHandler G → ℕ → Context G → World → Type 0
  Limits handler stream_handler n ctx w =
      ((w' : World) × Allowed ctx w w'
        × (rate_limit G allow_of cfg handler ctx w ≡ handler ctx w')
        × (stream_rate_limit G allow_of cfg stream_handler (record { context = ctx; stream = n }) w
            ≡ stream_handler (record { context = ctx; stream = n }) w'))
      ⊎ ((e : Rpc.Err G) × (w' : World) × Limited ctx w e w'
          × (rate_limit G allow_of cfg handler ctx w ≡ (done (none, some e), w'))
          × (stream_rate_limit G allow_of cfg stream_handler (record { context = ctx; stream = n })
                w
              ≡ (done (some e), w')))

  asked :
      {A : Type 0} (handler : UnaryHandler G A) (stream_handler : StreamHandler G) (n : ℕ)
      (ctx : Context G) (w : World) (l : Limiter) (answer : Bool × Option (Rpc.Err G)) (w' : World)
      → cfg.rate_limiter ≡ some l
      → allow_of l ctx (peer_key G ctx cfg.trust_proxy) w ≡ (answer, w')
      → Limits handler stream_handler n ctx w
  unfolding rate_limit stream_rate_limit check_limit verdict
  asked handler stream_handler n ctx w l (true, none) w' set e =
      inl (w', allowed l set e, ground arith, ground arith)
  asked handler stream_handler n ctx w l (false, none) w' set e =
      inr (_, w', exhausted l set e, ground arith, ground arith)
  asked handler stream_handler n ctx w l (a, some err) w' set e =
      inr (_, w', limiter_fails l a err set e, ground arith, ground arith)

  pub limits :
      {A : Type 0} (handler : UnaryHandler G A) (stream_handler : StreamHandler G) (n : ℕ)
      (ctx : Context G) (w : World)
      → Limits handler stream_handler n ctx w
  unfolding rate_limit stream_rate_limit check_limit
  limits handler stream_handler n ctx w = elim (Option-cases cfg.rate_limiter) [
    | inl none_set ↦ inl (w, unlimited none_set, ground arith, ground arith)
    | inr (l, set) ↦ asked handler stream_handler n ctx w l _ _ set refl
  ]

module _ {G : Rpc} {A : Type 0} (sprintf : Rpc.Err G → String) (handler : UnaryHandler G A) where
  -- What `Validation` does.
  abbrev pub Validates : Validate G → Context G → World → Type 0
  Validates validate ctx w =
      ((w' : World) × Valid G w validate w'
        × (validation G sprintf validate handler ctx w ≡ handler ctx w'))
      ⊎ ((e : Rpc.Err G) × (w' : World) × Invalid G w validate e w'
          × (validation G sprintf validate handler ctx w
              ≡ (done (none, some (Rpc.status_error G code_invalid_argument (sprintf e))), w')))

  validated :
      (v : World → Option (Rpc.Err G) × World) (ctx : Context G) (w w' : World)
      (o : Option (Rpc.Err G))
      → v w ≡ (o, w')
      → Validates (some v) ctx w
  unfolding validation
  validated v ctx w w' none e = inl (w', checked v e, ground arith)
  validated v ctx w w' (some err) e = inr (err, w', rejects v err e, ground arith)

  pub validates : (validate : Validate G) (ctx : Context G) (w : World) → Validates validate ctx w
  unfolding validation
  validates none ctx w = inl (w, not_checked, refl)
  validates (some v) ctx w = validated v ctx w _ _ refl
