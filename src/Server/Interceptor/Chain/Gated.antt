-- ===== src/Server/Interceptor/Chain/Gated.antt =====
-- `Auth` around `Validation` around `RateLimit`, and `StreamAuth` around `StreamRateLimit`, the
-- order of the example in internal/server/interceptor/doc.go. One configuration stands for the
-- snapshots that the interceptors of a call take.
use grpc_template.Common.{ℕ, ◌≡◌, ◌⊎◌, inl, inr, ◌∙◌, true, Option, none, some, String, Bytes}
use grpc_template.World.{World, Exit, done, panicked}
use grpc_template.Rpc.{Rpc, Context, code_invalid_argument}
use grpc_template.Server.Interceptor.Calls.{UnaryHandler, ServerStream, StreamHandler}
use grpc_template.Server.Interceptor.Config.{AuthFunc, Config, is_member}
use grpc_template.Server.Interceptor.Auth.{
  found, refused, unauthenticated, extract_bearer_token, auth, stream_auth,
}
use grpc_template.Server.Interceptor.Auth.Guard.{auth_decides}
use grpc_template.Server.Interceptor.Gates.{Allow, rate_limit, stream_rate_limit, validation}
use grpc_template.Server.Interceptor.Gates.Ends.{
  Validate, Valid, Invalid, Allowed, Limited, limits, validates,
}

module _ {G : Rpc} (allow_of : Allow G) (sprintf : Rpc.Err G → String) (cfg : Config G)
    (method : String) where
  -- `Auth` around `Validation` around `RateLimit`.
  abbrev pub gates : {A : Type 0} → Validate G → UnaryHandler G A → UnaryHandler G A
  gates validate handler =
      auth G cfg method (validation G sprintf validate (rate_limit G allow_of cfg handler))

  -- `StreamAuth` around `StreamRateLimit`.
  abbrev pub stream_gates : StreamHandler G → StreamHandler G
  stream_gates handler = stream_auth G cfg method (stream_rate_limit G allow_of cfg handler)

  -- The call is exempt, or the function has accepted its token.
  pub data Authenticated (ctx : Context G) (w : World) : Context G → World → Type 0 where
    excluded : is_member method cfg.excluded_methods ≡ true → Authenticated ctx w ctx w
    unset : cfg.auth_func ≡ none → Authenticated ctx w ctx w
    accepted :
        {ctx' : Context G} {w' : World} (fn : AuthFunc G) (token : Bytes)
        → cfg.auth_func ≡ some fn
        → extract_bearer_token G ctx ≡ found token
        → fn ctx token w ≡ (done (ctx', none), w')
        → Authenticated ctx w ctx' w'

  -- The call is stopped in front of the gate behind `Auth`.
  pub data Stopped (ctx : Context G) (w : World) : Exit (Option (Rpc.Err G)) → World → Type 0 where
    no_token :
        (m : String)
        → extract_bearer_token G ctx ≡ refused (unauthenticated G m)
        → Stopped ctx w (done (some (unauthenticated G m))) w
    fails :
        {w' : World} (fn : AuthFunc G) (token : Bytes) (c : Context G) (e : Rpc.Err G)
        → cfg.auth_func ≡ some fn
        → fn ctx token w ≡ (done (c, some e), w')
        → Stopped ctx w (done (some (unauthenticated G "authentication failed"))) w'
    panics :
        {w' : World} (fn : AuthFunc G) (token : Bytes) (v : String)
        → cfg.auth_func ≡ some fn
        → fn ctx token w ≡ (panicked v, w')
        → Stopped ctx w (panicked v) w'

  abbrev pub no_response :
      {A : Type 0} → Exit (Option (Rpc.Err G)) → Exit (Option A × Option (Rpc.Err G))
  no_response (done e) = done (none, e)
  no_response (panicked v) = panicked v

  module _ (n : ℕ) where
    abbrev pub on : Context G → ServerStream G
    on c = record { context = c; stream = n }

    -- Behind `StreamAuth`, a stream.
    abbrev pub StreamAdmitted :
        StreamHandler G → Context G → World → Exit (Option (Rpc.Err G)) × World → Type 0
    StreamAdmitted handler c v out =
        ((e : Rpc.Err G) × (w' : World) × Limited allow_of cfg c v e w'
          × (out ≡ (done (some e), w')))
        ⊎ ((w' : World) × Allowed allow_of cfg c v w' × (out ≡ handler (on c) w'))

    stream_admitted :
        (handler : StreamHandler G) (c : Context G) (v : World)
        → StreamAdmitted handler c v (stream_rate_limit G allow_of cfg handler (on c) v)
    stream_admitted handler c v =
        elim (limits allow_of cfg {A = ℕ} (λ s x. (done (none, none), x)) handler n c v) [
          | inl (w', passed, _, ran) ↦ inr (w', passed, ran)
          | inr (e, w', stopped, _, ran) ↦ inl (e, w', stopped, ran)
        ]

    module _ {A : Type 0} (ctx : Context G) (w : World) where
      -- What `Auth` and `StreamAuth` do.
      abbrev Authenticates : UnaryHandler G A → StreamHandler G → Type 0
      Authenticates handler stream_handler =
          ((r : Exit (Option (Rpc.Err G))) × (w' : World) × Stopped ctx w r w'
            × (auth G cfg method handler ctx w ≡ (no_response r, w'))
            × (stream_auth G cfg method stream_handler (on ctx) w ≡ (r, w')))
          ⊎ ((ctx' : Context G) × (w' : World) × Authenticated ctx w ctx' w'
              × (auth G cfg method handler ctx w ≡ handler ctx' w')
              × (stream_auth G cfg method stream_handler (on ctx) w ≡ stream_handler (on ctx') w'))

      authenticates :
          (handler : UnaryHandler G A) (stream_handler : StreamHandler G)
          → Authenticates handler stream_handler
      authenticates handler stream_handler =
          elim (auth_decides cfg method handler stream_handler ctx n w) [
            | inl (inl out, (ran, ran_on)) ↦ inr (ctx, w, excluded out, ran, ran_on)
            | inl (inr out, (ran, ran_on)) ↦ inr (ctx, w, unset out, ran, ran_on)
            | inr (fn, set, subject, inr (m, missing, (out, out_on))) ↦
                inl (_, w, no_token m missing, out, out_on)
            | inr
                  (
                    fn,
                    set,
                    subject,
                    inl (token, r, w', full, e, says, inl (c, ok, (ran, ran_on))),
                  ) ↦
                inr (c, w', accepted fn token set e (rw (← ok) says), ran, ran_on)
            | inr
                  (
                    fn,
                    set,
                    subject,
                    inl (token, r, w', full, e, says, inr (inl (c, err, ok, (out, out_on)))),
                  ) ↦
                inl (_, w', fails fn token c err set (rw (← ok) says), out, out_on)
            | inr
                  (
                    fn,
                    set,
                    subject,
                    inl (token, r, w', full, e, says, inr (inr (v, ok, (out, out_on)))),
                  ) ↦
                inl (_, w', panics fn token v set (rw (← ok) says), out, out_on)
          ]

      -- Behind `Auth`, a unary call with this `Validate`.
      abbrev pub Admitted :
          Validate G
          → UnaryHandler G A
          → Context G
          → World
          → Exit (Option A × Option (Rpc.Err G)) × World
          → Type 0
      Admitted validate handler c v out =
          ((e : Rpc.Err G) × (w' : World) × Invalid G v validate e w'
            × (out
                ≡ (done (none, some (Rpc.status_error G code_invalid_argument (sprintf e))), w')))
          ⊎ ((u : World) × Valid G v validate u
              × (((e : Rpc.Err G) × (w' : World) × Limited allow_of cfg c u e w'
                    × (out ≡ (done (none, some e), w')))
                  ⊎ ((w' : World) × Allowed allow_of cfg c u w' × (out ≡ handler c w'))))

      -- How a unary call and a stream come out of the gates.
      abbrev pub Gated :
          Validate G
          → UnaryHandler G A
          → StreamHandler G
          → Exit (Option A × Option (Rpc.Err G)) × World
          → Exit (Option (Rpc.Err G)) × World
          → Type 0
      Gated validate handler stream_handler out out_on =
          ((r : Exit (Option (Rpc.Err G))) × (w' : World) × Stopped ctx w r w'
            × (out ≡ (no_response r, w'))
            × (out_on ≡ (r, w')))
          ⊎ ((c : Context G) × (v : World) × Authenticated ctx w c v
              × Admitted validate handler c v out
              × StreamAdmitted stream_handler c v out_on)

      admitted :
          (validate : Validate G) (handler : UnaryHandler G A) (c : Context G) (v : World)
          → Admitted validate handler c v
              (validation G sprintf validate (rate_limit G allow_of cfg handler) c v)
      admitted validate handler c v =
          elim (validates sprintf (rate_limit G allow_of cfg handler) validate c v) [
            | inr (e, w', bad, out) ↦ inl (e, w', bad, out)
            | inl (u, good, out) ↦
                elim (limits allow_of cfg handler (λ s x. (done none, x)) n c u) [
                  | inl (w', passed, ran, _) ↦ inr (u, good, inr (w', passed, out ∙ ran))
                  | inr (e, w', stopped, ran, _) ↦ inr (u, good, inl (e, w', stopped, out ∙ ran))
                ]
          ]

      -- `Auth` around `Validation` around `RateLimit`, and `StreamAuth` around `StreamRateLimit`,
      -- end a call in one of these ways. It is stopped by `Auth`, with an error or a panic, in the world
      -- that the `AuthFunc` leaves or, without a token, in the one before: neither `Validate` nor the
      -- limiter is asked. Otherwise the method is excluded, no `AuthFunc` is set, or the function has
      -- accepted the token. Then a unary request that does not validate is an InvalidArgument, and the
      -- limiter is not asked; a call for which the limiter says no or fails is a ResourceExhausted or an
      -- Internal; and every other one goes to its handler, on the context that the function returned and
      -- about whose peer the limiter has been asked, if there is one.
      pub gates-Gated :
          (validate : Validate G) (handler : UnaryHandler G A) (stream_handler : StreamHandler G)
          → Gated validate handler stream_handler
              (gates validate handler ctx w)
              (stream_gates stream_handler (on ctx) w)
      gates-Gated validate handler stream_handler =
          elim (authenticates (validation G sprintf validate (rate_limit G allow_of cfg handler))
            (stream_rate_limit G allow_of cfg stream_handler)) [
              | inl (r, w', stopped, out, out_on) ↦ inl (r, w', stopped, out, out_on)
              | inr (c, v, seen, ran, ran_on) ↦ inr (
                c,
                v,
                seen,
                rw ran (admitted validate handler c v),
                rw ran_on (stream_admitted stream_handler c v),
              )
            ]
