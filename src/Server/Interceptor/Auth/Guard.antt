-- ===== src/Server/Interceptor/Auth/Guard.antt =====
-- Auth and StreamAuth (auth.go): the ends of a call that is subject to authentication.
use grpc_template.Common.{
  List-cases, Option-cases, Bool-cases, ℕ, ◌≡◌, refl, ◌≢◌, ◌⊎◌, inl, inr, true, false, Option, none,
  some, List, [], ◌∷◌, String, Bytes, arith,
}
use grpc_template.World.{World, Exit, done, panicked}
use grpc_template.Rpc.{Rpc, Context}
use grpc_template.Server.Interceptor.Calls.{UnaryHandler, ServerStream, StreamHandler, wrap}
use grpc_template.Server.Interceptor.Config.{AuthFunc, Config, is_member}
use grpc_template.Server.Interceptor.Auth.{
  found, refused, unauthenticated, strip_bearer, header_token, extract_bearer_token, auth_result,
  authenticate_context, proceed, proceed_stream, auth, stream_auth,
}

module _ {G : Rpc} where
  header_token_cases :
      (vs : List Bytes)
      → ((token : Bytes) × (token ≢ []) × (header_token G vs ≡ found token))
        ⊎ ((m : String) × (header_token G vs ≡ refused (unauthenticated G m)))
  unfolding header_token
  header_token_cases [] = inr (_, refl)
  header_token_cases ([] ∷ vs) = inr (_, refl)
  header_token_cases ((b ∷ bs) ∷ vs) = elim (List-cases (strip_bearer (b ∷ bs))) [
    | inl e ↦ inr ("empty bearer token", rw e)
    | inr (t, ts, e) ↦ inl (t ∷ ts, (λ z. cc), rw e)
  ]

  token_cases :
      (ctx : Context G) (o : Option (Rpc.Md G))
      → ctx.incoming ≡ o
      → ((token : Bytes) × (token ≢ []) × (extract_bearer_token G ctx ≡ found token))
        ⊎ ((m : String) × (extract_bearer_token G ctx ≡ refused (unauthenticated G m)))
  unfolding extract_bearer_token
  token_cases ctx none e = inr ("missing metadata", rw e)
  token_cases ctx (some md) e = elim (header_token_cases (Rpc.md_get G md "authorization")) [
    | inl (token, full, h) ↦ inl (token, full, rw (e, h))
    | inr (m, h) ↦ inr (m, rw (e, h))
  ]

  -- The two interceptors run their handlers on this context, or return this error and no response.
  module _ {A : Type 0} (cfg : Config G) (method : String) (handler : UnaryHandler G A)
      (stream_handler : StreamHandler G) (ctx : Context G) (n : ℕ) (w : World) where
    abbrev ss : ServerStream G
    ss = record { context = ctx; stream = n }

    abbrev pub Admits : Context G → World → Type 0
    Admits ctx' w' =
        (auth G cfg method handler ctx w ≡ handler ctx' w')
        × (stream_auth G cfg method stream_handler ss w
            ≡ stream_handler (record { context = ctx'; stream = n }) w')

    abbrev pub Refuses : String → World → Type 0
    Refuses m w' =
        (auth G cfg method handler ctx w ≡ (done (none, some (unauthenticated G m)), w'))
        × (stream_auth G cfg method stream_handler ss w ≡ (done (some (unauthenticated G m)), w'))

    abbrev pub Unwinds : String → World → Type 0
    Unwinds v w' =
        (auth G cfg method handler ctx w ≡ (panicked v, w'))
        × (stream_auth G cfg method stream_handler ss w ≡ (panicked v, w'))

    -- A method that is excluded, or any method while no `AuthFunc` is set, reaches its handler with
    -- the context and the stream it came with.
    pub auth_exempt :
        (is_member method cfg.excluded_methods ≡ true) ⊎ (cfg.auth_func ≡ none) → Admits ctx w
    unfolding auth stream_auth
    auth_exempt h = (ground arith, ground arith)

    module _ (fn : AuthFunc G) (set : cfg.auth_func ≡ some fn)
        (subject : is_member method cfg.excluded_methods ≡ false) where
      answered :
          (token : Bytes) (r : Exit (Context G × Option (Rpc.Err G))) (w' : World)
          → extract_bearer_token G ctx ≡ found token
          → fn ctx token w ≡ (r, w')
          → ((ctx' : Context G) × (r ≡ done (ctx', none)) × Admits ctx' w')
            ⊎ ((c : Context G) × (e : Rpc.Err G) × (r ≡ done (c, some e))
                × Refuses "authentication failed" w')
            ⊎ ((v : String) × (r ≡ panicked v) × Unwinds v w')
      unfolding auth stream_auth authenticate_context proceed proceed_stream wrap auth_result
      answered token (done (ctx', none)) w' e f = inl (ctx', refl, (ground arith, ground arith))
      answered token (done (c, some err)) w' e f =
          inr (inl (c, err, refl, (ground arith, ground arith)))
      answered token (panicked v) w' e f = inr (inr (v, refl, (ground arith, ground arith)))

      turned_away :
          (m : String) → extract_bearer_token G ctx ≡ refused (unauthenticated G m) → Refuses m w
      unfolding auth stream_auth authenticate_context proceed proceed_stream
      turned_away m e = (ground arith, ground arith)

      abbrev pub Guarded : Type 0
      Guarded =
          ((token : Bytes) × (r : Exit (Context G × Option (Rpc.Err G))) × (w' : World) × (token
              ≢ [])
            × (extract_bearer_token G ctx ≡ found token)
            × (fn ctx token w ≡ (r, w'))
            × (((ctx' : Context G) × (r ≡ done (ctx', none)) × Admits ctx' w')
                ⊎ ((c : Context G) × (e : Rpc.Err G) × (r ≡ done (c, some e))
                    × Refuses "authentication failed" w')
                ⊎ ((v : String) × (r ≡ panicked v) × Unwinds v w')))
          ⊎ ((m : String) × (extract_bearer_token G ctx ≡ refused (unauthenticated G m))
              × Refuses m w)

      -- With an `AuthFunc` set, a method that is not excluded comes to one of these ends, the same
      -- for `Auth` and `StreamAuth`. The function accepts the token, which is not empty, and the
      -- handler runs on its context. Or it fails with whatever error, and the caller gets
      -- "authentication failed"; or it panics; or there is no token, and the caller gets an error
      -- while the world is as before. Every error has the code Unauthenticated.
      pub auth_guard : Guarded
      auth_guard = elim (token_cases ctx ctx.incoming refl) [
        | inl (token, full, e) ↦ inl (
          token,
          (fn ctx token w).0,
          (fn ctx token w).1,
          full,
          e,
          refl,
          answered token _ _ e refl,
        )
        | inr (m, e) ↦ inr (m, e, turned_away m e)
      ]

    -- How a call ends: it is exempt, or it is subject to `fn` and ends as `Guarded` says.
    abbrev pub Decided : Type 0
    Decided =
        (((is_member method cfg.excluded_methods ≡ true) ⊎ (cfg.auth_func ≡ none)) × Admits ctx w)
        ⊎ ((fn : AuthFunc G) × (set : cfg.auth_func ≡ some fn) × (subject : is_member method
                cfg.excluded_methods
              ≡ false)
            × Guarded fn set subject)

    -- Every call comes to one of these ends, the same for `Auth` and `StreamAuth`. The method is
    -- excluded or no `AuthFunc` is set, and the handler runs on the context, the stream and the world
    -- that came. Otherwise: the function accepts the token, which is not empty, and the handler runs
    -- on its context; or it fails with whatever error, and the caller gets "authentication failed"; or
    -- it panics; or there is no token, and the caller gets an error while the world is as before.
    -- Every error has the code Unauthenticated.
    pub auth_decides : Decided
    auth_decides = elim (Bool-cases (is_member method cfg.excluded_methods)) [
      | inl excluded ↦ inl (inl excluded, auth_exempt (inl excluded))
      | inr subject ↦ elim (Option-cases cfg.auth_func) [
        | inl unset ↦ inl (inr unset, auth_exempt (inr unset))
        | inr (fn, set) ↦ inr (fn, set, subject, auth_guard fn set subject)
      ]
    ]
