-- ===== src/Client/Interceptor/Auth/Laws.antt =====
-- What `Auth` and `StreamAuth` send, and what a failing token source shows to the caller.
use grpc_template.Common.{
  ℕ, ◌≡◌, refl, ap, ◌∙◌, ◌≢◌, ◌⊎◌, Option, none, some, [], ◌∷◌, ◌++◌, String, Bytes, codes, arith,
}
use grpc_template.World.{World}
use grpc_template.Logging.{resolve}
use grpc_template.Rpc.{Rpc, Context}
use grpc_template.Client.Interceptor.Config.{TokenSource, Config}
use grpc_template.Client.Interceptor.Auth.{
  auth_failed, outgoing_md, attach_token, token_result, inject_token, auth, stream_auth,
}

module _ {G : Rpc} where
  -- `sent` is `ctx` with the token in its outgoing metadata, every other key kept.
  abbrev pub Carries : Bytes → Context G → Context G → Type 0
  Carries token ctx sent =
      (md : Rpc.Md G) × (sent ≡ record ctx { outgoing = some md })
      × (Rpc.md_get G md "authorization" ≡ (codes "Bearer " ++ token) ∷ [])
      × ((k : String)
          → Rpc.lower G k ≢ Rpc.lower G "authorization"
          → Rpc.md_get G md k ≡ Rpc.md_get G (outgoing_md G ctx.outgoing) k)

  attach_token-Carries :
      (ctx : Context G) (b : ℕ) (bs : Bytes)
      → (sent : Context G) × Carries (b ∷ bs) ctx sent
        × (attach_token G ctx (some (b ∷ bs)) ≡ (sent, none))
  unfolding attach_token
  attach_token-Carries ctx b bs =
      let md =
        Rpc.md_set G (outgoing_md G ctx.outgoing) "authorization"
          ((codes "Bearer " ++ (b ∷ bs)) ∷ []) in
      (
        record ctx { outgoing = some md },
        (md, refl, Rpc.md_get_set G _ _ _ _, λ k h. Rpc.md_get_set_ne G _ _ _ _ h),
        refl,
      )

  token_result-refused :
      (l : ℕ) (ctx : Context G) (r : Option (Rpc.Err G)) (w : World)
      → (r ≢ none) ⊎ (ctx.token ≡ none) ⊎ (ctx.token ≡ some [])
      → (token_result G l ctx r w).0 ≡ (ctx, some (auth_failed G))
  unfolding token_result attach_token
  token_result-refused l ctx r w h = ground arith

  token_result_silent :
      (l : ℕ) (ctx : Context G) (r : Option (Rpc.Err G)) (w : World)
      → r ≡ none
      → (token_result G l ctx r w).1 ≡ w
  unfolding token_result
  token_result_silent l ctx r w h = ground arith

module _ {G : Rpc} (cfg : Config G) (src : TokenSource G) (ctx found : Context G) (w w' : World)
    (set : cfg.token_source ≡ some src) where
  injected :
      (l : ℕ) (r : Option (Rpc.Err G))
      → src ctx w ≡ ((found, r), w')
      → inject_token G ctx cfg.token_source l w ≡ token_result G l found r w'
  unfolding inject_token
  injected l r e = rw (set, e)

  injected_token :
      (l b : ℕ) (bs : Bytes)
      → src ctx w ≡ ((found, none), w')
      → found.token ≡ some (b ∷ bs)
      → inject_token G ctx cfg.token_source l w ≡ (attach_token G found (some (b ∷ bs)), w')
  unfolding token_result
  injected_token l b bs e t = injected l none e ∙ ap (λ o. (attach_token G found o, w')) t

  -- With a token source that yields a token that is not empty, `Auth` and `StreamAuth` run the rest
  -- of the chain on the source's context with "authorization: Bearer <token>" as the only value of
  -- that key and the other outgoing metadata unchanged, and return what it returns.
  pub auth_sends :
      {S : Type 0} (b : ℕ) (bs : Bytes) (invoker : Context G → World → Option (Rpc.Err G) × World)
      (streamer : Context G → World → (Option S × Option (Rpc.Err G)) × World)
      → src ctx w ≡ ((found, none), w')
      → found.token ≡ some (b ∷ bs)
      → (sent : Context G) × Carries (b ∷ bs) found sent
        × (auth G cfg invoker ctx w ≡ invoker sent w')
        × (stream_auth G cfg streamer ctx w ≡ streamer sent w')
  unfolding auth stream_auth
  auth_sends b bs invoker streamer e t =
      let (sent, carries, attached) = attach_token-Carries found b bs in
      let sends = λ (l : ℕ).
        injected_token l b bs e t ∙ ap (λ (p : Context G × Option (Rpc.Err G)). (p, w')) attached in
      (
        sent,
        carries,
        ground (arith, sends (resolve cfg.logger w)),
        ground (arith, sends (resolve cfg.logger w)),
      )

  -- Where the source fails with any error, or yields no token or an empty one, `Auth` and
  -- `StreamAuth` return the same generic error and no stream, without running the rest of the chain.
  pub auth_refuses :
      {S : Type 0} (r : Option (Rpc.Err G))
      (invoker : Context G → World → Option (Rpc.Err G) × World)
      (streamer : Context G → World → (Option S × Option (Rpc.Err G)) × World)
      → src ctx w ≡ ((found, r), w')
      → (r ≢ none) ⊎ (found.token ≡ none) ⊎ (found.token ≡ some [])
      → (v : World) × (auth G cfg invoker ctx w ≡ (some (auth_failed G), v))
        × (stream_auth G cfg streamer ctx w ≡ ((none, some (auth_failed G)), v))
        × ((r ≡ none) → v ≡ w')
  unfolding auth stream_auth
  auth_refuses r invoker streamer e h =
      let fails = token_result-refused {G = G} (resolve cfg.logger w) found r w' h in
      let got = injected (resolve cfg.logger w) r e in
      (
        (token_result G (resolve cfg.logger w) found r w').1,
        ground arith,
        ground arith,
        token_result_silent {G = G} (resolve cfg.logger w) found r w',
      )
