-- ===== src/Client/Options/Transport.antt =====
-- Which transport a client dials with.
use grpc_template.Common.{
  ℕ, ℤ, ◌≡◌, refl, ap, ◌∙◌, ◌⊎◌, inl, inr, true, false, Option, none, some, List, [], ◌∷◌, ◌++◌,
  String, str_eq, arith, All,
}
use grpc_template.World.{World}
use grpc_template.Rpc.{Rpc}
use grpc_template.Client.Interceptor.Config as Interceptor
use grpc_template.Client.Options.{
  Env, TlsConfig, DialOption, tls_transport, insecure_transport, chain_unary, chain_stream,
  keepalive, max_msg_size, service_config, raw, chained, Client, Build, ClientOption, with_tls,
  ca_pool, with_logger, with_unary_interceptors, with_stream_interceptors, with_keepalive,
  with_max_msg_size, with_dial_options, with_health_watch, with_default_timeout, with_retry,
  with_retry_codes, with_token_source, with_load_balancing, apply_options, transport,
  build_dial_opts,
}

module _ {G : Rpc} {E : Env G} where
  -- The transport that `grpc.NewClient` takes of its options: the last one.
  abbrev pub effective : List (DialOption G E) → Option (DialOption G E)
  effective [] = none
  effective (tls_transport t ∷ os) = elim (effective os) [
    | none ↦ some (tls_transport t)
    | some u ↦ some u
  ]
  effective (insecure_transport ∷ os) = elim (effective os) [
    | none ↦ some insecure_transport
    | some u ↦ some u
  ]
  effective (chain_unary is ∷ os) = effective os
  effective (chain_stream is ∷ os) = effective os
  effective (keepalive n ∷ os) = effective os
  effective (max_msg_size n ∷ os) = effective os
  effective (service_config j ∷ os) = effective os
  effective (raw n ∷ os) = effective os

  effective_append :
      (xs ys : List (DialOption G E))
      → effective xs ≡ none
      → effective ys ≡ none
      → effective (xs ++ ys) ≡ none
  effective_append [] ys e f = f
  effective_append (tls_transport t ∷ xs) ys e f = ground arith
  effective_append (insecure_transport ∷ xs) ys e f = ground arith
  effective_append (chain_unary is ∷ xs) ys e f = effective_append xs ys e f
  effective_append (chain_stream is ∷ xs) ys e f = effective_append xs ys e f
  effective_append (keepalive n ∷ xs) ys e f = effective_append xs ys e f
  effective_append (max_msg_size n ∷ xs) ys e f = effective_append xs ys e f
  effective_append (service_config j ∷ xs) ys e f = effective_append xs ys e f
  effective_append (raw n ∷ xs) ys e f = effective_append xs ys e f

  unary-effective :
      (is : List ℕ) (os : List (DialOption G E))
      → effective (chained G E chain_unary is ++ os) ≡ effective os
  unary-effective [] os = refl
  unary-effective (i ∷ is) os = refl

  stream-effective :
      (is : List ℕ) (os : List (DialOption G E))
      → effective (chained G E chain_stream is ++ os) ≡ effective os
  stream-effective [] os = refl
  stream-effective (i ∷ is) os = refl

  -- The dial options behind the transport.
  abbrev rest : Client G E → List (DialOption G E)
  rest c =
      chained G E chain_unary c.unary_interceptors
      ++ (chained G E chain_stream c.stream_interceptors ++ c.dial_opts)

  rest-effective : (c : Client G E) → effective (rest c) ≡ effective c.dial_opts
  rest-effective c =
      unary-effective c.unary_interceptors _ ∙ stream-effective c.stream_interceptors c.dial_opts

  first-effective :
      (o : DialOption G E) (os : List (DialOption G E))
      → effective (o ∷ []) ≡ some o
      → effective os ≡ none
      → effective (o ∷ os) ≡ some o
  first-effective (tls_transport t) os e alone = ground arith
  first-effective insecure_transport os e alone = ground arith
  first-effective (chain_unary is) os e alone = absurd cc
  first-effective (chain_stream is) os e alone = absurd cc
  first-effective (keepalive n) os e alone = absurd cc
  first-effective (max_msg_size n) os e alone = absurd cc
  first-effective (service_config j) os e alone = absurd cc
  first-effective (raw n) os e alone = absurd cc

  -- The options that leave the transport alone: all but `WithInsecure`, `WithTLS`, `WithMutualTLS`,
  -- `WithLoadBalancing`, and a `WithDialOptions` that has transport credentials among its options.
  pub data Quiet : ClientOption G E → Type 0 where
    logger : (l : Option ℕ) → Quiet (with_logger G E l)
    unary : (is : List ℕ) → Quiet (with_unary_interceptors G E is)
    streams : (is : List ℕ) → Quiet (with_stream_interceptors G E is)
    alive : (n : ℕ) → Quiet (with_keepalive G E n)
    sized : (n : ℤ) → Quiet (with_max_msg_size G E n)
    dialed : (os : List (DialOption G E)) → effective os ≡ none → Quiet (with_dial_options G E os)
    watched : Quiet (with_health_watch G E)
    timed : (d : ℤ) → Quiet (with_default_timeout G E d)
    retried : (n d : ℤ) → Quiet (with_retry G E n d)
    coded : (cs : List ℕ) → Quiet (with_retry_codes G E cs)
    tokened : (fn : Option (Interceptor.TokenSource G)) → Quiet (with_token_source G E fn)

  -- The part of the client that decides about the transport is the same.
  abbrev pub Same : Client G E → Client G E → Type 0
  Same c d =
      (c.tls_config ≡ d.tls_config)
      × (c.config_err ≡ d.config_err)
      × (effective d.dial_opts ≡ none → effective c.dial_opts ≡ none)

  quiet-Same :
      (o : ClientOption G E) (w : World) (b : Build G E) → Quiet o → Same (o w b).client b.client
  unfolding with_logger with_unary_interceptors with_stream_interceptors with_keepalive
      with_max_msg_size with_dial_options with_health_watch with_default_timeout with_retry
      with_retry_codes with_token_source
  quiet-Same o w b (logger l) = (refl, refl, λ e. e)
  quiet-Same o w b (unary is) = (refl, refl, λ e. e)
  quiet-Same o w b (streams is) = (refl, refl, λ e. e)
  quiet-Same o w b (alive n) = (refl, refl, λ e. effective_append b.client.dial_opts _ e refl)
  quiet-Same o w b (sized n) = (refl, refl, λ e. effective_append b.client.dial_opts _ e refl)
  quiet-Same o w b (dialed os q) = (refl, refl, λ e. effective_append b.client.dial_opts os e q)
  quiet-Same o w b watched = (refl, refl, λ e. e)
  quiet-Same o w b (timed d) = (refl, refl, λ e. e)
  quiet-Same o w b (retried n d) = (refl, refl, λ e. e)
  quiet-Same o w b (coded cs) = (refl, refl, λ e. e)
  quiet-Same o w b (tokened fn) = (refl, refl, λ e. e)

  apply_options-Same :
      (os : List (ClientOption G E)) (w : World) (b : Build G E)
      → All Quiet os
      → Same (apply_options G E os w b).client b.client
  unfolding apply_options
  apply_options-Same [] w b h = (refl, refl, λ e. e)
  apply_options-Same (o ∷ os) w b (q, h) =
      let (t, e, f) = quiet-Same o w b q in
      let (t', e', f') = apply_options-Same os w (o w b) h in (t' ∙ t, e' ∙ e, λ x. f' (f x))

  pub build_dial_opts-effective :
      (c : Client G E) (w : World) (o : DialOption G E)
      → (transport G E c w).0 ≡ o
      → effective (o ∷ []) ≡ some o
      → effective c.dial_opts ≡ none
      → effective (build_dial_opts G E c w).0 ≡ some o
  unfolding build_dial_opts
  build_dial_opts-effective c w o h one alone =
      ap (λ x. effective (x ∷ rest c)) h ∙ first-effective o (rest c) one (rest-effective c ∙ alone)

  transport-TlsConfig :
      (c : Client G E) (w : World) (t : TlsConfig G E)
      → c.tls_config ≡ some t
      → (transport G E c w).0 ≡ tls_transport t
  unfolding transport
  transport-TlsConfig c w t h = ground arith

  transport_insecure :
      (c : Client G E) (w : World)
      → c.tls_config ≡ none
      → (transport G E c w).0 ≡ insecure_transport
  unfolding transport
  transport_insecure c w h = ground arith

  module _ (file : String) (os : List (ClientOption G E)) (w v : World) (b : Build G E)
      (h : All Quiet os) (alone : effective b.client.dial_opts ≡ none) where
    abbrev pub after : Client G E
    after = (apply_options G E (with_tls G E file ∷ os) w b).client

    -- The client dials with the CAs of this pool, or it has the error of the file.
    abbrev pub Loaded : Env.Pool E ⊎ Rpc.Err G → Type 0
    Loaded o =
        ((pool : Env.Pool E) × (o ≡ inl pool)
          × (after.config_err ≡ none)
          × (effective (build_dial_opts G E after v).0
              ≡ some (tls_transport (record { certificates = []; root_cas = pool }))))
        ⊎ ((e : Rpc.Err G) × (o ≡ inr e) × (after.config_err ≡ some e) × (after.tls_config ≡ none))

    after-Same : Same after (with_tls G E file w b).client
    unfolding apply_options
    after-Same = apply_options-Same os w (with_tls G E file w b) h

    loaded : (o : Env.Pool E ⊎ Rpc.Err G) → ca_pool G E file ≡ o → Loaded o
    unfolding with_tls
    loaded (inl pool) e =
        let (t, err, keeps) = after-Same in
        let set : (with_tls G E file w b).client.tls_config
            ≡ some (record { certificates = []; root_cas = pool }) =
          ground arith in
        let clear : (with_tls G E file w b).client.config_err ≡ none = ground arith in
        inl (
          pool,
          refl,
          err ∙ clear,
          build_dial_opts-effective after v _ (transport-TlsConfig after v _ (t ∙ set)) refl
              (keeps (ground arith)),
        )
    loaded (inr x) e =
        let (t, err, _) = after-Same in
        let set : (with_tls G E file w b).client.tls_config ≡ none = ground arith in
        let failed : (with_tls G E file w b).client.config_err ≡ some x = ground arith in
        inr (x, refl, err ∙ failed, t ∙ set)

    -- On a client without transport credentials among its dial options, after `WithTLS` and options
    -- that leave the transport alone, the client is one of two: the CA file could be used, there is
    -- no configuration error, and the last transport among the dial options is TLS with the pool of
    -- that file; or the client has the error of the file as its configuration error, and no TLS
    -- configuration. No other transport option and no `WithLoadBalancing` follows.
    pub with_tls-transport : Loaded (ca_pool G E file)
    with_tls-transport = loaded (ca_pool G E file) refl

  -- An error of `WithTLS` does not survive a `WithLoadBalancing` with a registered policy, on any
  -- client without transport credentials among its dial options: behind `WithTLS` with a CA file that
  -- cannot be used the client has the error of the file; behind `WithTLS` and `WithLoadBalancing` it
  -- has no configuration error any more, and it dials without TLS.
  pub with_load_balancing-transport :
      (file policy : String) (w v : World) (b : Build G E) (e : Rpc.Err G)
      → ca_pool G E file ≡ inr e
      → effective b.client.dial_opts ≡ none
      → str_eq policy "" ≡ false
      → Env.balancer_registered E policy ≡ true
      → let failed = (apply_options G E (with_tls G E file ∷ []) w b).client in
        let c =
          (apply_options G E
            (with_tls G E file ∷ with_load_balancing G E policy ∷ [])
            w
            b).client in
        (failed.config_err ≡ some e)
        × (c.config_err ≡ none)
        × (effective (build_dial_opts G E c v).0 ≡ some insecure_transport)
  unfolding apply_options with_tls with_load_balancing
  with_load_balancing-transport file policy w v b e bad alone named found =
      let c =
        (apply_options G E (with_tls G E file ∷ with_load_balancing G E policy ∷ []) w b).client in
      let keeps : effective c.dial_opts ≡ none =
        rw (bad, named, found, with_tls, with_load_balancing)
          (effective_append b.client.dial_opts _ alone refl) in
      (
        ground arith,
        ground arith,
        build_dial_opts-effective c v _ (transport_insecure c v (ground arith)) refl keeps,
      )
