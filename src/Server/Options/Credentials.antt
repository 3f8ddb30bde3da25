-- ===== src/Server/Options/Credentials.antt =====
-- Which credentials a server serves with.
use grpc_template.Common.{
  ℕ, ℤ, ◌≡◌, refl, ap, ◌∙◌, ◌⊎◌, inl, inr, Bool, true, false, Option, none, some, List, [], ◌∷◌,
  ◌++◌, String, str_eq, arith, All,
}
use grpc_template.World.{World}
use grpc_template.Rpc.{Rpc}
use grpc_template.Server.Interceptor.RateLimit.{Rate}
use grpc_template.Server.Interceptor.Config as Interceptor
use grpc_template.Server.Options.{
  Env, TlsConfig, GrpcOption, creds, chain_unary, chain_stream, keepalive_params, keepalive_policy,
  max_recv_msg_size, max_send_msg_size, max_concurrent_streams, raw, chained, other_options, Server,
  build_options, Build, ServerOption, with_port, with_reflection, with_tls, with_mutual_tls,
  ca_pool, with_unary_interceptors, with_stream_interceptors, with_keepalive, with_max_msg_size,
  with_max_concurrent_streams, with_grpc_options, with_listener, with_logger, with_auth_func,
  with_excluded_methods, with_demoted_methods, with_rate_limit, with_rate_limiter, with_trust_proxy,
  with_default_service_config, apply_options,
}

module _ {G : Rpc} {E : Env G} where
  -- The credentials that a `grpc.Server` has of its options: those of the last `grpc.Creds`.
  abbrev pub effective : List (GrpcOption G E) → Option (TlsConfig G E)
  effective [] = none
  effective (creds t ∷ os) = elim (effective os) [ none ↦ some t | some u ↦ some u ]
  effective (chain_unary is ∷ os) = effective os
  effective (chain_stream is ∷ os) = effective os
  effective (keepalive_params n ∷ os) = effective os
  effective (keepalive_policy n ∷ os) = effective os
  effective (max_recv_msg_size n ∷ os) = effective os
  effective (max_send_msg_size n ∷ os) = effective os
  effective (max_concurrent_streams n ∷ os) = effective os
  effective (raw n ∷ os) = effective os

  effective_append :
      (xs ys : List (GrpcOption G E))
      → effective xs ≡ none
      → effective ys ≡ none
      → effective (xs ++ ys) ≡ none
  effective_append [] ys e f = f
  effective_append (creds t ∷ xs) ys e f = ground arith
  effective_append (chain_unary is ∷ xs) ys e f = effective_append xs ys e f
  effective_append (chain_stream is ∷ xs) ys e f = effective_append xs ys e f
  effective_append (keepalive_params n ∷ xs) ys e f = effective_append xs ys e f
  effective_append (keepalive_policy n ∷ xs) ys e f = effective_append xs ys e f
  effective_append (max_recv_msg_size n ∷ xs) ys e f = effective_append xs ys e f
  effective_append (max_send_msg_size n ∷ xs) ys e f = effective_append xs ys e f
  effective_append (max_concurrent_streams n ∷ xs) ys e f = effective_append xs ys e f
  effective_append (raw n ∷ xs) ys e f = effective_append xs ys e f

  unary-effective :
      (is : List ℕ) (os : List (GrpcOption G E))
      → effective (chained G E chain_unary is ++ os) ≡ effective os
  unary-effective [] os = refl
  unary-effective (i ∷ is) os = refl

  stream-effective :
      (is : List ℕ) (os : List (GrpcOption G E))
      → effective (chained G E chain_stream is ++ os) ≡ effective os
  stream-effective [] os = refl
  stream-effective (i ∷ is) os = refl

  other-effective : (s : Server G E) → effective (other_options G E s) ≡ effective s.grpc_opts
  other-effective s =
      unary-effective s.unary_interceptors _ ∙ stream-effective s.stream_interceptors s.grpc_opts

  -- The part of the server that decides about the credentials is the same.
  abbrev pub Same : Server G E → Server G E → Type 0
  Same s t =
      (s.tls_config ≡ t.tls_config)
      × (s.config_err ≡ t.config_err)
      × (effective t.grpc_opts ≡ none → effective s.grpc_opts ≡ none)

  -- The server serves with this TLS configuration, and `Run` has no configuration error.
  abbrev pub Serves : TlsConfig G E → Server G E → Type 0
  Serves t s = (s.config_err ≡ none) × ((v : World) → effective (build_options G E s v).0 ≡ some t)

  -- `Run` has an error to return.
  abbrev pub Fails : Server G E → Type 0
  Fails s = (e : Rpc.Err G) × (s.config_err ≡ some e)

  creds-effective :
      (t : TlsConfig G E) (os : List (GrpcOption G E))
      → effective os ≡ none
      → effective (creds t ∷ os) ≡ some t
  creds-effective t os alone = ground arith

  secured_options :
      (s : Server G E) (t : TlsConfig G E) (v : World)
      → s.tls_config ≡ some t
      → (build_options G E s v).0 ≡ creds t ∷ other_options G E s
  unfolding build_options
  secured_options s t v h = ground arith

  secured :
      (s : Server G E) (t : TlsConfig G E)
      → s.tls_config ≡ some t
      → s.config_err ≡ none
      → effective s.grpc_opts ≡ none
      → Serves t s
  secured s t h e alone = (
    e,
    λ v.
        ap effective (secured_options s t v h)
        ∙ creds-effective t (other_options G E s) (other-effective s ∙ alone),
  )

  unsecured :
      (s : Server G E) (v : World)
      → s.tls_config ≡ none
      → effective s.grpc_opts ≡ none
      → effective (build_options G E s v).0 ≡ none
  unfolding build_options
  unsecured s v h alone = rw h (other-effective s ∙ alone)

module _ {G : Rpc} {E : Env G} {R : Rate} where
  -- The options that leave the credentials alone: all but `WithTLS`, `WithMutualTLS`,
  -- `WithDefaultServiceConfig`, and a `WithGRPCOptions` that has `grpc.Creds` among its options.
  pub data Quiet : ServerOption G E R → Type 0 where
    port_set : (p : String) → Quiet (with_port G E R p)
    reflected : Quiet (with_reflection G E R)
    unary : (is : List ℕ) → Quiet (with_unary_interceptors G E R is)
    streams : (is : List ℕ) → Quiet (with_stream_interceptors G E R is)
    alive : (n m : ℕ) → Quiet (with_keepalive G E R n m)
    sized : (n : ℤ) → Quiet (with_max_msg_size G E R n)
    bounded : (n : ℕ) → Quiet (with_max_concurrent_streams G E R n)
    added : (os : List (GrpcOption G E)) → effective os ≡ none → Quiet (with_grpc_options G E R os)
    listening : (l : Option ℕ) → Quiet (with_listener G E R l)
    logger : (l : Option ℕ) → Quiet (with_logger G E R l)
    auth_func : (fn : Option (Interceptor.AuthFunc G)) → Quiet (with_auth_func G E R fn)
    excluded : (ms : List String) → Quiet (with_excluded_methods G E R ms)
    demoted : (ms : List String) → Quiet (with_demoted_methods G E R ms)
    rate_limit :
        (heap : ℕ → Rate.Limiter R) (rps : Rate.Limit R) (n : ℤ)
        → Quiet (with_rate_limit G E R heap rps n)
    limiter : (l : Option Interceptor.Limiter) → Quiet (with_rate_limiter G E R l)
    trust_proxy : (t : Bool) → Quiet (with_trust_proxy G E R t)

  quiet-Same :
      (o : ServerOption G E R) (w : World) (b : Build G E R)
      → Quiet o
      → Same (o w b).server b.server
  unfolding with_port with_reflection with_unary_interceptors with_stream_interceptors
      with_keepalive with_max_msg_size with_max_concurrent_streams with_grpc_options with_listener
      with_logger with_auth_func with_excluded_methods with_demoted_methods with_rate_limit
      with_rate_limiter with_trust_proxy
  quiet-Same o w b (port_set p) = (refl, refl, λ e. e)
  quiet-Same o w b reflected = (refl, refl, λ e. e)
  quiet-Same o w b (unary is) = (refl, refl, λ e. e)
  quiet-Same o w b (streams is) = (refl, refl, λ e. e)
  quiet-Same o w b (alive n m) = (refl, refl, λ e. effective_append b.server.grpc_opts _ e refl)
  quiet-Same o w b (sized n) = (refl, refl, λ e. effective_append b.server.grpc_opts _ e refl)
  quiet-Same o w b (bounded n) = (refl, refl, λ e. effective_append b.server.grpc_opts _ e refl)
  quiet-Same o w b (added os q) = (refl, refl, λ e. effective_append b.server.grpc_opts os e q)
  quiet-Same o w b (listening l) = (refl, refl, λ e. e)
  quiet-Same o w b (logger l) = (refl, refl, λ e. e)
  quiet-Same o w b (auth_func fn) = (refl, refl, λ e. e)
  quiet-Same o w b (excluded ms) = (refl, refl, λ e. e)
  quiet-Same o w b (demoted ms) = (refl, refl, λ e. e)
  quiet-Same o w b (rate_limit heap rps n) = (refl, refl, λ e. e)
  quiet-Same o w b (limiter l) = (refl, refl, λ e. e)
  quiet-Same o w b (trust_proxy t) = (refl, refl, λ e. e)

  apply_options-Same :
      (os : List (ServerOption G E R)) (w : World) (b : Build G E R)
      → All Quiet os
      → Same (apply_options G E R os w b).server b.server
  unfolding apply_options
  apply_options-Same [] w b h = (refl, refl, λ e. e)
  apply_options-Same (o ∷ os) w b (q, h) =
      let (t, e, f) = quiet-Same o w b q in
      let (t', e', f') = apply_options-Same os w (o w b) h in (t' ∙ t, e' ∙ e, λ x. f' (f x))

  module _ (cert_file key_file ca_file : String) (os : List (ServerOption G E R)) (w : World)
      (b : Build G E R) (h : All Quiet os) (alone : effective b.server.grpc_opts ≡ none) where
    abbrev pub one : Server G E
    one = (apply_options G E R (with_tls G E R cert_file key_file ∷ os) w b).server

    abbrev pub both : Server G E
    both = (apply_options G E R (with_mutual_tls G E R cert_file key_file ca_file ∷ os) w b).server

    abbrev pub OneSided : Env.Cert E ⊎ Rpc.Err G → Type 0
    OneSided o =
        ((cert : Env.Cert E) × (o ≡ inl cert)
          × Serves (record { certificates = cert ∷ []; client_cas = none }) one)
        ⊎ ((e : Rpc.Err G) × (o ≡ inr e) × Fails one)

    abbrev pub Mutual : Env.Cert E ⊎ Rpc.Err G → Env.Pool E ⊎ Rpc.Err G → Type 0
    Mutual o p =
        ((cert : Env.Cert E) × (pool : Env.Pool E) × (o ≡ inl cert)
          × (p ≡ inl pool)
          × Serves (record { certificates = cert ∷ []; client_cas = some pool }) both)
        ⊎ (((e : Rpc.Err G) × ((o ≡ inr e) ⊎ (p ≡ inr e))) × Fails both)

    one-Same : Same one (with_tls G E R cert_file key_file w b).server
    unfolding apply_options
    one-Same = apply_options-Same os w (with_tls G E R cert_file key_file w b) h

    both-Same : Same both (with_mutual_tls G E R cert_file key_file ca_file w b).server
    unfolding apply_options
    both-Same = apply_options-Same os w (with_mutual_tls G E R cert_file key_file ca_file w b) h

    loaded : (o : Env.Cert E ⊎ Rpc.Err G) → Env.load_key_pair E cert_file key_file ≡ o → OneSided o
    unfolding with_tls
    loaded (inl cert) e =
        let (t, err, keeps) = one-Same in
        inl (cert, refl, secured one _ (ground arith) (ground arith) (keeps (ground arith)))
    loaded (inr x) e =
        let (t, err, keeps) = one-Same in
        inr
          (x, refl, (Env.wrap_error E "failed to load TLS certificate: %w" (some x), ground arith))

    paired :
        (o : Env.Cert E ⊎ Rpc.Err G) (p : Env.Pool E ⊎ Rpc.Err G)
        → Env.load_key_pair E cert_file key_file ≡ o
        → ca_pool G E R ca_file ≡ p
        → Mutual o p
    unfolding with_mutual_tls
    paired (inl cert) (inl pool) e f =
        let (t, err, keeps) = both-Same in
        inl (
          cert,
          pool,
          refl,
          refl,
          secured both _ (ground arith) (ground arith) (keeps (ground arith)),
        )
    paired (inl cert) (inr x) e f =
        let (t, err, keeps) = both-Same in inr ((x, inr refl), (x, ground arith))
    paired (inr x) p e f =
        let (t, err, keeps) = both-Same in
        inr (
          (x, inl refl),
          (Env.wrap_error E "failed to load TLS certificate: %w" (some x), ground arith),
        )

    -- On a server without `grpc.Creds` among its options, and with options that add none: after
    -- `WithTLS` and such options, the last credentials that the `grpc.Server` is given are the
    -- certificate of the files, and there is no configuration error, or the files could not be loaded
    -- and there is one. After `WithMutualTLS` and such options the credentials also demand a
    -- certificate from the clients' CA, or the pair or the CA file could not be loaded and there is a
    -- configuration error. No other TLS option and no `WithDefaultServiceConfig` follows.
    pub with_tls-Serves :
        OneSided (Env.load_key_pair E cert_file key_file)
        × Mutual (Env.load_key_pair E cert_file key_file) (ca_pool G E R ca_file)
    with_tls-Serves = (loaded _ refl, paired _ _ refl refl)

  -- An error of `WithTLS` does not survive a `WithDefaultServiceConfig` with valid JSON, on any server
  -- without `grpc.Creds` among its options: behind `WithTLS` with files that cannot be loaded the
  -- server has the configuration error; behind `WithTLS` and `WithDefaultServiceConfig` it has none
  -- any more, and the `grpc.Server` is given no credentials.
  pub with_default_service_config-build_options :
      (cert_file key_file json : String) (w v : World) (b : Build G E R) (e : Rpc.Err G)
      → Env.load_key_pair E cert_file key_file ≡ inr e
      → effective b.server.grpc_opts ≡ none
      → str_eq json "" ≡ false
      → Env.json_valid E json ≡ true
      → let tls = with_tls G E R cert_file key_file in
        let failed = (apply_options G E R (tls ∷ []) w b).server in
        let s =
          (apply_options G E R (tls ∷ with_default_service_config G E R json ∷ []) w b).server in
        (failed.config_err ≡ some (Env.wrap_error E "failed to load TLS certificate: %w" (some e)))
        × (s.config_err ≡ none)
        × (effective (build_options G E s v).0 ≡ none)
  unfolding apply_options with_tls with_default_service_config
  with_default_service_config-build_options cert_file key_file json w v b e bad alone named valid =
      (
        ground arith,
        ground arith,
        unsecured
            (with_default_service_config G E R json w
              (with_tls G E R cert_file key_file w b)).server
            v (ground arith) (ground arith),
      )
