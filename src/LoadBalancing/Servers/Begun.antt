-- ===== src/LoadBalancing/Servers/Begun.antt =====
-- Which servers `startServers` starts.
use grpc_template.Common.{
  ℕ, zero, suc, ◌+◌, ◌<◌, ◌≡◌, refl, ap, sym, ◌∙◌, subst, ◌⊎◌, inl, inr, true, Option, none, some,
  List, [], ◌∷◌, codes, length, get_elem?, arith,
}
use grpc_template.World.{World}
use grpc_template.Rpc.{Rpc}
use grpc_template.Server.Interceptor.RateLimit.{Rate}
use grpc_template.Server.Interceptor.Config.{Setup, configure}
use grpc_template.Server.Options.{
  Env, with_listener, with_reflection, with_logger, with_unary_interceptors,
  with_stream_interceptors, new_server, apply_options, register_service,
}
use grpc_template.Server.Lifecycle.{Net}
use grpc_template.LoadBalancing.{num_servers}
use grpc_template.LoadBalancing.Servers.{
  request_id_id, server_tag_id, logging_id, stream_request_id_id, stream_server_tag_id,
  stream_logging_id, server_options, Started, start_server, start_from, start_servers,
}

module _ {G : Rpc} {E : Env G} (net : Net G E) (listen : ℕ → ℕ ⊎ Rpc.Err G) (l : ℕ) where
  -- A server as the program wants it.
  pub record Serves (s : Started G E) : Type 0 where
    pub listened : listen s.index ≡ inl s.listener
    pub address : s.addr ≡ codes (Net.address net s.listener)
    pub listens : s.server.listener ≡ some s.listener
    pub reflects : s.server.reflection ≡ true
    pub fine : s.server.config_err ≡ none
    pub logs : s.server.logger ≡ l
    pub registered : s.server.registrars ≡ s.index ∷ []
    pub unary : s.server.unary_interceptors ≡ request_id_id ∷ server_tag_id ∷ logging_id ∷ []
    pub stream :
        s.server.stream_interceptors
        ≡ stream_request_id_id ∷ stream_server_tag_id ∷ stream_logging_id ∷ []

  start_server-Serves :
      (R : Rate) (i lis : ℕ) (w : World) (shared : Setup G R)
      → listen i ≡ inl lis
      → Serves (start_server G E R net listen l i lis w shared).0
  unfolding start_server server_options new_server apply_options configure with_listener
      with_reflection with_logger with_unary_interceptors with_stream_interceptors register_service
  start_server-Serves R i lis w shared e = record {
    listened = e;
    address = refl;
    listens = refl;
    reflects = refl;
    fine = refl;
    logs = refl;
    registered = refl;
    unary = refl;
    stream = refl;
  }

  -- The servers have these indices, and serve.
  abbrev pub AllServe : ℕ → List (Started G E) → Type 0
  AllServe i [] = Unit
  AllServe i (s ∷ ss) = (s.index ≡ i) × Serves s × AllServe (suc i) ss

  pub AllServe-get_elem :
      (i k : ℕ) (ss : List (Started G E)) (s : Started G E)
      → AllServe i ss
      → get_elem? ss k ≡ some s
      → (s.index ≡ i + k) × Serves s
  AllServe-get_elem i k [] s h e = absurd cc
  AllServe-get_elem i zero (x ∷ ss) s (a, b, c) e =
      let same : x ≡ s = ap (λ (o : Option (Started G E)). elim o [ none ↦ x | some y ↦ y ]) e in
      (ap (λ (t : Started G E). t.index) (sym same) ∙ omega arith, subst Serves same b)
  AllServe-get_elem i (suc k) (x ∷ ss) s (a, b, c) e =
      let (n, serves) = AllServe-get_elem (suc i) k ss s c e in (omega arith, serves)

  -- All have been started, or the first failure of `net.Listen` has ended the loop.
  abbrev pub Begun : ℕ → ℕ → List (Started G E) ⊎ Rpc.Err G → Type 0
  Begun n i (inl ss) = (length ss ≡ n) × AllServe i ss
  Begun n i (inr e) = (k : ℕ) × (k < n) × (listen (i + k) ≡ inr e)

  module _ (R : Rate) where
    in_front :
        (n i : ℕ) (s : Started G E) (out : World × Setup G R) (r : List (Started G E) ⊎ Rpc.Err G)
        → s.index ≡ i
        → Serves s
        → Begun n (suc i) r
        → (let joined : (List (Started G E) ⊎ Rpc.Err G) × (World × Setup G R) = elim r [
          | inr e ↦ (inr e, out)
          | inl more ↦ (inl (s ∷ more), out)
        ] in
            Begun (suc n) i joined.0)
    in_front n i s out (inl more) e serves (len, all) = (omega arith, (e, serves, all))
    in_front n i s out (inr x) e serves (k, lt, failed) =
        (suc k, omega arith, ap listen (omega arith) ∙ failed)

    start_server-index :
        (i lis : ℕ) (w : World) (shared : Setup G R)
        → (start_server G E R net listen l i lis w shared).0.index ≡ i
    unfolding start_server
    start_server-index i lis w shared = refl

    one_more :
        (n i : ℕ) (w : World) (shared : Setup G R) (o : ℕ ⊎ Rpc.Err G)
        → listen i ≡ o
        → ((v : World) (set : Setup G R)
            → Begun n (suc i) (start_from G E R net listen l n (suc i) v set).0)
        → Begun (suc n) i (start_from G E R net listen l (suc n) i w shared).0
    unfolding start_from
    one_more n i w shared (inr e) h rest =
        rw (h, Begun) (0, omega arith, ap listen (omega arith) ∙ h)
    one_more n i w shared (inl lis) h rest =
        let (s, (v, set)) = start_server G E R net listen l i lis w shared in
        rw (h, Begun)
          (in_front n i s (start_from G E R net listen l n (suc i) v set).1
            (start_from G E R net listen l n (suc i) v set).0 (start_server-index i lis w shared)
            (start_server-Serves R i lis w shared h) (rest v set))

    start_from-Begun :
        (n i : ℕ) (w : World) (shared : Setup G R)
        → Begun n i (start_from G E R net listen l n i w shared).0
    unfolding start_from
    start_from-Begun zero i w shared = (refl, tt)
    start_from-Begun (suc n) i w shared =
        one_more n i w shared (listen i) refl (λ v set. start_from-Begun n (suc i) v set)

    -- `startServers`: all three servers, or the error of the first `net.Listen` that fails.
    pub start_servers-Begun :
        (w : World) (shared : Setup G R)
        → Begun num_servers 0 (start_servers G E R net listen l w shared).0
    unfolding start_servers
    start_servers-Begun w shared = start_from-Begun num_servers 0 w shared
