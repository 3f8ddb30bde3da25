-- ===== src/LoadBalancing/Servers/Tagged.antt =====
-- The servers that `startServers` starts, and the addresses by which their calls are told apart.
use grpc_template.Common.{
  ℕ, ◌≡◌, refl, ap, ◌∙◌, subst, ◌⊎◌, inl, inr, some, List, [], ◌∷◌, ◌++◌, String, Bytes, codes,
  length, get_elem?, arith, str_eq, Option, if◌then◌else◌,
}
use grpc_template.World.{World, set_header, done}
use grpc_template.Rpc.{Rpc, Context}
use grpc_template.Server.Interceptor.RateLimit.{Rate}
use grpc_template.Server.Interceptor.Calls.{UnaryHandler, StreamHandler, ServerStream}
use grpc_template.Server.Interceptor.Config.{Config, Setup}
use grpc_template.Server.Interceptor.Uuid.Format.{AreBytes}
use grpc_template.Server.Interceptor.RequestId.Laws.{request_id_valid}
use grpc_template.Server.Interceptor.CallLogging.{logging, stream_logging}
use grpc_template.Server.Interceptor.CallLogging.Laws.{logging-Written}
use grpc_template.Server.Options.{Env}
use grpc_template.Server.Lifecycle.{Net}
use grpc_template.LoadBalancing.{num_servers, server_tag, stream_server_tag, addr_from_header}
use grpc_template.LoadBalancing.Servers.Begun.{AllServe-get_elem, Begun, start_servers-Begun}
use grpc_template.LoadBalancing.Servers.{
  request_id_id, server_tag_id, logging_id, stream_request_id_id, stream_server_tag_id,
  stream_logging_id, Started, start_servers, intercept, chain_unary, intercept_stream, chain_stream,
}

-- The values that the headers have for a key.
abbrev pub header_values : String → List (String × Bytes) → List Bytes
header_values k [] = []
header_values k ((j, v) ∷ hs) = if str_eq j k then v ∷ header_values k hs else header_values k hs

-- The headers of a response, from those of the handler, on the context and the world it is given.
abbrev pub tagged : Bytes → Bytes → World → World
tagged id addr w = set_header "x-server-addr" addr (set_header "x-request-id" id w)

module _ {G : Rpc} (random : Bytes) (cfg : Config G) (method : String) (len : length random ≡ 16)
    (small : AreBytes random) where
  logging-headers :
      {A : Type 0} (handler : UnaryHandler G A) (stream_handler : StreamHandler G) (ctx : Context G)
      (ss : ServerStream G) (w : World)
      → ((logging G cfg method handler ctx w).1.headers ≡ (handler ctx w).1.headers)
        × ((stream_logging G cfg method stream_handler ss w).1.headers
            ≡ (stream_handler ss w).1.headers)
  logging-headers handler stream_handler ctx ss w =
      let (unary, stream) =
        logging-Written {G = G} cfg method handler stream_handler ctx ss w _ _ _ _ refl refl in
      (
        elim unary [
          | inl (v, e, ran) ↦ ap (λ p. p.1.headers) ran
          | inr (resp, err, v, e, ran, (entry, wrote, _, _, _)) ↦
              ap (λ p. p.1.headers) ran ∙ ap (λ u. u.headers) wrote
        ],
        elim stream [
          | inl (v, e, ran) ↦ ap (λ p. p.1.headers) ran
          | inr (err, v, e, ran, (entry, wrote, _, _, _)) ↦
              ap (λ p. p.1.headers) ran ∙ ap (λ u. u.headers) wrote
        ],
      )

  chained :
      {A : Type 0} (addr : Bytes) (handler : UnaryHandler G A) (stream_handler : StreamHandler G)
      (ctx : Context G) (n : ℕ) (w : World)
      → (id : Bytes) × (let c = record ctx { request_id = some id } in
          ((chain_unary G random cfg method addr
              (request_id_id ∷ server_tag_id ∷ logging_id ∷ [])
              handler
              ctx
              w).1.headers
            ≡ (handler c (tagged id addr w)).1.headers)
          × ((chain_stream G random cfg method addr
                (stream_request_id_id ∷ stream_server_tag_id ∷ stream_logging_id ∷ [])
                stream_handler
                (record { context = ctx; stream = n })
                w).1.headers
              ≡ (stream_handler (record { context = c; stream = n }) (tagged id addr w)).1.headers))
  unfolding chain_unary chain_stream intercept intercept_stream server_tag stream_server_tag
  chained {A} addr handler stream_handler ctx n w =
      let inner : UnaryHandler G A =
        chain_unary G random cfg method addr (server_tag_id ∷ logging_id ∷ []) handler in
      let stream_inner : StreamHandler G =
        chain_stream G random cfg method addr (stream_server_tag_id ∷ stream_logging_id ∷ [])
          stream_handler in
      let (id, valid, origin, unary, stream) =
        request_id_valid random len small ctx inner stream_inner n w in
      let c = record ctx { request_id = some id } in
      let (kept, stream_kept) =
        logging-headers handler stream_handler c (record { context = c; stream = n })
          (tagged id addr w) in
      (id, (ap (λ p. p.1.headers) unary ∙ kept, ap (λ p. p.1.headers) stream ∙ stream_kept))

module _ (G : Rpc) where
  -- The response headers hold the address, behind which the handler may have set more.
  reads :
      (header : World → Rpc.Md G) (addr id : Bytes) (w v : World) (more : List (String × Bytes))
      → ((v : World)
          → Rpc.md_get G (header v) "x-server-addr" ≡ header_values "x-server-addr" v.headers)
      → w.headers ≡ []
      → v.headers ≡ (tagged id addr w).headers ++ more
      → addr_from_header G (header v) ≡ addr
  unfolding addr_from_header
  reads header addr id w v more keeps e h =
      let shape : v.headers ≡ ("x-request-id", id) ∷ ("x-server-addr", addr) ∷ more =
        h
        ∙ ap
            (λ (hs : List (String × Bytes)).
              ((hs ++ ("x-request-id", id) ∷ []) ++ ("x-server-addr", addr) ∷ []) ++ more)
            e in
      let values : header_values "x-server-addr" v.headers
          ≡ addr ∷ header_values "x-server-addr" more =
        ap (header_values "x-server-addr") shape in
      rw (keeps v ∙ values, addr_from_header) refl

module _ {G : Rpc} {E : Env G} (R : Rate) (net : Net G E) (listen : ℕ → ℕ ⊎ Rpc.Err G) (l : ℕ)
    (started : World) (shared : Setup G R) (random : Bytes) (cfg : Config G) (method : String)
    (header : World → Rpc.Md G) where
  -- What the client reads of a unary call and of a stream to the server.
  abbrev pub ReadsAddress :
      {A : Type 0}
      → Started G E
      → UnaryHandler G A
      → StreamHandler G
      → Context G
      → ℕ
      → World
      → Type 0
  ReadsAddress s handler stream_handler ctx n w =
      (addr_from_header G (
          header
            (chain_unary G random cfg method s.addr s.server.unary_interceptors handler ctx w).1)
        ≡ codes (Net.address net s.listener))
      × (addr_from_header G (
            header
              (chain_stream G random cfg method s.addr s.server.stream_interceptors stream_handler
                (record { context = ctx; stream = n }) w).1)
          ≡ codes (Net.address net s.listener))

  -- Where `startServers` returns, it has started three servers, the one with index `k` on the listener
  -- that `net.Listen` gave for `k`. A call of a server, unary or a stream, comes back with response
  -- headers from which the client's `addrFromHeader` reads the address of that server's listener,
  -- whatever the handler returns, an error included. The conditions: the handlers return and do not
  -- panic, they only add to the response headers, the call begins without any, every `grpc.SetHeader`
  -- takes effect, the header that `grpc.Header` stores has the values of "x-server-addr" in the order
  -- in which they were set, and 16 random bytes can be read.
  pub start_servers-addr_from_header :
      {A : Type 0} (servers : List (Started G E)) (out : World × Setup G R) (k : ℕ)
      (s : Started G E) (handler : UnaryHandler G A) (stream_handler : StreamHandler G)
      (ctx : Context G) (n : ℕ) (w : World)
      → start_servers G E R net listen l started shared ≡ (inl servers, out)
      → get_elem? servers k ≡ some s
      → ((v : World)
          → Rpc.md_get G (header v) "x-server-addr" ≡ header_values "x-server-addr" v.headers)
      → ((c : Context G) (u : World)
          → (a : Option A × Option (Rpc.Err G)) × (more : List (String × Bytes)) × ((handler c u).0
              ≡ done a)
            × ((handler c u).1.headers ≡ u.headers ++ more))
      → ((ss : ServerStream G) (u : World)
          → (a : Option (Rpc.Err G)) × (more : List (String × Bytes)) × ((stream_handler ss u).0
              ≡ done a)
            × ((stream_handler ss u).1.headers ≡ u.headers ++ more))
      → w.headers ≡ []
      → length random ≡ 16
      → AreBytes random
      → (length servers ≡ num_servers)
        × (listen k ≡ inl s.listener)
        × ReadsAddress s handler stream_handler ctx n w
  start_servers-addr_from_header servers out k s handler stream_handler ctx n w h at keeps adds
        stream_adds fresh len small =
      let begun : Begun net listen l num_servers 0 (inl servers) =
        subst (Begun net listen l num_servers 0) (ap (λ p. p.0) h)
          (start_servers-Begun net listen l R started shared) in
      let (same, serves) = AllServe-get_elem net listen l 0 k servers s begun.1 at in
      let (id, (ran, stream_ran)) =
        chained random cfg method len small s.addr handler stream_handler ctx n w in
      let (_, more, _, a) = adds (record ctx { request_id = some id }) (tagged id s.addr w) in
      let (_, stream_more, _, b) =
        stream_adds (record { context = record ctx { request_id = some id }; stream = n })
          (tagged id s.addr w) in
      (
        begun.0,
        ap listen (omega (arith, same)) ∙ serves.listened,
        (
          rw serves.unary (reads G header s.addr id w _ more keeps fresh (ran ∙ a))
              ∙ serves.address,
          rw serves.stream (reads G header s.addr id w _ stream_more keeps fresh (stream_ran ∙ b))
              ∙ serves.address,
        ),
      )
