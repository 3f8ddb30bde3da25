-- ===== src/Server/Interceptor/Config/Seen.antt =====
-- What the struct of config.go, its copies and its maps hold behind options.
use grpc_template.Common.{
  ℕ, suc, ◌≡◌, ◌≢◌, refl, sym, ap, ◌∙◌, some, List, [], ◌∷◌, map, String, ==_iff, arith,
}
use grpc_template.Rpc.{Rpc}
use grpc_template.Server.Interceptor.RateLimit.{Rate, MemoryRateLimiter}
use grpc_template.Server.Interceptor.Config.{
  memory, Config, Setup, is_member, add_methods, with_logger, with_auth_func, with_excluded_methods,
  with_demoted_methods, with_trust_proxy, with_rate_limiter, add_limiter, with_rate_limit,
  configure, default_config,
}
use grpc_template.Server.Interceptor.Config.Limiters.{stop_previous_keeps}
use grpc_template.Server.Interceptor.Config.Methods.{
  Chosen, logger, auth_func, excluded_methods, demoted_methods, trust_proxy, rate_limiter,
  rate_limit, option_of, named_excluded, named_demoted, joined, configure-Collected,
}
use grpc_template.Server.Interceptor.Config.Snapshot.{
  Maps, store, Memory, read, initial, get_config, apply, configure_in,
}

store_same : (a : ℕ) (set : List String) (maps : Maps) → store a set maps a ≡ set
store_same a set maps = ground (arith, ==_iff a a)

store_other : (a b : ℕ) (set : List String) (maps : Maps) → b ≢ a → store a set maps b ≡ maps b
store_other a b set maps h = ground (arith, ==_iff b a)

module _ (G : Rpc) (R : Rate) where
  -- The memory holds this configuration, in two maps.
  abbrev pub Represents : Memory G → Setup G R → Type 0
  Represents s t =
      (read G s.fields s.maps ≡ t.config)
      × (s.next ≡ t.next)
      × (s.fields.excluded_at ≢ s.fields.demoted_at)

  apply-Represents :
      (o : Chosen G R) (s : Memory G) (t : Setup G R)
      → Represents s t
      → Represents (apply G R o s) (option_of G R o t)
  unfolding apply with_logger with_auth_func with_excluded_methods with_demoted_methods
      with_trust_proxy with_rate_limiter with_rate_limit add_limiter
  apply-Represents (logger l) s t (e, n, d) =
      (ap (λ (c : Config G). record c { logger = l }) e, n, d)
  apply-Represents (auth_func fn) s t (e, n, d) =
      (ap (λ (c : Config G). record c { auth_func = fn }) e, n, d)
  apply-Represents (excluded_methods ms) s t (e, n, d) = (
    rw
        (
          store_same s.fields.excluded_at _ s.maps,
          store_other s.fields.excluded_at s.fields.demoted_at _ s.maps (λ z. d (sym z)),
        )
        (ap (λ (c : Config G). record c { excluded_methods = add_methods ms c.excluded_methods })
          e),
    n,
    d,
  )
  apply-Represents (demoted_methods ms) s t (e, n, d) = (
    rw
        (
          store_same s.fields.demoted_at _ s.maps,
          store_other s.fields.demoted_at s.fields.excluded_at _ s.maps d,
        )
        (ap (λ (c : Config G). record c { demoted_methods = add_methods ms c.demoted_methods }) e),
    n,
    d,
  )
  apply-Represents (trust_proxy b) s t (e, n, d) =
      (ap (λ (c : Config G). record c { trust_proxy = b }) e, n, d)
  apply-Represents (rate_limiter l) s t (e, n, d) =
      let (m, c) = stop_previous_keeps t t.config.rate_limiter in
      (ap (λ (c : Config G). record c { rate_limiter = l }) (e ∙ sym c), n ∙ sym m, d)
  apply-Represents (rate_limit heap rps burst) s t (e, n, d) =
      let (m, c) = stop_previous_keeps t t.config.rate_limiter in
      (
        ap (λ (c : Config G). record c { rate_limiter = some (memory s.next) }) e
            ∙ ap (λ (i : ℕ). record (t.config) { rate_limiter = some (memory i) }) n
            ∙ ap (λ (c : Config G). record c { rate_limiter = some (memory t.next) }) (sym c),
        ap suc (n ∙ sym m),
        d,
      )

  pub initial-Represents :
      (limiters : ℕ → MemoryRateLimiter R) (stops : List ℕ)
      → Represents (initial G) (record {
        config = default_config G;
        limiters = limiters;
        next = 0;
        custom_stops = stops;
      })
  unfolding initial default_config
  initial-Represents limiters stops = (refl, refl, λ z. omega (arith, z))

  pub configure_in-Represents :
      (os : List (Chosen G R)) (s : Memory G) (t : Setup G R)
      → Represents s t
      → Represents (configure_in G R os s) (configure G R (map (option_of G R) os) t)
  unfolding configure_in configure
  configure_in-Represents [] s t h = h
  configure_in-Represents (o ∷ os) s t h =
      configure_in-Represents os (apply G R o s) (option_of G R o t) (apply-Represents o s t h)

  -- The options leave the maps where they are.
  abbrev Placed : Memory G → Memory G → Type 0
  Placed s t =
      (t.fields.excluded_at ≡ s.fields.excluded_at) × (t.fields.demoted_at ≡ s.fields.demoted_at)

  apply-Placed : (o : Chosen G R) (s : Memory G) → Placed s (apply G R o s)
  unfolding apply
  apply-Placed (logger l) s = (refl, refl)
  apply-Placed (auth_func fn) s = (refl, refl)
  apply-Placed (excluded_methods ms) s = (refl, refl)
  apply-Placed (demoted_methods ms) s = (refl, refl)
  apply-Placed (trust_proxy b) s = (refl, refl)
  apply-Placed (rate_limiter l) s = (refl, refl)
  apply-Placed (rate_limit heap rps burst) s = (refl, refl)

  configure_in-Placed : (os : List (Chosen G R)) (s : Memory G) → Placed s (configure_in G R os s)
  unfolding configure_in
  configure_in-Placed [] s = (refl, refl)
  configure_in-Placed (o ∷ os) s =
      let (e, d) = apply-Placed o s in
      let (f, g) = configure_in-Placed os (apply G R o s) in (f ∙ e, g ∙ d)

  -- What an interceptor reads through a copy that was taken before the options.
  abbrev pub Seen : String → List (Chosen G R) → Memory G → Setup G R → Type 0
  Seen m os s t =
      let later = configure_in G R os s in
      let seen = read G (get_config G s) later.maps in
      let now = (configure G R (map (option_of G R) os) t).config in
      (read G later.fields later.maps ≡ now)
      × (seen ≡ record (t.config) {
        excluded_methods = now.excluded_methods;
        demoted_methods = now.demoted_methods;
      })
      × (is_member m seen.excluded_methods
          ≡ joined G R m t.config.excluded_methods (named_excluded G R os))
      × (is_member m seen.demoted_methods
          ≡ joined G R m t.config.demoted_methods (named_demoted G R os))

  -- Where the memory holds a configuration in two maps, as it does from the beginning, it holds after
  -- any options the configuration that they make of it. But a copy that `getConfig` returned before
  -- them is a snapshot of only four fields: the logger, the auth function, the rate limiter and the
  -- trust in proxies. Through it a reader finds the methods that have been excluded and demoted
  -- since: exactly those that were, and the names that are not empty of the options.
  pub get_config-Seen :
      (m : String) (os : List (Chosen G R)) (s : Memory G) (t : Setup G R)
      → Represents s t
      → Seen m os s t
  unfolding get_config
  get_config-Seen m os s t h =
      let (e, n, d) = configure_in-Represents os s t h in
      let (f, g) = configure_in-Placed os s in
      let (x, y) = configure-Collected G R m os t in
      let later = configure_in G R os s in
      let now = (configure G R (map (option_of G R) os) t).config in
      let p : later.maps s.fields.excluded_at ≡ now.excluded_methods =
        ap later.maps (sym f) ∙ ap (λ c. c.excluded_methods) e in
      let r : later.maps s.fields.demoted_at ≡ now.demoted_methods =
        ap later.maps (sym g) ∙ ap (λ c. c.demoted_methods) e in
      (
        e,
        ap
              (λ (c : Config G). record c {
                excluded_methods = later.maps s.fields.excluded_at;
                demoted_methods = later.maps s.fields.demoted_at;
              })
              h.0
            ∙ ap
                (λ (xs : List String). record (t.config) {
                  excluded_methods = xs;
                  demoted_methods = later.maps s.fields.demoted_at;
                })
                p
            ∙ ap
                (λ (xs : List String). record (t.config) {
                  excluded_methods = now.excluded_methods;
                  demoted_methods = xs;
                })
                r,
        ap (is_member m) p ∙ x,
        ap (is_member m) r ∙ y,
      )
