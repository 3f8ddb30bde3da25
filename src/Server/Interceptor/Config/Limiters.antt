-- ===== src/Server/Interceptor/Config/Limiters.antt =====
-- Which rate limiters keep a cleanup goroutine behind them when options replace each other.
use grpc_template.Common.{
  ℕ, ◌<◌, ◌≡◌, refl, ◌⊎◌, Bool, true, false, ℤ, Option, none, some, List, String, arith, ◌==◌,
  if◌then◌else◌,
}
use grpc_template.Rpc.{Rpc}
use grpc_template.Server.Interceptor.RateLimit.{Rate, MemoryRateLimiter, new_memory_rate_limiter}
use grpc_template.Server.Interceptor.Config.{
  Limiter, memory, custom, AuthFunc, default_config, Setup, with_logger, with_auth_func,
  with_excluded_methods, with_demoted_methods, with_trust_proxy, stop_previous_limiter,
  with_rate_limiter, add_limiter, with_rate_limit,
}

-- No limiter, or one that is not a `*MemoryRateLimiter`.
abbrev pub Foreign : Option Limiter → Type 0
Foreign l = (l ≡ none) ⊎ ((n : ℕ) × (b : Bool) × (l ≡ some (custom n b)))

-- The limiters that have been in a configuration, with one more.
abbrev pub place : ℕ → (ℕ → Bool) → ℕ → Bool
place i placed j = if j == i then true else placed j

module _ {G : Rpc} {R : Rate} where
  -- The configurations that the options lead to, with the `*MemoryRateLimiter`s that have been in
  -- them. The user's code makes limiters at any time, and gives `WithRateLimiter` one of them that has
  -- not been in the configuration, or a limiter that is not a `*MemoryRateLimiter`.
  pub data Configured : (ℕ → Bool) → Setup G R → Type 0 where
    initial :
        (heap : ℕ → MemoryRateLimiter R) (stops : List ℕ)
        → Configured
            (λ i. false)
            (record { config = default_config G; limiters = heap; next = 0; custom_stops = stops })
    logger :
        {placed : ℕ → Bool} {s : Setup G R} (l : Option ℕ)
        → Configured placed s
        → Configured placed (with_logger G R l s)
    auth_func :
        {placed : ℕ → Bool} {s : Setup G R} (fn : Option (AuthFunc G))
        → Configured placed s
        → Configured placed (with_auth_func G R fn s)
    excluded :
        {placed : ℕ → Bool} {s : Setup G R} (ms : List String)
        → Configured placed s
        → Configured placed (with_excluded_methods G R ms s)
    demoted :
        {placed : ℕ → Bool} {s : Setup G R} (ms : List String)
        → Configured placed s
        → Configured placed (with_demoted_methods G R ms s)
    trust_proxy :
        {placed : ℕ → Bool} {s : Setup G R} (t : Bool)
        → Configured placed s
        → Configured placed (with_trust_proxy G R t s)
    rate_limit :
        {placed : ℕ → Bool} {s : Setup G R} (heap : ℕ → Rate.Limiter R) (rps : Rate.Limit R)
        (burst : ℤ)
        → Configured placed s
        → Configured (place s.next placed) (with_rate_limit G R heap rps burst s)
    foreign :
        {placed : ℕ → Bool} {s : Setup G R} (l : Option Limiter)
        → Foreign l
        → Configured placed s
        → Configured placed (with_rate_limiter G R l s)
    made :
        {placed : ℕ → Bool} {s : Setup G R} (heap : ℕ → Rate.Limiter R) (rps : Rate.Limit R)
        (burst : ℤ) (ttl : ℤ)
        → Configured placed s
        → Configured placed (add_limiter G R heap rps burst ttl s)
    given :
        {placed : ℕ → Bool} {s : Setup G R} (i : ℕ)
        → i < s.next
        → placed i ≡ false
        → Configured placed s
        → Configured (place i placed) (with_rate_limiter G R (some (memory i)) s)

  -- Every limiter that has been in the configuration is stopped, or is the one in it; one that has
  -- not is not stopped; and the one in the configuration is not stopped.
  abbrev pub OneAlive : (ℕ → Bool) → Setup G R → Type 0
  OneAlive placed s =
      ((i : ℕ)
        → placed i ≡ true
        → (i < s.next)
          × (((s.limiters i).stopped ≡ true) ⊎ (s.config.rate_limiter ≡ some (memory i))))
      × ((i : ℕ) → i < s.next → placed i ≡ false → (s.limiters i).stopped ≡ false)
      × ((i : ℕ)
          → s.config.rate_limiter ≡ some (memory i)
          → (placed i ≡ true) × ((s.limiters i).stopped ≡ false))

  -- Behind `stopPreviousLimiter`, those that have been in the configuration are stopped, and they
  -- alone.
  all_stopped :
      (placed : ℕ → Bool) (s : Setup G R) (o : Option Limiter) (i : ℕ)
      → s.config.rate_limiter ≡ o
      → OneAlive placed s
      → placed i ≡ true
      → ((stop_previous_limiter G R o s).limiters i).stopped ≡ true
  unfolding stop_previous_limiter
  all_stopped placed s o i e (all, spared, one) p = ground (arith, (all i p).1)

  none_else :
      (placed : ℕ → Bool) (s : Setup G R) (o : Option Limiter) (i : ℕ)
      → s.config.rate_limiter ≡ o
      → OneAlive placed s
      → i < s.next
      → placed i ≡ false
      → ((stop_previous_limiter G R o s).limiters i).stopped ≡ false
  unfolding stop_previous_limiter
  none_else placed s o i e (all, spared, one) lt p = ground (arith, spared i lt p, one i)

  pub stop_previous_keeps :
      (s : Setup G R) (o : Option Limiter)
      → ((stop_previous_limiter G R o s).next ≡ s.next)
        × ((stop_previous_limiter G R o s).config ≡ s.config)
  unfolding stop_previous_limiter
  stop_previous_keeps s o = (ground arith, ground arith)

  module _ (placed : ℕ → Bool) (s : Setup G R) (h : OneAlive placed s) where
    abbrev stopped : Setup G R
    stopped = stop_previous_limiter G R s.config.rate_limiter s

    same : (stopped.next ≡ s.next) × (stopped.config ≡ s.config)
    same = stop_previous_keeps s s.config.rate_limiter

    past : (i : ℕ) → placed i ≡ true → (i < s.next) × ((stopped.limiters i).stopped ≡ true)
    past i p = ((h.0 i p).0, all_stopped placed s s.config.rate_limiter i refl h p)

    spare : (i : ℕ) → i < s.next → placed i ≡ false → (stopped.limiters i).stopped ≡ false
    spare i lt p = none_else placed s s.config.rate_limiter i refl h lt p

    with_rate_limit-OneAlive :
        (heap : ℕ → Rate.Limiter R) (rps : Rate.Limit R) (burst : ℤ)
        → OneAlive (place s.next placed) (with_rate_limit G R heap rps burst s)
    unfolding with_rate_limit add_limiter new_memory_rate_limiter
    with_rate_limit-OneAlive heap rps burst = (
      λ i p. ground (arith, same.0, past i),
      λ i lt p. ground (arith, same.0, spare i),
      λ i e. ground (arith, same.0),
    )

    with_rate_limiter-OneAlive :
        (l : Option Limiter) → Foreign l → OneAlive placed (with_rate_limiter G R l s)
    unfolding with_rate_limiter
    with_rate_limiter-OneAlive l f = (
      λ i p. ground (arith, same.0, past i p),
      λ i lt p. ground (arith, same.0, spare i),
      λ i e. ground arith,
    )

    given-OneAlive :
        (i : ℕ)
        → i < s.next
        → placed i ≡ false
        → OneAlive (place i placed) (with_rate_limiter G R (some (memory i)) s)
    unfolding with_rate_limiter
    given-OneAlive i lt p = (
      λ j q. ground (arith, same.0, past j),
      λ j less q. ground (arith, same.0, spare j),
      λ j e. ground (arith, spare i lt p),
    )

    add_limiter-OneAlive :
        (heap : ℕ → Rate.Limiter R) (rps : Rate.Limit R) (burst : ℤ) (ttl : ℤ)
        → OneAlive placed (add_limiter G R heap rps burst ttl s)
    unfolding add_limiter new_memory_rate_limiter
    add_limiter-OneAlive heap rps burst ttl = (
      λ i p. ground (arith, h.0 i p),
      λ i lt p. ground (arith, h.1 i),
      λ i e. ground (arith, h.2 i e, h.0 i),
    )

  -- However options replace each other, every `*MemoryRateLimiter` that has ever been in the
  -- configuration has been stopped but the one in it, and that one has not; one that has been made and
  -- not yet set has not been stopped either. The conditions: no `*MemoryRateLimiter` is set a second
  -- time, and the user's code does not call `Stop` itself.
  pub Configured-OneAlive :
      (placed : ℕ → Bool) (s : Setup G R) → Configured placed s → OneAlive placed s
  unfolding with_logger with_auth_func with_excluded_methods with_demoted_methods with_trust_proxy
      default_config
  Configured-OneAlive placed s (initial heap stops) =
      (λ i p. absurd cc, λ i lt. absurd (omega arith), λ i e. absurd cc)
  Configured-OneAlive placed s (logger l h) = Configured-OneAlive placed _ h
  Configured-OneAlive placed s (auth_func fn h) = Configured-OneAlive placed _ h
  Configured-OneAlive placed s (excluded ms h) = Configured-OneAlive placed _ h
  Configured-OneAlive placed s (demoted ms h) = Configured-OneAlive placed _ h
  Configured-OneAlive placed s (trust_proxy t h) = Configured-OneAlive placed _ h
  Configured-OneAlive placed s (rate_limit heap rps burst h) =
      with_rate_limit-OneAlive _ _ (Configured-OneAlive _ _ h) heap rps burst
  Configured-OneAlive placed s (foreign l f h) =
      with_rate_limiter-OneAlive _ _ (Configured-OneAlive _ _ h) l f
  Configured-OneAlive placed s (made heap rps burst ttl h) =
      add_limiter-OneAlive _ _ (Configured-OneAlive _ _ h) heap rps burst ttl
  Configured-OneAlive placed s (given i lt p h) =
      given-OneAlive _ _ (Configured-OneAlive _ _ h) i lt p

  -- A `*MemoryRateLimiter` that is set while it is the configured one stays configured, but is
  -- stopped: its cleanup goroutine may end.
  pub with_rate_limiter_again :
      (s : Setup G R) (i : ℕ)
      → s.config.rate_limiter ≡ some (memory i)
      → let t = with_rate_limiter G R (some (memory i)) s in
        (t.config.rate_limiter ≡ some (memory i)) × ((t.limiters i).stopped ≡ true)
  unfolding with_rate_limiter stop_previous_limiter
  with_rate_limiter_again s i e = (refl, ground arith)
