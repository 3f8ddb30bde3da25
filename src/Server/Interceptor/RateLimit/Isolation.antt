-- ===== src/Server/Interceptor/RateLimit/Isolation.antt =====
-- The memory limiter and the token buckets of its keys.
use grpc_template.Common.{
  ℕ, zero, suc, pos, negsuc, is_pos, pos_part, ◌<◌, ◌≡◌, ◌∙◌, true, false, some, Bytes, bytes_eq,
  bytes_eq_iff, arith, if◌then◌else◌, ℤ, Bool-cases, inl, inr,
}
use grpc_template.Server.Interceptor.RateLimit.{
  Rate, LimiterEntry, PeerLimiters, MemoryRateLimiter, lookup, get_limiter, take_at, cleanup,
  new_memory_rate_limiter, allow, stop, default_ttl, LoopStep, ticked, ended, cleanup_interval,
}
use grpc_template.Server.Interceptor.RateLimit.Keys.{
  remove_stale-HasUniqueKeys, remove_stale-HasOwnLimiters,
}
use grpc_template.Server.Interceptor.RateLimit.Buckets.{
  IsValid, bucket, or_new, get_limiter-IsValid, get_limiter-bucket, get_limiter-lookup,
  take_at-IsValid, take_at-bucket,
}

module _ (R : Rate) where
  -- The bucket that a request of the key takes from.
  abbrev pub current : Bytes → MemoryRateLimiter R → Rate.Limiter R
  current key m = or_new R m.rate m.burst (bucket R key m.limiters)

  module _ (key : Bytes) (now taken : ℕ) (m : MemoryRateLimiter R) (v : IsValid R m.limiters)
      (on : Rate.le_zero R m.rate ≡ false) where
    abbrev found : ℕ × PeerLimiters R
    found = get_limiter R key m.rate m.burst now m.limiters

    found-current :
        (x : LimiterEntry)
        → lookup key found.1.entries ≡ some x
        → found.1.heap x.limiter ≡ current key m
    found-current x e =
        ground (
          arith,
          get_limiter-bucket R key m.rate m.burst now m.limiters v key,
          bytes_eq_iff key key,
        )

    allow-eq :
        (x : LimiterEntry)
        → lookup key found.1.entries ≡ some x
        → found.0 ≡ x.limiter
        → (allow R key now taken m).0 ≡ (Rate.take_token R taken (current key m)).0
    unfolding allow take_at
    allow-eq x e same = rw (on, allow, take_at, same, found-current x e)

    allow-limiters :
        (x : LimiterEntry)
        → found.0 ≡ x.limiter
        → (allow R key now taken m).1
          ≡ record m { limiters = (take_at R x.limiter taken found.1).1 }
    unfolding allow
    allow-limiters x same = rw (on, allow, same)

    -- The bucket after the step, from those before the request.
    stepped-bucket :
        (x : LimiterEntry)
        → lookup key found.1.entries ≡ some x
        → (j : Bytes)
        → (if bytes_eq key j
            then some (Rate.take_token R taken (found.1.heap x.limiter)).1
            else bucket R j found.1)
          ≡ (if bytes_eq key j
              then some (Rate.take_token R taken (current key m)).1
              else bucket R j m.limiters)
    stepped-bucket x e j = elim (Bool-cases (bytes_eq key j)) [
      | inl h ↦ rw h (rw (found-current x e))
      | inr h ↦ rw h (get_limiter-bucket R key m.rate m.burst now m.limiters v j ∙ rw h)
    ]

  -- A request of a key, at an active rate, is decided by one token-bucket step on the key's own
  -- bucket, or on a new bucket if it has none; it stores the stepped bucket under that key, leaves
  -- the buckets of all other keys as they are, and keeps the limiter valid.
  pub allow-bucket :
      (key : Bytes) (now taken : ℕ) (m : MemoryRateLimiter R)
      → IsValid R m.limiters
      → Rate.le_zero R m.rate ≡ false
      → let (allowed, m') = allow R key now taken m in
        let (decision, after) = Rate.take_token R taken (current key m) in
        (allowed ≡ decision)
        × IsValid R m'.limiters
        × ((j : Bytes)
            → bucket R j m'.limiters
              ≡ (if bytes_eq key j then some after else bucket R j m.limiters))
  allow-bucket key now taken m v on =
      let (x, e, same) = get_limiter-lookup R key m.rate m.burst now m.limiters v in
      let q = found key now taken m v on in
      let vq = get_limiter-IsValid R key m.rate m.burst now m.limiters v in
      (
        allow-eq key now taken m v on x e same,
        rw (allow-limiters key now taken m v on x same)
            (take_at-IsValid R key taken q.1 vq x.limiter),
        λ j.
            rw (allow-limiters key now taken m v on x same)
              (take_at-bucket R key taken q.1 vq x j e ∙ stepped-bucket key now taken m v on x e j),
      )

  allow-IsValid :
      (key : Bytes) (now taken : ℕ) (m : MemoryRateLimiter R)
      → IsValid R m.limiters
      → IsValid R (allow R key now taken m).1.limiters
  unfolding allow
  allow-IsValid key now taken m v = elim (Bool-cases (Rate.le_zero R m.rate)) [
    | inl off ↦ rw (off, allow) v
    | inr on ↦ (allow-bucket key now taken m v on).1
  ]

  -- What holds of a limiter at all times: its entries are valid, the time to live is positive, a
  -- cleanup goroutine that runs has a ticker, and it does not run only if `Stop` was called or no
  -- positive rate was given.
  pub record Inv (m : MemoryRateLimiter R) : Type 0 where
    pub valid : IsValid R m.limiters
    pub living : 0 < m.ttl
    pub ticking : m.running ≡ true → (d : ℕ) × (cleanup_interval R m ≡ some d)
    pub cleaning : m.running ≡ false → m.stopped ≡ false → Rate.gt_zero R m.rate ≡ false

  allow_settings :
      (key : Bytes) (now taken : ℕ) (m : MemoryRateLimiter R)
      → (allow R key now taken m).1 ≡ record m { limiters = (allow R key now taken m).1.limiters }
  unfolding allow
  allow_settings key now taken m = elim (Bool-cases (Rate.le_zero R m.rate)) [
    | inl off ↦ rw (off, allow)
    | inr on ↦ rw (on, allow)
  ]

  allow-Inv :
      (key : Bytes) (now taken : ℕ) (m : MemoryRateLimiter R)
      → Inv m
      → Inv (allow R key now taken m).1
  unfolding cleanup_interval
  allow-Inv key now taken m h = rw (allow_settings key now taken m) (record {
    valid = allow-IsValid key now taken m h.valid;
    living = h.living;
    ticking = h.ticking;
    cleaning = h.cleaning;
  })

  pub cleanup-IsValid :
      (ttl now : ℕ) (p : PeerLimiters R) → IsValid R p → IsValid R (cleanup R ttl now p)
  unfolding cleanup
  cleanup-IsValid ttl now p v = record {
    unique = remove_stale-HasUniqueKeys ttl now p.entries v.unique;
    own = remove_stale-HasOwnLimiters ttl now p.next p.entries v.own;
  }

  -- What happens to a limiter: requests, `Stop`, and the steps of the cleanup goroutine, which made
  -- its ticker at `started`.
  pub data Happens (started : ℕ) : MemoryRateLimiter R → MemoryRateLimiter R → Type 0 where
    requested :
        {m : MemoryRateLimiter R} (key : Bytes) (now taken : ℕ)
        → Happens started m (allow R key now taken m).1
    stops : {m : MemoryRateLimiter R} → Happens started m (stop R m)
    cleans : {m n : MemoryRateLimiter R} → LoopStep R started m n → Happens started m n

  pub data Reach (started : ℕ) (m : MemoryRateLimiter R) : MemoryRateLimiter R → Type 0 where
    here : Reach started m m
    later :
        {n o : MemoryRateLimiter R} → Reach started m n → Happens started n o → Reach started m o

  Happens-Inv : {started : ℕ} {m n : MemoryRateLimiter R} → Happens started m n → Inv m → Inv n
  unfolding stop cleanup_interval
  Happens-Inv (requested {m} key now taken) h = allow-Inv key now taken m h
  Happens-Inv stops h = record {
    valid = h.valid;
    living = h.living;
    ticking = h.ticking;
    cleaning = λ r s. cc;
  }
  Happens-Inv (cleans (ticked {m} d n now run made due)) h = record {
    valid = cleanup-IsValid m.ttl now m.limiters h.valid;
    living = h.living;
    ticking = h.ticking;
    cleaning = h.cleaning;
  }
  Happens-Inv (cleans (ended d run made st)) h = record {
    valid = h.valid;
    living = h.living;
    ticking = λ r. absurd cc;
    cleaning = λ r s. cc;
  }

  living : (ttl : ℤ) → 0 < (if is_pos ttl then pos_part ttl else default_ttl)
  living (pos zero) = omega arith
  living (pos (suc n)) = omega arith
  living (negsuc n) = omega arith

  -- Whatever requests, stops and cleanup steps happen to a new limiter, in any order: no key has two
  -- entries, no two entries share a `*rate.Limiter`, and each one's limiter is allocated; the time to
  -- live is positive; a cleanup goroutine that runs has a ticker; and one that does not run has been
  -- told to by `Stop`, or no positive rate was given. The condition: if the rate is positive, half the
  -- time to live is a positive interval, which excludes a time to live of one nanosecond, at which
  -- `NewTicker` panics.
  pub Reach-Inv :
      (heap : ℕ → Rate.Limiter R) (rps : Rate.Limit R) (burst : ℤ) (ttl : ℤ) (started : ℕ)
      {m : MemoryRateLimiter R}
      → (Rate.gt_zero R rps ≡ true
          → (d : ℕ) × (cleanup_interval R (new_memory_rate_limiter R heap rps burst ttl) ≡ some d))
      → Reach started (new_memory_rate_limiter R heap rps burst ttl) m
      → Inv m
  unfolding new_memory_rate_limiter
  Reach-Inv heap rps burst ttl started ticks here = record {
    valid = record { unique = tt; own = tt };
    living = living ttl;
    ticking = ticks;
    cleaning = λ r s. r;
  }
  Reach-Inv heap rps burst ttl started ticks (later r h) =
      Happens-Inv h (Reach-Inv heap rps burst ttl started ticks r)
