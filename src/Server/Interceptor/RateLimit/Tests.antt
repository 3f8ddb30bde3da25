-- ===== src/Server/Interceptor/RateLimit/Tests.antt =====
-- Runs of the memory limiter with a bucket that only counts tokens.
use grpc_template.Common.{
  ℕ, zero, suc, ◌+◌, ◌/◌, ◌≤◌, ◌<◌, ◌≡◌, refl, Bool, true, false, none, some, [], ◌∷◌, Bytes, codes,
  bytes_eq, ltb, pos, pos_part, arith, if◌then◌else◌,
}
use grpc_template.Server.Interceptor.RateLimit.{
  Rate, MemoryRateLimiter, PeerLimiters, lookup, allow, stop, cleanup, new_memory_rate_limiter,
  get_limiter, take_at, cleanup_interval, tick_time, cleaned, LoopStep,
}
use grpc_template.Server.Interceptor.RateLimit.Buckets.{IsValid, bucket}
use grpc_template.Server.Interceptor.RateLimit.Isolation.{
  allow-bucket, Inv, here, later, requested, stops, Reach-Inv,
}
use grpc_template.Server.Interceptor.RateLimit.Concurrent.{
  Shared, fresh_shared, with_limiters, entered_at, Reach-bucket, enters, takes, requests, cleans,
}
use grpc_template.Server.Interceptor.RateLimit.Concurrent
use grpc_template.Server.Interceptor.RateLimit.Stale.{removed_in_time}

abbrev spend : ℕ → ℕ → Bool × ℕ
spend now zero = (false, zero)
spend now (suc n) = (true, n)

abbrev pub counting : Rate
counting = record {
  Limit = ℕ;
  gt_zero = λ r. ltb 0 r;
  le_zero = λ r. if ltb 0 r then false else true;
  Limiter = ℕ;
  new_limiter = λ r burst. pos_part burst;
  take_token = spend;
}

abbrev pub fresh : MemoryRateLimiter counting
fresh = record {
  limiters = record { entries = []; heap = λ i. 0; next = 0 };
  rate = 1;
  burst = pos 1;
  ttl = 10;
  stopped = false;
  running = true;
}

-- The second request of a peer is refused, and another peer's first one is not.
one_each :
    ((allow counting (codes "a") 2 2 (allow counting (codes "a") 1 1 fresh).1).0 ≡ false)
    × ((allow counting (codes "b") 2 2 (allow counting (codes "a") 1 1 fresh).1).0 ≡ true)
unfolding allow
one_each = (refl, refl)

empty-IsValid : IsValid counting fresh.limiters
empty-IsValid = record { unique = tt; own = tt }

allow-bucket_example :
    ((allow counting (codes "a") 1 1 fresh).0 ≡ true)
    × IsValid counting (allow counting (codes "a") 1 1 fresh).1.limiters
    × ((j : Bytes)
        → bucket counting j (allow counting (codes "a") 1 1 fresh).1.limiters
          ≡ (if bytes_eq (codes "a") j then some 0 else none))
unfolding lookup
allow-bucket_example = allow-bucket counting (codes "a") 1 1 fresh empty-IsValid refl

abbrev made : MemoryRateLimiter counting
made = new_memory_rate_limiter counting (λ i. 0) 1 (pos 1) (pos 10)

Reach-Inv_example : Inv counting (stop counting (allow counting (codes "a") 1 1 made).1)
unfolding cleanup_interval new_memory_rate_limiter
Reach-Inv_example =
    Reach-Inv counting (λ i. 0) 1 (pos 1) (pos 10) 0 (λ positive. (5, refl))
      (later (later here (requested (codes "a") 1 1)) stops)

abbrev seen : PeerLimiters counting
seen = record {
  entries = (codes "a", record { limiter = 0; last_seen = 25 }) ∷ [];
  heap = λ i. 1;
  next = 1;
}

seen-IsValid : IsValid counting seen
unfolding lookup
seen-IsValid = record { unique = (refl, tt); own = (omega arith, tt, tt) }

abbrev idle : MemoryRateLimiter counting
idle = record fresh { limiters = seen }

removed_in_time_example :
    ((now : ℕ)
      → now ≤ 25 + 10
      → lookup (codes "a") (cleaned counting now idle).limiters.entries
        ≡ some (record { limiter = 0; last_seen = 25 }))
    × (n : ℕ) × (25 + 10 < tick_time counting 3 5 n)
    × (tick_time counting 3 5 n ≤ 25 + 10 + 10 / 2)
    × ((now : ℕ)
        → tick_time counting 3 5 n ≤ now
        → LoopStep counting 3 idle (cleaned counting now idle)
          × (lookup (codes "a") (cleaned counting now idle).limiters.entries ≡ none))
unfolding lookup cleanup_interval
removed_in_time_example =
    removed_in_time counting idle (codes "a") (record { limiter = 0; last_seen = 25 }) 3 5
      seen-IsValid refl refl refl (omega arith)

abbrev clear : Shared counting
clear = fresh_shared counting (λ i. 0) 1 (pos 1) (pos 10)

abbrev entered : Shared counting
entered =
    with_limiters counting clear (entered_at counting (codes "a") 5 clear).1
      ((codes "a", (entered_at counting (codes "a") 5 clear).0) ∷ [])

abbrev swept : Shared counting
swept =
    with_limiters counting entered (cleanup counting 10 50 entered.limiter.limiters) entered.flights

abbrev landed : Shared counting
landed = with_limiters counting swept (take_at counting 0 51 swept.limiter.limiters).1 []

-- A request that takes its token after its entry has been removed.
Reach-bucket_example :
    bucket counting (codes "b") landed.limiter.limiters
    ≡ bucket counting (codes "b") swept.limiter.limiters
unfolding get_limiter new_memory_rate_limiter
Reach-bucket_example =
    Reach-bucket counting (λ i. 0) 1 (pos 1) (pos 10) (codes "a") (codes "b")
      (Concurrent.later (Concurrent.later Concurrent.here (requests (codes "a") (enters 5 refl)))
        (cleans 50))
      (takes 51 0 [] [] refl) (λ e. ground arith)
