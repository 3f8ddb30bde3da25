-- ===== src/Server/Interceptor/RateLimit/Stale.antt =====
-- How soon an idle entry is removed.
use native.Mathlib.Nat.{div-add-mod, mod-lt}
use grpc_template.Common.{
  ℕ, ◌+◌, ◌*◌, ◌/◌, ◌-◌, ◌≤◌, ◌<◌, ◌≡◌, ◌∙◌, suc, true, none, some, Bytes, arith, lt→ltb,
}
use grpc_template.Server.Interceptor.RateLimit.{
  Rate, LimiterEntry, PeerLimiters, MemoryRateLimiter, lookup, cleanup, cleanup_interval, tick_time,
  cleaned, LoopStep, ticked,
}
use grpc_template.Server.Interceptor.RateLimit.Keys.{lookup-remove_stale, if_fresh}
use grpc_template.Server.Interceptor.RateLimit.Buckets.{IsValid}

module _ (R : Rate) (p : PeerLimiters R) (v : IsValid R p) where
  -- A cleanup keeps exactly the entries that were seen within the time to live, and changes none.
  pub lookup-cleanup :
      (k : Bytes) (ttl now : ℕ)
      → lookup k (cleanup R ttl now p).entries ≡ if_fresh ttl now (lookup k p.entries)
  unfolding cleanup
  lookup-cleanup k ttl now = lookup-remove_stale k ttl now p.entries v.unique

tick_after : (d x : ℕ) → 0 < d → (x < suc (x / d) * d) × (suc (x / d) * d ≤ x + d)
tick_after d x h = omega (arith, div-add-mod x d, mod-lt x h)

module _ (R : Rate) where
  pub interval-half :
      (m : MemoryRateLimiter R) (d : ℕ) → cleanup_interval R m ≡ some d → (0 < d) × (d ≡ m.ttl / 2)
  unfolding cleanup_interval
  interval-half m d h = (ground arith, ground arith)

  module _ (m : MemoryRateLimiter R) (k : Bytes) (e : LimiterEntry) (v : IsValid R m.limiters)
      (found : lookup k m.limiters.entries ≡ some e) where
    stale_removed :
        (now : ℕ) → e.last_seen + m.ttl < now → lookup k (cleaned R now m).limiters.entries ≡ none
    stale_removed now late =
        rw (lookup-cleanup R m.limiters v k m.ttl now, found) (rw (lt→ltb _ _ late))

    fresh_kept :
        (now : ℕ) → now ≤ e.last_seen + m.ttl → lookup k (cleaned R now m).limiters.entries ≡ some e
    fresh_kept now soon = lookup-cleanup R m.limiters v k m.ttl now ∙ rw found (ground arith)

  -- An entry that is last seen at some time and then left alone is kept by every cleanup that comes
  -- within the time to live, and there is a tick later than that, but at most half the time to live
  -- later, so within 1.5 times the time to live after the entry was seen: the cleanup goroutine can
  -- handle it, and whenever it does, the entry is removed. The conditions: the goroutine runs and has
  -- made its ticker, before the entry became stale; the limiter's entries are valid, which they are
  -- at all times.
  pub removed_in_time :
      (m : MemoryRateLimiter R) (k : Bytes) (e : LimiterEntry) (started d : ℕ)
      → IsValid R m.limiters
      → lookup k m.limiters.entries ≡ some e
      → m.running ≡ true
      → cleanup_interval R m ≡ some d
      → started ≤ e.last_seen + m.ttl
      → ((now : ℕ)
          → now ≤ e.last_seen + m.ttl
          → lookup k (cleaned R now m).limiters.entries ≡ some e)
        × (n : ℕ) × (e.last_seen + m.ttl < tick_time R started d n)
        × (tick_time R started d n ≤ e.last_seen + m.ttl + m.ttl / 2)
        × ((now : ℕ)
            → tick_time R started d n ≤ now
            → LoopStep R started m (cleaned R now m)
              × (lookup k (cleaned R now m).limiters.entries ≡ none))
  removed_in_time m k e started d v found run made old =
      let (positive, half) = interval-half m d made in
      let x = e.last_seen + m.ttl - started in
      let (after, soon) = tick_after d x positive in
      (
        fresh_kept m k e v found,
        x / d,
        omega arith,
        omega arith,
        λ now due.
            (ticked d (x / d) now run made due, stale_removed m k e v found now (omega arith)),
      )
