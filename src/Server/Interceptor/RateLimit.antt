-- ===== src/Server/Interceptor/RateLimit.antt =====
-- internal/server/interceptor/rate_limit.go: `MemoryRateLimiter` and `peerLimiters`. The token bucket
-- of golang.org/x/time/rate is the interface `Rate`. A `*rate.Limiter` is a number into a heap, since
-- a caller uses it after the lock is released; the map of entries is an association list. Times are
-- nanoseconds; `now` is what `time.Now` returns.
pub mod Keys
pub mod Buckets
pub mod Isolation
pub mod Concurrent
pub mod Stale
pub mod Tests
use grpc_template.Common.{
  ℕ, zero, suc, ◌+◌, ◌*◌, ◌/◌, ℤ, pos, is_pos, pos_part, Bool, true, false, not, Option, none, some,
  List, [], ◌∷◌, ◌++◌, Bytes, bytes_eq, ◌≡◌, ◌==◌, ◌≤◌, ltb, if◌then◌else◌,
}

-- A rate is a float64 with its two tests against zero, which are both false for NaN.
pub record Rate : Type 1 where
  pub Limit : Type 0
  pub gt_zero : Limit → Bool
  pub le_zero : Limit → Bool
  pub Limiter : Type 0
  pub new_limiter : Limit → ℤ → Limiter
  pub take_token : ℕ → Limiter → Bool × Limiter

pub record LimiterEntry : Type 0 where
  pub limiter : ℕ
  pub last_seen : ℕ

abbrev pub Entries : Type 0
Entries = List (Bytes × LimiterEntry)

pub lookup : Bytes → Entries → Option LimiterEntry
lookup k [] = none
lookup k ((j, e) ∷ es) = if bytes_eq j k then some e else lookup k es

-- `entry.lastSeen = now`, through the pointer in the map.
pub touch : Bytes → ℕ → Entries → Entries
touch k now [] = []
touch k now ((j, e) ∷ es) =
    if bytes_eq j k then (j, record e { last_seen = now }) ∷ es else (j, e) ∷ touch k now es

-- `entry.lastSeen.Before(now.Add(-ttl))`, without a negative number.
abbrev pub is_stale : ℕ → ℕ → LimiterEntry → Bool
is_stale ttl now e = ltb (e.last_seen + ttl) now

pub remove_stale : ℕ → ℕ → Entries → Entries
remove_stale ttl now [] = []
remove_stale ttl now ((j, e) ∷ es) =
    let rest = remove_stale ttl now es in if is_stale ttl now e then rest else (j, e) ∷ rest

-- `10 * time.Minute`
abbrev pub default_ttl : ℕ
default_ttl = 600_000_000_000

module _ (R : Rate) where
  pub record PeerLimiters : Type 0 where
    pub entries : Entries
    pub heap : ℕ → Rate.Limiter R
    pub next : ℕ

  pub record MemoryRateLimiter : Type 0 where
    pub limiters : PeerLimiters
    pub rate : Rate.Limit R
    pub burst : ℤ
    pub ttl : ℕ
    -- the channel `cleanupStop` is closed; the cleanup goroutine runs
    pub stopped : Bool
    pub running : Bool

  abbrev pub update : (ℕ → Rate.Limiter R) → ℕ → Rate.Limiter R → ℕ → Rate.Limiter R
  update h i l j = if j == i then l else h j

  -- `getLimiter`, which runs under the lock.
  pub get_limiter : Bytes → Rate.Limit R → ℤ → ℕ → PeerLimiters → ℕ × PeerLimiters
  unfolding lookup touch
  get_limiter key r burst now p = elim (lookup key p.entries) [
    | some e ↦ (e.limiter, record p { entries = touch key now p.entries })
    | none ↦ (
      p.next,
      record p {
        entries = (key, record { limiter = p.next; last_seen = now }) ∷ p.entries;
        heap = update p.heap p.next (Rate.new_limiter R r burst);
        next = suc p.next;
      },
    )
  ]

  -- `limiter.Allow()`, after the lock is released.
  pub take_at : ℕ → ℕ → PeerLimiters → Bool × PeerLimiters
  take_at i now p =
      let (allowed, l) = Rate.take_token R now (p.heap i) in
      (allowed, record p { heap = update p.heap i l })

  pub cleanup : ℕ → ℕ → PeerLimiters → PeerLimiters
  unfolding remove_stale
  cleanup ttl now p = record p { entries = remove_stale ttl now p.entries }

  -- `NewMemoryRateLimiter`; `heap` stands for memory not yet in use.
  unfoldable pub new_memory_rate_limiter :
      (ℕ → Rate.Limiter R) → Rate.Limit R → ℤ → ℤ → MemoryRateLimiter
  new_memory_rate_limiter heap rps burst ttl = record {
    limiters = record { entries = []; heap = heap; next = 0 };
    rate = rps;
    burst = burst;
    ttl = if is_pos ttl then pos_part ttl else default_ttl;
    stopped = false;
    running = Rate.gt_zero R rps;
  }

  -- `Allow`, with no other call between its two halves, each of which reads the clock.
  pub allow : Bytes → ℕ → ℕ → MemoryRateLimiter → Bool × MemoryRateLimiter
  unfolding get_limiter take_at
  allow key now taken m =
      if Rate.le_zero R m.rate
      then (true, m)
      else let (i, p) = get_limiter key m.rate m.burst now m.limiters in
        let (allowed, q) = take_at i taken p in (allowed, record m { limiters = q })

  -- `Stop` closes the channel once.
  unfoldable pub stop : MemoryRateLimiter → MemoryRateLimiter
  stop m = record m { stopped = true }

  -- `time.NewTicker(m.ttl / 2)`: the time between two ticks. `NewTicker` panics at zero, which is
  -- the half of one nanosecond.
  pub cleanup_interval : MemoryRateLimiter → Option ℕ
  cleanup_interval m = if m.ttl / 2 == 0 then none else some (m.ttl / 2)

  -- The time of the tick with the index `n` of a ticker that was made at `started`.
  abbrev pub tick_time : ℕ → ℕ → ℕ → ℕ
  tick_time started d n = started + suc n * d

  -- The limiter behind a cleanup.
  abbrev pub cleaned : ℕ → MemoryRateLimiter → MemoryRateLimiter
  cleaned now m = record m { limiters = cleanup m.ttl now m.limiters }

  -- What the cleanup goroutine, which made its ticker at `started`, may do next: handle a tick when
  -- it has come, or see the closed channel and end. With both ready, `select` takes either.
  pub data LoopStep (started : ℕ) : MemoryRateLimiter → MemoryRateLimiter → Type 0 where
    ticked :
        {m : MemoryRateLimiter} (d n now : ℕ)
        → m.running ≡ true
        → cleanup_interval m ≡ some d
        → tick_time started d n ≤ now
        → LoopStep started m (cleaned now m)
    ended :
        {m : MemoryRateLimiter} (d : ℕ)
        → m.running ≡ true
        → cleanup_interval m ≡ some d
        → m.stopped ≡ true
        → LoopStep started m (record m { running = false })
