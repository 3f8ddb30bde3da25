-- ===== src/Server/Interceptor/RateLimit/Concurrent.antt =====
-- internal/server/interceptor/rate_limit.go: `Allow` of many requests at a time. A request holds the
-- lock in `getLimiter` alone; the token is taken behind it, from the limiter that was returned, and
-- other requests and the cleanup may run in between.
use grpc_template.Common.{
  ℕ, suc, ◌<◌, ◌≡◌, ◌∙◌, subst, ◌≢◌, inl, inr, false, some, Option-cases, List, [], ◌∷◌, ◌++◌,
  Bytes, bytes_eq_iff, All, All-imp, arith, ◌==◌, if◌then◌else◌, ℤ,
}
use grpc_template.Server.Interceptor.RateLimit.{
  Rate, Entries, LimiterEntry, PeerLimiters, MemoryRateLimiter, lookup, touch, remove_stale,
  get_limiter, take_at, cleanup, new_memory_rate_limiter, stop,
}
use grpc_template.Server.Interceptor.RateLimit.Buckets.{
  IsValid, bucket, get_limiter-IsValid, get_limiter-bucket, take_at-IsValid,
}
use grpc_template.Server.Interceptor.RateLimit.Isolation.{cleanup-IsValid}

-- The limiter is a key's, and has been allocated.
abbrev Owns : (ℕ → Bytes) → ℕ → Bytes → ℕ → Type 0
Owns owner next k i = (owner i ≡ k) × (i < next)

abbrev EntriesOwned : (ℕ → Bytes) → ℕ → Entries → Type 0
EntriesOwned owner next es = All (λ x. Owns owner next x.0 x.1.limiter) es

-- A request between its two halves: its key and the limiter that it was given.
abbrev pub Flight : Type 0
Flight = Bytes × ℕ

abbrev FlightsOwned : (ℕ → Bytes) → ℕ → List Flight → Type 0
FlightsOwned owner next fs = All (λ x. Owns owner next x.0 x.1) fs

-- A new limiter is given to a key.
abbrev give : (ℕ → Bytes) → ℕ → Bytes → ℕ → Bytes
give owner n k i = if i == n then k else owner i

Owns-give :
    (owner : ℕ → Bytes) (n : ℕ) (j k : Bytes) (i : ℕ)
    → Owns owner n k i
    → Owns (give owner n j) (suc n) k i
Owns-give owner n j k i h = ground arith

touch-EntriesOwned :
    (owner : ℕ → Bytes) (n : ℕ) (k : Bytes) (now : ℕ) (es : Entries)
    → EntriesOwned owner n es
    → EntriesOwned owner n (touch k now es)
unfolding touch
touch-EntriesOwned owner n k now [] h = tt
touch-EntriesOwned owner n k now ((i, e) ∷ es) h =
    ground (arith, touch-EntriesOwned owner n k now es h.1)

remove_stale-EntriesOwned :
    (owner : ℕ → Bytes) (n ttl now : ℕ) (es : Entries)
    → EntriesOwned owner n es
    → EntriesOwned owner n (remove_stale ttl now es)
unfolding remove_stale
remove_stale-EntriesOwned owner n ttl now [] h = tt
remove_stale-EntriesOwned owner n ttl now ((i, e) ∷ es) h =
    ground (arith, remove_stale-EntriesOwned owner n ttl now es h.1)

lookup-Owns :
    (owner : ℕ → Bytes) (n : ℕ) (k : Bytes) (es : Entries) (e : LimiterEntry)
    → EntriesOwned owner n es
    → lookup k es ≡ some e
    → Owns owner n k e.limiter
unfolding lookup
lookup-Owns owner n k [] e h l = cc
lookup-Owns owner n k ((j, x) ∷ es) e h l =
    ground (arith, bytes_eq_iff j k, lookup-Owns owner n k es e h.1)

flights_at :
    (owner : ℕ → Bytes) (fs : List Flight) (n m : ℕ)
    → n ≡ m
    → FlightsOwned owner n fs
    → FlightsOwned owner m fs
flights_at owner fs n m e h = subst (λ k. FlightsOwned owner k fs) e h

module _ (R : Rate) where
  -- The limiter with the requests that are under way.
  pub record Shared : Type 0 where
    pub limiter : MemoryRateLimiter R
    pub flights : List Flight

  abbrev pub with_limiters : Shared → PeerLimiters R → List Flight → Shared
  with_limiters s p fs = record { limiter = record (s.limiter) { limiters = p }; flights = fs }

  abbrev pub entered_at : Bytes → ℕ → Shared → ℕ × PeerLimiters R
  entered_at key now s = get_limiter R key s.limiter.rate s.limiter.burst now s.limiter.limiters

  -- The two halves of a request of a key.
  pub data Request (key : Bytes) : Shared → Shared → Type 0 where
    enters :
        {s : Shared} (now : ℕ)
        → Rate.le_zero R s.limiter.rate ≡ false
        → Request key s
            (with_limiters s (entered_at key now s).1 ((key, (entered_at key now s).0) ∷ s.flights))
    takes :
        {s : Shared} (now i : ℕ) (before behind : List Flight)
        → s.flights ≡ before ++ ((key, i) ∷ behind)
        → Request key s (with_limiters s (take_at R i now s.limiter.limiters).1 (before ++ behind))

  -- Everything that may happen, in any order.
  pub data Step : Shared → Shared → Type 0 where
    requests : {s t : Shared} (key : Bytes) → Request key s t → Step s t
    cleans :
        {s : Shared} (now : ℕ)
        → Step s (with_limiters s (cleanup R s.limiter.ttl now s.limiter.limiters) s.flights)
    stops : {s : Shared} → Step s (record s { limiter = stop R s.limiter })

  pub data Reach (s : Shared) : Shared → Type 0 where
    here : Reach s s
    later : {t u : Shared} → Reach s t → Step t u → Reach s u

  -- Every limiter in use is of one key, whoever has it.
  record Inv (p : PeerLimiters R) (fs : List Flight) : Type 0 where
    valid : IsValid R p
    owner : ℕ → Bytes
    entries : EntriesOwned owner p.next p.entries
    flights : FlightsOwned owner p.next fs

  get_limiter-Inv :
      (key : Bytes) (r : Rate.Limit R) (burst : ℤ) (now : ℕ) (p : PeerLimiters R) (fs : List Flight)
      → Inv p fs
      → let (i, q) = get_limiter R key r burst now p in Inv q ((key, i) ∷ fs)
  unfolding get_limiter
  get_limiter-Inv key r burst now p fs v = elim (Option-cases (lookup key p.entries)) [
    | inl e ↦ record {
      valid = get_limiter-IsValid R key r burst now p v.valid;
      owner = give v.owner p.next key;
      entries =
          rw (e, get_limiter)
            (
              ground arith,
              All-imp p.entries (λ x h. Owns-give v.owner p.next key x.0 x.1.limiter h) v.entries,
            );
      flights = (
        rw (e, get_limiter) (ground arith),
        flights_at (give v.owner p.next key) fs (suc p.next) _ (rw (e, get_limiter))
            (All-imp fs (λ x h. Owns-give v.owner p.next key x.0 x.1 h) v.flights),
      );
    }
    | inr (x, e) ↦ record {
      valid = get_limiter-IsValid R key r burst now p v.valid;
      owner = v.owner;
      entries = rw (e, get_limiter) (touch-EntriesOwned v.owner p.next key now p.entries v.entries);
      flights = (
        rw (e, get_limiter) (lookup-Owns v.owner p.next key p.entries x v.entries e),
        flights_at v.owner fs p.next _ (rw (e, get_limiter)) v.flights,
      );
    }
  ]

  -- A request that has landed.
  All-without :
      (P : Flight → Type 0) (before : List Flight) (x : Flight) (behind : List Flight)
      → All P (before ++ (x ∷ behind))
      → P x × All P (before ++ behind)
  All-without P [] x behind h = h
  All-without P (y ∷ before) x behind (p, h) =
      let (px, rest) = All-without P before x behind h in (px, (p, rest))

  take_at-Inv :
      (now i : ℕ) (p : PeerLimiters R) (fs gs : List Flight)
      → Inv p fs
      → ((owner : ℕ → Bytes) → FlightsOwned owner p.next fs → FlightsOwned owner p.next gs)
      → Inv (take_at R i now p).1 gs
  unfolding take_at
  take_at-Inv now i p fs gs v keep = record {
    valid = take_at-IsValid R [] now p v.valid i;
    owner = v.owner;
    entries = v.entries;
    flights = keep v.owner v.flights;
  }

  cleanup-Inv :
      (ttl now : ℕ) (p : PeerLimiters R) (fs : List Flight)
      → Inv p fs
      → Inv (cleanup R ttl now p) fs
  unfolding cleanup
  cleanup-Inv ttl now p fs v = record {
    valid = cleanup-IsValid R ttl now p v.valid;
    owner = v.owner;
    entries = remove_stale-EntriesOwned v.owner p.next ttl now p.entries v.entries;
    flights = v.flights;
  }

  abbrev IsSafe : Shared → Type 0
  IsSafe s = Inv s.limiter.limiters s.flights

  Request-IsSafe : {key : Bytes} {s t : Shared} → Request key s t → IsSafe s → IsSafe t
  Request-IsSafe {key} {s = s} (enters now on) v =
      get_limiter-Inv key s.limiter.rate s.limiter.burst now s.limiter.limiters s.flights v
  Request-IsSafe {key} {s = s} (takes now i before behind e) v =
      take_at-Inv now i s.limiter.limiters s.flights (before ++ behind) v
        (λ owner h. (All-without _ before (key, i) behind (subst (FlightsOwned owner _) e h)).1)

  Step-IsSafe : {s t : Shared} → Step s t → IsSafe s → IsSafe t
  unfolding stop
  Step-IsSafe (requests key r) v = Request-IsSafe r v
  Step-IsSafe {s} (cleans now) v = cleanup-Inv s.limiter.ttl now s.limiter.limiters s.flights v
  Step-IsSafe stops v = v

  -- A limiter without entries and without requests.
  abbrev pub fresh_shared : (ℕ → Rate.Limiter R) → Rate.Limit R → ℤ → ℤ → Shared
  fresh_shared heap rps burst ttl = record {
    limiter = new_memory_rate_limiter R heap rps burst ttl;
    flights = [];
  }

  module _ (heap : ℕ → Rate.Limiter R) (rps : Rate.Limit R) (burst : ℤ) (ttl : ℤ) where
    Reach-IsSafe : {s : Shared} → Reach (fresh_shared heap rps burst ttl) s → IsSafe s
    unfolding new_memory_rate_limiter
    Reach-IsSafe here = record {
      valid = record { unique = tt; own = tt };
      owner = λ i. [];
      entries = tt;
      flights = tt;
    }
    Reach-IsSafe (later r st) = Step-IsSafe st (Reach-IsSafe r)

  take_at-bucket_other :
      (now i : ℕ) (p : PeerLimiters R) (owner : ℕ → Bytes) (j : Bytes)
      → EntriesOwned owner p.next p.entries
      → owner i ≢ j
      → bucket R j (take_at R i now p).1 ≡ bucket R j p
  unfolding take_at
  take_at-bucket_other now i p owner j h ne = elim (Option-cases (lookup j p.entries)) [
    | inl e ↦ rw e
    | inr (x, e) ↦ ground (arith, lookup-Owns owner p.next j p.entries x h e)
  ]

  Request-bucket :
      {key : Bytes} {s t : Shared}
      → Request key s t
      → IsSafe s
      → (j : Bytes) → j ≢ key
      → bucket R j t.limiter.limiters ≡ bucket R j s.limiter.limiters
  Request-bucket {key} {s = s} (enters now on) v j ne =
      let p = s.limiter.limiters in
      get_limiter-bucket R key s.limiter.rate s.limiter.burst now p v.valid j
      ∙ ground (arith, bytes_eq_iff key j)
  Request-bucket {key} {s = s} (takes now i before behind e) v j ne =
      let p = s.limiter.limiters in
      let owned =
        (All-without _ before (key, i) behind (subst (FlightsOwned v.owner _) e v.flights)).0 in
      take_at-bucket_other now i p v.owner j v.entries (ground arith)

  -- Whatever requests have begun and ended, in any order and with cleanups and stops in between, the
  -- next half of a request of a key leaves the token bucket of every other key as it is.
  pub Reach-bucket :
      (heap : ℕ → Rate.Limiter R) (rps : Rate.Limit R) (burst : ℤ) (ttl : ℤ) (key j : Bytes)
      {s t : Shared}
      → Reach (fresh_shared heap rps burst ttl) s
      → Request key s t
      → j ≢ key
      → bucket R j t.limiter.limiters ≡ bucket R j s.limiter.limiters
  Reach-bucket heap rps burst ttl key j r step ne =
      Request-bucket step (Reach-IsSafe heap rps burst ttl r) j ne
