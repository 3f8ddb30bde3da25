-- ===== src/Server/Interceptor/RateLimit/Buckets.antt =====
-- The abstract view of the limiter: a token bucket for each key.
use grpc_template.Common.{
  ℕ, ℤ, ◌≡◌, Option, none, some, Bytes, bytes_eq, bytes_eq_iff, arith, inl, inr, if◌then◌else◌,
  Option-cases,
}
use grpc_template.Server.Interceptor.RateLimit.{
  Rate, LimiterEntry, lookup, PeerLimiters, get_limiter, take_at,
}
use grpc_template.Server.Interceptor.RateLimit.Keys.{
  HasUniqueKeys, HasOwnLimiters, lookup-touch, touch-HasUniqueKeys, touch-HasOwnLimiters,
  limiter-lt, limiter-ne, HasOwnLimiters-cons,
}

abbrev pub bucket_of : {A : Type 0} → (ℕ → A) → Option LimiterEntry → Option A
bucket_of heap none = none
bucket_of heap (some e) = some (heap e.limiter)

-- The bucket that a request of the key takes from: its own, or a new one.
abbrev pub or_new : (R : Rate) → Rate.Limit R → ℤ → Option (Rate.Limiter R) → Rate.Limiter R
or_new R r burst none = Rate.new_limiter R r burst
or_new R r burst (some l) = l

module _ (R : Rate) where
  pub record IsValid (p : PeerLimiters R) : Type 0 where
    pub unique : HasUniqueKeys p.entries
    pub own : HasOwnLimiters p.next p.entries

  -- The bucket of a key, if the key has an entry.
  abbrev pub bucket : Bytes → PeerLimiters R → Option (Rate.Limiter R)
  bucket k p = bucket_of p.heap (lookup k p.entries)

  module _ (key : Bytes) (r : Rate.Limit R) (burst : ℤ) (now : ℕ) (p : PeerLimiters R)
      (v : IsValid p) where
    pub get_limiter-IsValid : IsValid (get_limiter R key r burst now p).1
    unfolding get_limiter lookup
    get_limiter-IsValid = elim (Option-cases (lookup key p.entries)) [
      | inl e ↦
          rw (e, get_limiter)
            (record {
              unique = (e, v.unique);
              own = HasOwnLimiters-cons p.next now key p.entries v.own;
            })
      | inr (x, e) ↦
          rw (e, get_limiter)
            (record {
              unique = touch-HasUniqueKeys key now p.entries v.unique;
              own = touch-HasOwnLimiters key now p.next p.entries v.own;
            })
    ]

    -- The limiter that is returned is the key's, and no bucket changes but that the key has one.
    pub get_limiter-bucket :
        (j : Bytes)
        → bucket j (get_limiter R key r burst now p).1
          ≡ (if bytes_eq key j then some (or_new R r burst (bucket key p)) else bucket j p)
    unfolding get_limiter lookup
    get_limiter-bucket j = elim (Option-cases (lookup key p.entries)) [
      | inl e ↦ elim (Option-cases (lookup j p.entries)) [
        | inl f ↦ ground (arith, bytes_eq_iff key j)
        | inr (y, f) ↦
            ground (arith, bytes_eq_iff key j, limiter-lt p.next j p.entries {e = y} v.own)
      ]
      | inr (x, e) ↦ ground (arith, lookup-touch key j now p.entries, bytes_eq_iff key j)
    ]

    pub get_limiter-lookup :
        (x : LimiterEntry) × (lookup key (get_limiter R key r burst now p).1.entries ≡ some x)
        × ((get_limiter R key r burst now p).0 ≡ x.limiter)
    unfolding get_limiter lookup
    get_limiter-lookup = elim (Option-cases (lookup key p.entries)) [
      | inl e ↦ (
        record { limiter = p.next; last_seen = now },
        ground (arith, bytes_eq_iff key key),
        ground arith,
      )
      | inr (x, e) ↦ (
        record x { last_seen = now },
        ground (arith, lookup-touch key key now p.entries, bytes_eq_iff key key),
        ground arith,
      )
    ]

  module _ (key : Bytes) (now : ℕ) (p : PeerLimiters R) (v : IsValid p) where
    pub take_at-IsValid : (i : ℕ) → IsValid (take_at R i now p).1
    unfolding take_at
    take_at-IsValid i = record { unique = v.unique; own = v.own }

    -- A token taken from the key's limiter changes the key's bucket alone.
    pub take_at-bucket :
        (x : LimiterEntry) (j : Bytes)
        → lookup key p.entries ≡ some x
        → bucket j (take_at R x.limiter now p).1 ≡ (
            if bytes_eq key j
            then some (Rate.take_token R now (p.heap x.limiter)).1
            else bucket j p)
    unfolding take_at lookup
    take_at-bucket x j e = elim (Option-cases (lookup j p.entries)) [
      | inl f ↦ ground (arith, bytes_eq_iff key j)
      | inr (y, f) ↦
          ground
            (arith, bytes_eq_iff key j, limiter-ne p.next key j p.entries {e = x} {f = y} v.own)
    ]
