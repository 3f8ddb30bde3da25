-- ===== src/Server/Interceptor/RateLimit/Keys.antt =====
-- The map of entries: unique keys, a limiter of its own for each key, and the effect of each update.
use mathlib.Core.Option
use grpc_template.Common.{
  ℕ, suc, ◌<◌, ◌≡◌, refl, ◌≢◌, Option, none, some, [], ◌∷◌, Bytes, bytes_eq, bytes_eq_iff, All,
  arith, if◌then◌else◌,
}
use grpc_template.Server.Interceptor.RateLimit.{
  Entries, LimiterEntry, lookup, touch, is_stale, remove_stale,
}

abbrev pub HasUniqueKeys : Entries → Type 0
HasUniqueKeys [] = Unit
HasUniqueKeys ((k, e) ∷ es) = (lookup k es ≡ none) × HasUniqueKeys es

-- No key's limiter is another's, and every limiter has been allocated.
abbrev pub HasOwnLimiters : ℕ → Entries → Type 0
HasOwnLimiters next [] = Unit
HasOwnLimiters next ((k, e) ∷ es) =
    (e.limiter < next) × All (λ x. x.1.limiter ≢ e.limiter) es × HasOwnLimiters next es

abbrev pub seen_at : ℕ → LimiterEntry → LimiterEntry
seen_at now e = record e { last_seen = now }

pub lookup-touch :
    (k j : Bytes) (now : ℕ) (es : Entries)
    → lookup j (touch k now es)
      ≡ (if bytes_eq k j then Option.map (seen_at now) (lookup j es) else lookup j es)
unfolding lookup touch
lookup-touch k j now [] = ground arith
lookup-touch k j now ((i, e) ∷ es) =
    ground (arith, bytes_eq_iff k j, bytes_eq_iff i k, bytes_eq_iff i j, lookup-touch k j now es)

pub touch-HasUniqueKeys :
    (k : Bytes) (now : ℕ) (es : Entries) → HasUniqueKeys es → HasUniqueKeys (touch k now es)
unfolding touch
touch-HasUniqueKeys k now [] h = tt
touch-HasUniqueKeys k now ((i, e) ∷ es) h =
    ground (arith, touch-HasUniqueKeys k now es h.1, lookup-touch k i now es, bytes_eq_iff k i)

touch_limiters :
    (k : Bytes) (now n : ℕ) (es : Entries)
    → All (λ x. x.1.limiter ≢ n) es
    → All (λ x. x.1.limiter ≢ n) (touch k now es)
unfolding touch
touch_limiters k now n [] h = tt
touch_limiters k now n ((i, e) ∷ es) h = ground (arith, touch_limiters k now n es h.1)

pub touch-HasOwnLimiters :
    (k : Bytes) (now next : ℕ) (es : Entries)
    → HasOwnLimiters next es
    → HasOwnLimiters next (touch k now es)
unfolding touch
touch-HasOwnLimiters k now next [] h = tt
touch-HasOwnLimiters k now next ((i, e) ∷ es) h =
    ground (arith, touch-HasOwnLimiters k now next es h.2, touch_limiters k now e.limiter es h.1)

lookup-remove_stale-none :
    (k : Bytes) (ttl now : ℕ) (es : Entries)
    → lookup k es ≡ none
    → lookup k (remove_stale ttl now es) ≡ none
unfolding lookup remove_stale
lookup-remove_stale-none k ttl now [] h = refl
lookup-remove_stale-none k ttl now ((i, e) ∷ es) h =
    ground (arith, lookup-remove_stale-none k ttl now es)

-- An entry, if it is not stale.
abbrev pub if_fresh : ℕ → ℕ → Option LimiterEntry → Option LimiterEntry
if_fresh ttl now none = none
if_fresh ttl now (some e) = if is_stale ttl now e then none else some e

pub lookup-remove_stale :
    (k : Bytes) (ttl now : ℕ) (es : Entries)
    → HasUniqueKeys es
    → lookup k (remove_stale ttl now es) ≡ if_fresh ttl now (lookup k es)
unfolding lookup remove_stale
lookup-remove_stale k ttl now [] h = refl
lookup-remove_stale k ttl now ((i, e) ∷ es) h = ground (
  arith,
  lookup-remove_stale k ttl now es h.1,
  lookup-remove_stale-none k ttl now es,
  bytes_eq_iff i k,
)

pub remove_stale-HasUniqueKeys :
    (ttl now : ℕ) (es : Entries) → HasUniqueKeys es → HasUniqueKeys (remove_stale ttl now es)
unfolding remove_stale
remove_stale-HasUniqueKeys ttl now [] h = tt
remove_stale-HasUniqueKeys ttl now ((i, e) ∷ es) h =
    ground (arith, remove_stale-HasUniqueKeys ttl now es h.1, lookup-remove_stale-none i ttl now es)

remove_stale_limiters :
    (ttl now n : ℕ) (es : Entries)
    → All (λ x. x.1.limiter ≢ n) es
    → All (λ x. x.1.limiter ≢ n) (remove_stale ttl now es)
unfolding remove_stale
remove_stale_limiters ttl now n [] h = tt
remove_stale_limiters ttl now n ((i, e) ∷ es) h =
    ground (arith, remove_stale_limiters ttl now n es h.1)

pub remove_stale-HasOwnLimiters :
    (ttl now next : ℕ) (es : Entries)
    → HasOwnLimiters next es
    → HasOwnLimiters next (remove_stale ttl now es)
unfolding remove_stale
remove_stale-HasOwnLimiters ttl now next [] h = tt
remove_stale-HasOwnLimiters ttl now next ((i, e) ∷ es) h = ground (
  arith,
  remove_stale-HasOwnLimiters ttl now next es h.2,
  remove_stale_limiters ttl now e.limiter es h.1,
)

limiter_ne_of_All :
    (n : ℕ) (k : Bytes) (es : Entries) {e : LimiterEntry}
    → All (λ x. x.1.limiter ≢ n) es
    → lookup k es ≡ some e
    → e.limiter ≢ n
unfolding lookup
limiter_ne_of_All n k [] h l = cc
limiter_ne_of_All n k ((i, f) ∷ es) {e} h l = ground (arith, limiter_ne_of_All n k es {e = e} h.1)

pub limiter-lt :
    (next : ℕ) (k : Bytes) (es : Entries) {e : LimiterEntry}
    → HasOwnLimiters next es
    → lookup k es ≡ some e
    → e.limiter < next
unfolding lookup
limiter-lt next k [] h l = cc
limiter-lt next k ((i, f) ∷ es) {e} h l = ground (arith, limiter-lt next k es {e = e} h.2)

pub limiter-ne :
    (next : ℕ) (k j : Bytes) (es : Entries) {e f : LimiterEntry}
    → HasOwnLimiters next es
    → k ≢ j
    → lookup k es ≡ some e
    → lookup j es ≡ some f
    → e.limiter ≢ f.limiter
unfolding lookup
limiter-ne next k j [] h n l m = cc
limiter-ne next k j ((i, g) ∷ es) {e} {f} h n l m = ground (
  arith,
  limiter-ne next k j es {e = e} {f = f} h.2 n,
  limiter_ne_of_All g.limiter k es {e = e} h.1,
  limiter_ne_of_All g.limiter j es {e = f} h.1,
  bytes_eq_iff i k,
  bytes_eq_iff i j,
)

limiters_ne_next :
    (next : ℕ) (es : Entries) → HasOwnLimiters next es → All (λ x. x.1.limiter ≢ next) es
limiters_ne_next next [] h = tt
limiters_ne_next next ((i, g) ∷ es) h = (omega arith, limiters_ne_next next es h.2)

HasOwnLimiters-suc :
    (next : ℕ) (es : Entries) → HasOwnLimiters next es → HasOwnLimiters (suc next) es
HasOwnLimiters-suc next [] h = tt
HasOwnLimiters-suc next ((i, g) ∷ es) h = (omega arith, h.1, HasOwnLimiters-suc next es h.2)

pub HasOwnLimiters-cons :
    (next now : ℕ) (k : Bytes) (es : Entries)
    → HasOwnLimiters next es
    → HasOwnLimiters (suc next) ((k, record { limiter = next; last_seen = now }) ∷ es)
HasOwnLimiters-cons next now k es h =
    (omega arith, limiters_ne_next next es h, HasOwnLimiters-suc next es h)
