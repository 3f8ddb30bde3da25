-- ===== src/Client/Interceptor/Backoff/Range.antt =====
-- The range of the wait that `backoffDuration` computes.
use grpc_template.Common.{
  ℕ, zero, suc, ◌+◌, ◌*◌, ◌/◌, ◌^◌, ◌≤◌, ◌<◌, ◌≡◌, refl, ℤ, pos, negsuc, arith, max_int64,
}
use native.Mathlib.Nat.{one-le-pow}
use grpc_template.Client.Interceptor.Backoff.{exp_backoff, with_jitter, backoff_duration}

-- What the program relies on of `rand.Int64N`: a value below the bound.
abbrev pub IsBelowBound : (ℕ → ℕ) → Type 0
IsBelowBound int64_n = (n : ℕ) → 0 < n → int64_n n < n

module _ (int64_n : ℕ → ℕ) (below : IsBelowBound int64_n) where
  with_jitter_bounds :
      (exp : ℕ) → (exp / 2 ≤ with_jitter int64_n exp) × (with_jitter int64_n exp ≤ exp)
  unfolding with_jitter
  with_jitter_bounds exp = ground (arith, below (exp / 2))

exp_backoff-le : (b a : ℕ) → exp_backoff b a ≤ max_int64
unfolding exp_backoff
exp_backoff-le b a = ground arith

product_pos : (b a : ℕ) → 0 < b → 0 < b * 2 ^ a
product_pos b a h = grind (arith, one-le-pow a 2 (omega arith))

exp_backoff_exact : (b a : ℕ) → a ≤ 62 → 0 < b → b * 2 ^ a < 2 ^ 63 → exp_backoff b a ≡ b * 2 ^ a
unfolding exp_backoff
exp_backoff_exact b a h p q = ground (arith, product_pos b a p)

exp_backoff_wraps :
    (b a k w : ℕ) → a ≤ 62 → b * 2 ^ a ≡ k * 2 ^ 64 + w → 0 < w → w < 2 ^ 63 → exp_backoff b a ≡ w
unfolding exp_backoff
exp_backoff_wraps b a k w h e p q = ground arith

-- For every base and attempt the wait is neither negative nor above the largest int64.
pub backoff_duration_bounds :
    (int64_n : ℕ → ℕ) (attempt : ℕ) (base : ℤ)
    → IsBelowBound int64_n
    → (d : ℕ) × (backoff_duration int64_n attempt base ≡ pos d) × (d ≤ max_int64)
unfolding backoff_duration
backoff_duration_bounds int64_n attempt (pos zero) h = (0, refl, omega arith)
backoff_duration_bounds int64_n attempt (negsuc n) h = (0, refl, omega arith)
backoff_duration_bounds int64_n attempt (pos (suc n)) h = (
  with_jitter int64_n (exp_backoff (suc n) attempt),
  refl,
  omega (
    arith,
    with_jitter_bounds int64_n h (exp_backoff (suc n) attempt),
    exp_backoff-le (suc n) attempt,
  ),
)

-- Where the product of a positive base and 2 ^ attempt fits an int64, and the attempt is at most
-- 62, the wait lies between half that product and the product, so between base / 2 and
-- base * 2 ^ attempt.
pub backoff_duration_range :
    (int64_n : ℕ → ℕ) (attempt base : ℕ)
    → IsBelowBound int64_n
    → attempt ≤ 62
    → 0 < base
    → base * 2 ^ attempt < 2 ^ 63
    → (d : ℕ) × (backoff_duration int64_n attempt (pos base) ≡ pos d)
      × (base * 2 ^ attempt / 2 ≤ d)
      × (base / 2 ≤ d)
      × (d ≤ base * 2 ^ attempt)
unfolding backoff_duration
backoff_duration_range int64_n attempt zero h a p q = absurd (omega arith)
backoff_duration_range int64_n attempt (suc n) h a p q =
    let exact = exp_backoff_exact (suc n) attempt a p q in
    let bounds = with_jitter_bounds int64_n h (suc n * 2 ^ attempt) in
    let grows : suc n ≤ suc n * 2 ^ attempt = grind (arith, one-le-pow attempt 2 (omega arith)) in
    (with_jitter int64_n (suc n * 2 ^ attempt), rw exact refl, bounds.0, omega arith, bounds.1)

-- Where the product wraps around to a positive int64, the overflow test does not see it: the wait
-- is at most the wrapped value, whatever the base is.
pub backoff_duration_wraps :
    (int64_n : ℕ → ℕ) (attempt base k w : ℕ)
    → IsBelowBound int64_n
    → attempt ≤ 62
    → 0 < base
    → base * 2 ^ attempt ≡ k * 2 ^ 64 + w
    → 0 < w
    → w < 2 ^ 63
    → (d : ℕ) × (backoff_duration int64_n attempt (pos base) ≡ pos d) × (d ≤ w)
unfolding backoff_duration
backoff_duration_wraps int64_n attempt zero k w h a p e lo hi = absurd (omega arith)
backoff_duration_wraps int64_n attempt (suc n) k w h a p e lo hi =
    let wrapped = exp_backoff_wraps (suc n) attempt k w a e lo hi in
    (with_jitter int64_n w, rw wrapped refl, (with_jitter_bounds int64_n h w).1)
