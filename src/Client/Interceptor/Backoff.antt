-- ===== src/Client/Interceptor/Backoff.antt =====
-- internal/client/interceptor/retry.go, `backoffDuration`: the wait before the next attempt. A time.Duration is an
-- int64 count of nanoseconds; `rand.Int64N` is the argument `int64_n`.
pub mod Range
mod Tests
use grpc_template.Common.{
  ℕ, ◌+◌, ◌*◌, ◌/◌, ◌%◌, ◌^◌, Bool, true, false, ℤ, pos, negsuc, is_pos, pos_part, signed64,
  max_int64, ltb, not, if◌then◌else◌,
}

abbrev pub max_backoff_shift : ℕ
max_backoff_shift = 62

-- `attempt`, cut at the largest safe shift.
pub shift_of : ℕ → ℕ
shift_of attempt = if ltb max_backoff_shift attempt then max_backoff_shift else attempt

-- `base * time.Duration(int64(1)<<uint(attempt))` for a positive base, as an int64.
pub shifted : ℕ → ℕ → ℤ
unfolding shift_of
shifted base attempt = signed64 (base * 2 ^ shift_of attempt % 2 ^ 64)

-- The product, or the largest int64 where the product is not positive.
pub exp_backoff : ℕ → ℕ → ℕ
unfolding shifted
exp_backoff base attempt =
    if is_pos (shifted base attempt) then pos_part (shifted base attempt) else max_int64

pub with_jitter : (ℕ → ℕ) → ℕ → ℕ
with_jitter int64_n exp = if ltb 0 (exp / 2) then exp / 2 + int64_n (exp / 2) else exp

pub backoff_duration : (ℕ → ℕ) → ℕ → ℤ → ℤ
unfolding with_jitter exp_backoff
backoff_duration int64_n attempt base =
    if is_pos base then pos (with_jitter int64_n (exp_backoff (pos_part base) attempt)) else pos 0
