-- ===== src/Client/Interceptor/Backoff/Tests.antt =====
-- Runs of the backoff.
use grpc_template.Common.{ℕ, ◌-◌, ◌*◌, ◌/◌, ◌^◌, ◌≤◌, ◌≡◌, refl, pos, negsuc, arith}
use grpc_template.Client.Interceptor.Backoff.{backoff_duration}
use grpc_template.Client.Interceptor.Backoff.Range.{
  IsBelowBound, backoff_duration_range, backoff_duration_wraps,
}

third_attempt : backoff_duration (λ n. 7) 2 (pos 1000) ≡ pos 2007
unfolding backoff_duration
third_attempt = refl

no_base : backoff_duration (λ n. 7) 2 (negsuc 4) ≡ pos 0
unfolding backoff_duration
no_base = refl

abbrev largest : ℕ → ℕ
largest n = n - 1

largest-IsBelowBound : IsBelowBound largest
largest-IsBelowBound n h = omega arith

backoff_duration_range_example :
    (d : ℕ) × (backoff_duration largest 3 (pos 1000) ≡ pos d)
    × (1000 * 2 ^ 3 / 2 ≤ d)
    × (1000 / 2 ≤ d)
    × (d ≤ 1000 * 2 ^ 3)
backoff_duration_range_example =
    backoff_duration_range largest 3 1000 largest-IsBelowBound (omega arith) (omega arith)
      (omega arith)

-- A base of about 8.6 s waits at most 2.2 s at the attempt 31, less than half the base.
backoff_duration_wraps_example :
    (d : ℕ) × (backoff_duration largest 31 (pos 8589934593) ≡ pos d) × (d ≤ 2147483648)
backoff_duration_wraps_example =
    backoff_duration_wraps largest 31 8589934593 1 2147483648 largest-IsBelowBound (omega arith)
      (omega arith) refl (omega arith) (omega arith)
