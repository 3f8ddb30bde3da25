-- ===== src/Client/Interceptor/Retry/Tests.antt =====
-- Runs of `Retry`.
use grpc_template.Common.{
  ℕ, ◌+◌, ◌≤◌, ◌<◌, ◌≡◌, refl, ℤ, pos, none, some, [], ◌∷◌, arith, ltb, if◌then◌else◌, max_int64,
}
use grpc_template.Rpc.Demo.{demo, background, start, unavailable}
use grpc_template.Client.Interceptor.Config.{Config, configure, with_retry, default_config}
use grpc_template.Client.Interceptor.Retry.{Env, retry, pause, is_final}
use grpc_template.Client.Interceptor.Retry.Loop.{Attempts, retry-Outcome, retry_overflow}

-- The server is unavailable until the clock reaches 1000; each wait passes in full.
abbrev env : Env demo
env = record {
  invoker = λ ctx w. (if ltb w.now 1000 then some unavailable else none, w);
  sleep = λ ctx d w. (none, record w { now = w.now + 500 });
  int64_n = λ w n. 0;
}

abbrev cfg : ℤ → Config demo
cfg most = record {
  logger = none;
  default_timeout = pos 0;
  retry_max = most;
  retry_backoff = pos 100;
  retry_codes = 14 ∷ 8 ∷ [];
  token_source = none;
}

succeeds : (retry demo env (cfg (pos 3)) background "/m" start).0 ≡ none
unfolding retry pause is_final
succeeds = refl

gives_up : (retry demo env (cfg (pos 1)) background "/m" start).0 ≡ some unavailable
unfolding retry pause is_final
gives_up = refl

configured :
    (configure demo (with_retry demo (pos 3) (pos 7) ∷ []) (default_config demo)).retry_max ≡ pos 3
unfolding configure with_retry default_config
configured = refl

retry-Outcome_example :
    (n : ℕ) × (0 < n)
    × (n ≤ 3 + 1)
    × Attempts env
        (cfg (pos 3))
        background
        "/m"
        n
        0
        start
        (retry demo env (cfg (pos 3)) background "/m" start).0
        (retry demo env (cfg (pos 3)) background "/m" start).1
retry-Outcome_example = retry-Outcome env (cfg (pos 3)) background "/m" start (omega arith)

retry_overflow_example : retry demo env (cfg (pos max_int64)) background "/m" start ≡ (none, start)
retry_overflow_example = retry_overflow env (cfg (pos max_int64)) background "/m" start refl
