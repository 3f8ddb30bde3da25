-- ===== src/Client/Interceptor/Retry/Loop.antt =====
-- What `Retry` does, as a relation between the calls that it makes, and how many they are.
use grpc_template.Common.{
  ℕ, zero, suc, ◌+◌, ◌%◌, ◌^◌, ◌≤◌, ◌<◌, ◌≡◌, refl, ◌⊎◌, inl, inr, pos, pos_part, signed64,
  max_int64, Bool, true, false, ◌||◌, Option, none, some, String, arith, leb, Bool-cases,
  Option-cases, is_pos,
}
use grpc_template.World.{World}
use grpc_template.Rpc.{Rpc, Context}
use grpc_template.Client.Interceptor.Config.{Config}
use grpc_template.Client.Interceptor.Retry.{Env, is_final, pause, retry_loop, retry}

module _ {G : Rpc} (env : Env G) (cfg : Config G) (ctx : Context G) (method : String) where
  -- `Attempts n a w r w'`: from the attempt `a` in the world `w`, exactly `n` calls are made, and
  -- the outcome is `r` in the world `w'`. There is a wait between two calls, and none behind the last.
  pub data Attempts : ℕ → ℕ → World → Option (Rpc.Err G) → World → Type 0 where
    returned :
        {a : ℕ} {w w' : World} {r : Option (Rpc.Err G)}
        → env.invoker ctx w ≡ (r, w')
        → (is_final G cfg r ≡ true) ⊎ (pos_part cfg.retry_max ≤ a)
        → Attempts 1 a w r w'
    expired :
        {a : ℕ} {w w' w'' : World} {r : Option (Rpc.Err G)} {e : Rpc.Err G}
        → env.invoker ctx w ≡ (r, w')
        → is_final G cfg r ≡ false
        → a < pos_part cfg.retry_max
        → pause G env cfg ctx method a r w' ≡ (some e, w'')
        → Attempts 1 a w (some e) w''
    retried :
        {n a : ℕ} {w w' w'' v : World} {r s : Option (Rpc.Err G)}
        → env.invoker ctx w ≡ (r, w')
        → is_final G cfg r ≡ false
        → a < pos_part cfg.retry_max
        → pause G env cfg ctx method a r w' ≡ (none, w'')
        → Attempts n (a + 1) w'' s v
        → Attempts (suc n) a w s v

  abbrev Outcome : ℕ → ℕ → World → Option (Rpc.Err G) × World → Type 0
  Outcome most a w (r, w') = (n : ℕ) × (0 < n) × (n ≤ most) × Attempts n a w r w'

  -- One round of the loop.
  module _ (rounds a : ℕ) (last : Option (Rpc.Err G)) (w : World) where
    abbrev result : Option (Rpc.Err G)
    result = (env.invoker ctx w).0

    abbrev stops : Bool
    stops = is_final G cfg result || leb (pos_part cfg.retry_max) a

    abbrev paused : Option (Rpc.Err G) × World
    paused = pause G env cfg ctx method a result (env.invoker ctx w).1

    round_stops :
        stops ≡ true
        → retry_loop G env cfg ctx method (suc rounds) a last w ≡ (result, (env.invoker ctx w).1)
    unfolding retry_loop
    round_stops h = rw (h, retry_loop)

    round_ended :
        {e : Rpc.Err G}
        → stops ≡ false
        → paused.0 ≡ some e
        → retry_loop G env cfg ctx method (suc rounds) a last w ≡ (some e, paused.1)
    unfolding retry_loop
    round_ended h k = ground arith

    round_again :
        stops ≡ false
        → paused.0 ≡ none
        → retry_loop G env cfg ctx method (suc rounds) a last w
          ≡ retry_loop G env cfg ctx method rounds (a + 1) result paused.1
    unfolding retry_loop
    round_again h k = ground arith

  retry_loop-Outcome :
      (rounds a : ℕ) (last : Option (Rpc.Err G)) (w : World)
      → a + rounds ≡ pos_part cfg.retry_max
      → Outcome (suc rounds) a w (retry_loop G env cfg ctx method (suc rounds) a last w)
  retry_loop-Outcome zero a last w e =
      let stop : stops zero a last w ≡ true = ground arith in
      rw (round_stops zero a last w stop)
        (1, omega arith, omega arith, returned refl (inr (omega arith)))
  retry_loop-Outcome (suc rounds) a last w e = elim (Bool-cases (stops (suc rounds) a last w)) [
    | inl h ↦
        rw (round_stops (suc rounds) a last w h)
          (1, omega arith, omega arith, returned refl (ground arith))
    | inr h ↦ elim (Option-cases (paused (suc rounds) a last w).0) [
      | inr (err, k) ↦
          rw (round_ended (suc rounds) a last w h k)
            (1, omega arith, omega arith, expired refl (ground arith) (ground arith) (ground arith))
      | inl k ↦
          let (n, some_call, few, rest) =
            retry_loop-Outcome rounds (a + 1) (result (suc rounds) a last w)
              (paused (suc rounds) a last w).1 (omega arith) in
          rw (round_again (suc rounds) a last w h k) (
            suc n,
            omega arith,
            omega arith,
            retried refl (ground arith) (ground arith) (ground arith) rest,
          )
    ]
  ]

  retry_runs :
      (w : World)
      → is_pos cfg.retry_max ≡ true
      → pos_part cfg.retry_max < max_int64
      → retry G env cfg ctx method w
        ≡ retry_loop G env cfg ctx method (suc (pos_part cfg.retry_max)) 0 none w
  unfolding retry
  retry_runs w h p =
      let rounds : pos_part (signed64 ((pos_part cfg.retry_max + 1) % 2 ^ 64))
          ≡ suc (pos_part cfg.retry_max) =
        ground arith in
      rw (h, rounds)

-- For every configured maximum below the largest int64, `Retry` makes at least one call and at most
-- `retryMax + 1` (one, if the maximum is zero or negative), and is a run of `Attempts`: it goes on
-- only after a retryable failure with attempts left and a full wait, and returns the result of the
-- last call, or the context's error if the context ends during a wait.
pub retry-Outcome :
    {G : Rpc} (env : Env G) (cfg : Config G) (ctx : Context G) (method : String) (w : World)
    → pos_part cfg.retry_max < max_int64
    → (n : ℕ) × (0 < n)
      × (n ≤ pos_part cfg.retry_max + 1)
      × Attempts env cfg ctx method n 0 w
          (retry G env cfg ctx method w).0
          (retry G env cfg ctx method w).1
unfolding retry
retry-Outcome env cfg ctx method w h = elim (Bool-cases (is_pos cfg.retry_max)) [
  | inl runs ↦
      let (n, some_call, few, attempts) =
        retry_loop-Outcome env cfg ctx method (pos_part cfg.retry_max) 0 none w (omega arith) in
      rw (retry_runs env cfg ctx method w runs h) (n, some_call, omega arith, attempts)
  | inr unset ↦ rw (unset, retry) (1, omega arith, omega arith, returned refl (inr (ground arith)))
]

-- A first call without an error is the only one.
pub Attempts-succeeded :
    {G : Rpc} (env : Env G) (cfg : Config G) (ctx : Context G) (method : String) {n a : ℕ}
    {w v u : World} {r : Option (Rpc.Err G)}
    → env.invoker ctx w ≡ (none, v)
    → Attempts env cfg ctx method n a w r u
    → (n ≡ 1) × (r ≡ none) × (u ≡ v)
unfolding is_final
Attempts-succeeded env cfg ctx method first (returned called why) =
    (refl, ground arith, ground arith)
Attempts-succeeded env cfg ctx method first (expired called why left waited) = absurd (ground arith)
Attempts-succeeded env cfg ctx method first (retried called why left waited rest) =
    absurd (ground arith)

Attempts-nil :
    {G : Rpc} (env : Env G) (cfg : Config G) (ctx : Context G) (method : String) {n a : ℕ}
    {w v : World} {r : Option (Rpc.Err G)}
    → Attempts env cfg ctx method n a w r v
    → r ≡ none
    → (u : World) × (env.invoker ctx u ≡ (none, v))
Attempts-nil env cfg ctx method (returned {w = w} called why) e = (w, rw (← e) called)
Attempts-nil env cfg ctx method (expired called why left waited) e = cc
Attempts-nil env cfg ctx method (retried called why left waited rest) e =
    Attempts-nil env cfg ctx method rest e

-- At the largest int64 the round count wraps around to a negative number: `Retry` reports success
-- and makes no call at all.
pub retry_overflow :
    {G : Rpc} (env : Env G) (cfg : Config G) (ctx : Context G) (method : String) (w : World)
    → cfg.retry_max ≡ pos max_int64
    → retry G env cfg ctx method w ≡ (none, w)
unfolding retry retry_loop
retry_overflow env cfg ctx method w h = rw (h, retry_loop)
