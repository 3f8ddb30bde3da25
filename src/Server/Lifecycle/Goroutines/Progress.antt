-- ===== src/Server/Lifecycle/Goroutines/Progress.antt =====
-- Where the two goroutines of `Run` can go on, and that they come to an end.
use grpc_template.Common.{
  ℕ, suc, ◌≡◌, refl, ◌≢◌, Bool, true, false, Option, none, some, ◌⊎◌, inl, inr, arith,
}
use grpc_template.World.{World}
use grpc_template.Rpc.{Rpc}
use grpc_template.Server.Options.{Env, Server}
use grpc_template.Server.Lifecycle.{Net}
use grpc_template.Server.Lifecycle.Goroutines.{
  Caller, selecting, cancelling, shutting_down, stopping, draining, stopped_gracefully, joining,
  failing, wrapping, returned, Serving, launched, in_serve, sending, exited, Running, begun, Event,
  signals, serve_fails, rpc_begins, Move, logs_listening, serve_returns, sends, rpc_ends,
  selects_done, logs_signal, shuts_down, stops, drains, logs_stopped, joins, selects_error,
  shuts_failed, returns_error, Reach,
}
use grpc_template.Server.Lifecycle.Goroutines.{Returns, has_returned, goes_on, waits_for_rpc}
use grpc_template.Server.Lifecycle.Goroutines.Invariant.{
  Place, Channel, has_received, Holds, Event-Holds, Move-Holds, Reach-Holds, at_caller,
}
use grpc_template.Common.{zero, ◌+◌, ◌<◌, Bool-cases}

module _ {G : Rpc} {E : Env G} (net : Net G E) (l : ℕ) (s₀ : Server G E) where
  -- The program or a stopped server can take a step.
  abbrev pub CanMove : Running G E → Type 0
  CanMove s = (t : Running G E) × Move G E net l s t

  -- Run has returned, or something can move, or it waits: at the select, for a signal or
  -- for a `Serve` that goes on, or in GracefulStop, for an RPC that is pending.
  abbrev pub Going : Running G E → Type 0
  Going s =
      ((r : Option (Rpc.Err G)) × (s.caller ≡ returned r))
      ⊎ CanMove s
      ⊎ ((s.caller ≡ selecting)
          × (s.serving ≡ in_serve)
          × (s.over ≡ false)
          × (s.is_stopped ≡ false))
      ⊎ ((n : ℕ) × (s.caller ≡ draining) × (s.pending ≡ suc n))

  -- What the goroutine can do while the caller waits for it, and what the caller finds once it has
  -- gone.
  goroutine :
      (s : Running G E) (q : Serving G)
      → s.serving ≡ q
      → Channel q false s.err_ch
      → CanMove s ⊎ (s.serving ≡ in_serve) ⊎ ((e : Option (Rpc.Err G)) × (s.err_ch ≡ some e))
  goroutine s launched f c = inl (_, logs_listening f)
  goroutine s in_serve f c = inr (inl f)
  goroutine s (sending e) f c = inl (_, sends e f c.1)
  goroutine s exited f c = inr (inr c)

  drains_on : (s : Running G E) (n : ℕ) → s.pending ≡ n → s.caller ≡ draining → Going s
  drains_on s zero e f = inr (inl (_, drains f e))
  drains_on s (suc n) e f = inr (inr (inr (n, f, e)))

  selects :
      (s : Running G E)
      → s.caller ≡ selecting
      → Place E s₀ selecting s.over s.is_stopped s.pending s.server
      → Channel s.serving false s.err_ch
      → Going s
  selects s f p c = elim (Bool-cases s.over) [
    | inl o ↦ inr (inl (_, selects_done f o))
    | inr o ↦ elim (goroutine s s.serving refl c) [
      | inl m ↦ inr (inl m)
      | inr (inl q) ↦ inr (inr (inl (f, q, o, p.0)))
      | inr (inr (e, d)) ↦ inr (inl (_, selects_error e f d))
    ]
  ]

  joins_on :
      (s : Running G E)
      → s.caller ≡ joining
      → Place E s₀ joining s.over s.is_stopped s.pending s.server
      → Channel s.serving false s.err_ch
      → CanMove s
  joins_on s f p c = elim (goroutine s s.serving refl c) [
    | inl m ↦ m
    | inr (inl q) ↦ (_, serve_returns none q p.1)
    | inr (inr (e, d)) ↦ (_, joins e f d)
  ]

  goes :
      (s : Running G E) (p : Caller G)
      → s.caller ≡ p
      → Place E s₀ p s.over s.is_stopped s.pending s.server
        × Channel s.serving (has_received p) s.err_ch
      → Going s
  goes s selecting f h = selects s f h.0 h.1
  goes s cancelling f h = inr (inl (_, logs_signal f))
  goes s shutting_down f h = inr (inl (_, shuts_down f))
  goes s stopping f h = inr (inl (_, stops f))
  goes s draining f h = drains_on s s.pending refl f
  goes s stopped_gracefully f h = inr (inl (_, logs_stopped f))
  goes s joining f h = inr (inl (joins_on s f h.0 h.1))
  goes s (failing e) f h = inr (inl (_, shuts_failed e f))
  goes s (wrapping e) f h = inr (inl (_, returns_error e f))
  goes s (returned r) f h = inl (r, f)

  -- In every state that the two goroutines reach, `Run` has returned, or one of them or a stopped
  -- server can take a step, or the caller is at the select and the goroutine in `Serve`, with no
  -- signal and a server that is not stopped, or the caller is in GracefulStop and an RPC is pending. So
  -- neither waits for the other in vain.
  pub Reach-Going : {w : World} {s : Running G E} → Reach G E net l (begun G E s₀ w) s → Going s
  Reach-Going r = goes _ _ refl (Reach-Holds net l s₀ r)

  abbrev serving_left : Serving G → ℕ
  serving_left launched = 3
  serving_left in_serve = 2
  serving_left (sending e) = 1
  serving_left exited = 0

  abbrev caller_left : Caller G → ℕ
  caller_left selecting = 0
  caller_left cancelling = 0
  caller_left shutting_down = 0
  caller_left stopping = 0
  caller_left draining = 3
  caller_left stopped_gracefully = 2
  caller_left joining = 1
  caller_left (failing e) = 0
  caller_left (wrapping e) = 0
  caller_left (returned r) = 0

  -- The steps that a stopped server leaves, at most.
  abbrev pub left : Running G E → ℕ
  left s = serving_left s.serving + caller_left s.caller + s.pending

  over-stopped :
      (p : Caller G) (o z : Bool) (n : ℕ) (t : Server G E)
      → Place E s₀ p o z n t
      → z ≡ true
      → o ≡ true
  over-stopped selecting o z n t h e = ground arith
  over-stopped cancelling o z n t h e = h.0
  over-stopped shutting_down o z n t h e = h.0
  over-stopped stopping o z n t h e = h.0
  over-stopped draining o z n t h e = h.0
  over-stopped stopped_gracefully o z n t h e = h.0
  over-stopped joining o z n t h e = h.0
  over-stopped (failing x) o z n t h e = ground arith
  over-stopped (wrapping x) o z n t h e = ground arith
  over-stopped (returned none) o z n t h e = h.0
  over-stopped (returned (some x)) o z n t h e = ground arith

  -- All that comes from outside any more is the end of an RPC.
  Event-left :
      (s t : Running G E)
      → Event G E s t
      → Holds net l s₀ s
      → s.is_stopped ≡ true
      → (left t < left s) × (t.is_stopped ≡ true)
  Event-left s t (signals e) h z =
      let o = over-stopped s.caller s.over s.is_stopped s.pending s.server h.0 z in ground arith
  Event-left s t (serve_fails e f z') h z = ground arith
  Event-left s t (rpc_begins f z') h z = ground arith
  Event-left s t (rpc_ends n e) h z = (rw e (omega arith), z)

  not_both : (s : Running G E) → s.is_stopped ≡ false → s.is_stopped ≢ true
  not_both s e z = ground arith

  Move-left :
      (s t : Running G E)
      → Move G E net l s t
      → Holds net l s₀ s
      → s.is_stopped ≡ true
      → (left t < left s) × (t.is_stopped ≡ true)
  Move-left s t (logs_listening f) h z = (rw f (omega arith), z)
  Move-left s t (serve_returns e f y) h z = (rw f (omega arith), z)
  Move-left s t (sends e f c) h z = (rw f (omega arith), z)
  Move-left s t (selects_done e o) h z =
      absurd (not_both s (at_caller net l s₀ s selecting e h).0.0 z)
  Move-left s t (logs_signal e) h z =
      absurd (not_both s (at_caller net l s₀ s cancelling e h).0.1 z)
  Move-left s t (shuts_down e) h z =
      absurd (not_both s (at_caller net l s₀ s shutting_down e h).0.1 z)
  Move-left s t (stops e) h z = absurd (not_both s (at_caller net l s₀ s stopping e h).0.1 z)
  Move-left s t (drains e n) h z = (rw e (omega arith), z)
  Move-left s t (logs_stopped e) h z = (rw e (omega arith), z)
  Move-left s t (joins e f c) h z = (rw f (omega arith), z)
  Move-left s t (selects_error e f c) h z =
      absurd (not_both s (at_caller net l s₀ s selecting f h).0.0 z)
  Move-left s t (shuts_failed e f) h z =
      absurd (not_both s (at_caller net l s₀ s (failing e) f h).0.0 z)
  Move-left s t (returns_error e f) h z =
      absurd (not_both s (at_caller net l s₀ s (wrapping e) f h).0.0 z)

  comes_back :
      (n : ℕ) (s : Running G E)
      → left s < n
      → Holds net l s₀ s
      → s.is_stopped ≡ true
      → Returns G E net l s
  comes_back zero s b h z = ground arith
  comes_back (suc n) s b h z =
      let outside_next : (u : Running G E) → Event G E s u → Returns G E net l u = λ u x.
        let (d, y) = Event-left s u x h z in
        comes_back n u (omega arith) (Event-Holds net l s₀ s u x h) y in
      let next : (u : Running G E) → Move G E net l s u → Returns G E net l u = λ u x.
        let (d, y) = Move-left s u x h z in
        comes_back n u (omega arith) (Move-Holds net l s₀ s u x h) y in
      elim (goes s s.caller refl h) [
        | inl (r, e) ↦ has_returned r e
        | inr (inl (t, m)) ↦ goes_on t m outside_next next
        | inr (inr (inl (e, q, o, y))) ↦ absurd (not_both s y z)
        | inr (inr (inr (k, e, f))) ↦ waits_for_rpc k e f outside_next next
      ]

  -- Once the caller has called GracefulStop, only finitely many steps can be taken, and every
  -- schedule comes to the return of `Run` if the RPCs that are pending end: until the return there is
  -- always a step to take, but where the caller is in GracefulStop and an RPC is pending. That may
  -- stay so for ever, and then `Run` does not return.
  pub Reach-Returns :
      {w : World} {s : Running G E}
      → Reach G E net l (begun G E s₀ w) s
      → s.is_stopped ≡ true
      → Returns G E net l s
  Reach-Returns {w} {s} r = comes_back (suc (left s)) s (omega arith) (Reach-Holds net l s₀ r)
