-- ===== src/Server/Lifecycle/Goroutines/Invariant.antt =====
-- What holds at each place of the two goroutines of `Run`.
use grpc_template.Common.{
  ℕ, suc, ◌≡◌, refl, Bool, true, false, Option, none, some, arith, subst, ap,
}
use grpc_template.World.{World}
use grpc_template.Rpc.{Rpc}
use grpc_template.Server.Options.{Env, Server}
use grpc_template.Server.Lifecycle.{Net}
use grpc_template.Server.Lifecycle.Goroutines.{
  Caller, selecting, cancelling, shutting_down, stopping, draining, stopped_gracefully, joining,
  failing, wrapping, returned, Serving, launched, in_serve, sending, exited, Running, begun, Event,
  signals, serve_fails, rpc_begins, Move, logs_listening, serve_returns, sends, rpc_ends,
  selects_done, logs_signal, shuts_down, stops, drains, logs_stopped, joins, selects_error,
  shuts_failed, returns_error, Reach, at_start, outside, moved,
}

module _ {G : Rpc} (E : Env G) (s₀ : Server G E) where
  -- The server with the health service shut down.
  abbrev pub shut : Server G E
  shut = record s₀ { serving = some false }

  shuts_to : {t : Server G E} → t ≡ s₀ → record t { serving = some false } ≡ shut
  shuts_to h = ap (λ (t : Server G E). record t { serving = some false }) h

  -- By the caller's place: the context's being done, whether the `grpc.Server` is stopped, the
  -- pending RPCs, and the server.
  abbrev pub Place : Caller G → Bool → Bool → ℕ → Server G E → Type 0
  Place selecting o z n t = (z ≡ false) × (t ≡ s₀)
  Place cancelling o z n t = (o ≡ true) × (z ≡ false) × (t ≡ s₀)
  Place shutting_down o z n t = (o ≡ true) × (z ≡ false) × (t ≡ s₀)
  Place stopping o z n t = (o ≡ true) × (z ≡ false) × (t ≡ shut)
  Place draining o z n t = (o ≡ true) × (z ≡ true) × (t ≡ shut)
  Place stopped_gracefully o z n t = (o ≡ true) × (z ≡ true) × (t ≡ shut) × (n ≡ 0)
  Place joining o z n t = (o ≡ true) × (z ≡ true) × (t ≡ shut) × (n ≡ 0)
  Place (failing e) o z n t = (z ≡ false) × (t ≡ s₀)
  Place (wrapping e) o z n t = (z ≡ false) × (t ≡ shut)
  Place (returned none) o z n t = (o ≡ true) × (z ≡ true) × (t ≡ shut) × (n ≡ 0)
  Place (returned (some x)) o z n t =
      (z ≡ false)
      × (t ≡ shut)
      × (e : Option (Rpc.Err G)) × (x ≡ Env.wrap_error E "failed to serve: %w" e)

  Place-signals :
      (p : Caller G) (o z : Bool) (n : ℕ) (t : Server G E) → Place p o z n t → Place p true z n t
  Place-signals selecting o z n t h = h
  Place-signals cancelling o z n t h = (refl, h.1, h.2)
  Place-signals shutting_down o z n t h = (refl, h.1, h.2)
  Place-signals stopping o z n t h = (refl, h.1, h.2)
  Place-signals draining o z n t h = (refl, h.1, h.2)
  Place-signals stopped_gracefully o z n t h = (refl, h.1, h.2, h.3)
  Place-signals joining o z n t h = (refl, h.1, h.2, h.3)
  Place-signals (failing e) o z n t h = h
  Place-signals (wrapping e) o z n t h = h
  Place-signals (returned none) o z n t h = (refl, h.1, h.2, h.3)
  Place-signals (returned (some x)) o z n t h = h

  pub Place-logger :
      (p : Caller G) (o z : Bool) (n : ℕ) (t : Server G E) → Place p o z n t → t.logger ≡ s₀.logger
  Place-logger selecting o z n t h = ap (λ t. t.logger) h.1
  Place-logger cancelling o z n t h = ap (λ t. t.logger) h.2
  Place-logger shutting_down o z n t h = ap (λ t. t.logger) h.2
  Place-logger stopping o z n t h = ap (λ t. t.logger) h.2
  Place-logger draining o z n t h = ap (λ t. t.logger) h.2
  Place-logger stopped_gracefully o z n t h = ap (λ t. t.logger) h.2
  Place-logger joining o z n t h = ap (λ t. t.logger) h.2
  Place-logger (failing e) o z n t h = ap (λ t. t.logger) h.1
  Place-logger (wrapping e) o z n t h = ap (λ t. t.logger) h.1
  Place-logger (returned none) o z n t h = ap (λ t. t.logger) h.2
  Place-logger (returned (some x)) o z n t h = ap (λ t. t.logger) h.1

  -- The pending RPCs may change until none is left behind a stopped server.
  Place-pending :
      (p : Caller G) (o z : Bool) (n m : ℕ) (t : Server G E)
      → ((z ≡ true) → (n ≡ 0) → m ≡ 0)
      → Place p o z n t
      → Place p o z m t
  Place-pending selecting o z n m t f h = h
  Place-pending cancelling o z n m t f h = h
  Place-pending shutting_down o z n m t f h = h
  Place-pending stopping o z n m t f h = h
  Place-pending draining o z n m t f h = h
  Place-pending stopped_gracefully o z n m t f h = (h.0, h.1, h.2, f h.1 h.3)
  Place-pending joining o z n m t f h = (h.0, h.1, h.2, f h.1 h.3)
  Place-pending (failing e) o z n m t f h = h
  Place-pending (wrapping e) o z n m t f h = h
  Place-pending (returned none) o z n m t f h = (h.0, h.1, h.2, f h.1 h.3)
  Place-pending (returned (some x)) o z n m t f h = h

module _ {G : Rpc} where
  -- Has the caller received from the channel?
  abbrev pub has_received : Caller G → Bool
  has_received selecting = false
  has_received cancelling = false
  has_received shutting_down = false
  has_received stopping = false
  has_received draining = false
  has_received stopped_gracefully = false
  has_received joining = false
  has_received (failing e) = true
  has_received (wrapping e) = true
  has_received (returned r) = true

  -- The channel: nothing before the send, then one value until the caller has it.
  abbrev pub Channel : Serving G → Bool → Option (Option (Rpc.Err G)) → Type 0
  Channel exited true c = c ≡ none
  Channel exited false c = (e : Option (Rpc.Err G)) × (c ≡ some e)
  Channel launched got c = (got ≡ false) × (c ≡ none)
  Channel in_serve got c = (got ≡ false) × (c ≡ none)
  Channel (sending e) got c = (got ≡ false) × (c ≡ none)

  Channel-sends :
      (q : Serving G) (b : Bool) (c : Option (Option (Rpc.Err G))) (e : Option (Rpc.Err G))
      → q ≡ exited
      → b ≡ false
      → Channel q b (some e)
  Channel-sends q false c e f h = rw f (e, refl)
  Channel-sends q true c e f h = ground arith

  -- What the caller receives has been sent.
  Channel-receives :
      (q : Serving G) (e : Option (Rpc.Err G)) → Channel q false (some e) → Channel q true none
  Channel-receives exited e h = refl
  Channel-receives launched e h = ground arith
  Channel-receives in_serve e h = ground arith
  Channel-receives (sending x) e h = ground arith

module _ {G : Rpc} {E : Env G} (net : Net G E) (l : ℕ) (s₀ : Server G E) where
  abbrev pub Holds : Running G E → Type 0
  Holds s =
      Place E s₀ s.caller s.over s.is_stopped s.pending s.server
      × Channel s.serving (has_received s.caller) s.err_ch

  -- The claims of the caller's place, once it is known.
  pub at_caller :
      (s : Running G E) (p : Caller G)
      → s.caller ≡ p
      → Holds s
      → Place E s₀ p s.over s.is_stopped s.pending s.server
        × Channel s.serving (has_received p) s.err_ch
  at_caller s p e h =
      subst
        (λ p.
          Place E s₀ p s.over s.is_stopped s.pending s.server
          × Channel s.serving (has_received p) s.err_ch)
        e h

  before_send :
      (s : Running G E) (q : Serving G)
      → s.serving ≡ q
      → Holds s
      → Channel q (has_received s.caller) s.err_ch
  before_send s q e h = subst (λ q. Channel q (has_received s.caller) s.err_ch) e h.1

  pub Event-Holds : (s t : Running G E) → Event G E s t → Holds s → Holds t
  Event-Holds s t (signals e) h =
      (Place-signals E s₀ s.caller s.over s.is_stopped s.pending s.server h.0, h.1)
  Event-Holds s t (serve_fails e f z) h = (h.0, before_send s in_serve f h)
  Event-Holds s t (rpc_begins f z) h = (
    Place-pending E s₀ s.caller s.over s.is_stopped s.pending (suc s.pending) s.server
        (λ y _. ground arith) h.0,
    h.1,
  )
  Event-Holds s t (rpc_ends n e) h = (
    Place-pending E s₀ s.caller s.over s.is_stopped s.pending n s.server (λ _ z. ground arith) h.0,
    h.1,
  )

  pub Move-Holds : (s t : Running G E) → Move G E net l s t → Holds s → Holds t
  Move-Holds s t (logs_listening f) h = (h.0, before_send s launched f h)
  Move-Holds s t (serve_returns e f z) h = (h.0, before_send s in_serve f h)
  Move-Holds s t (sends e f c) h = (
    h.0,
    Channel-sends {G = G} exited (has_received s.caller) s.err_ch e refl
        (before_send s (sending e) f h).0,
  )
  Move-Holds s t (selects_done e o) h = let (p, c) = at_caller s selecting e h in ((o, p.0, p.1), c)
  Move-Holds s t (logs_signal e) h = at_caller s cancelling e h
  Move-Holds s t (shuts_down e) h =
      let (p, c) = at_caller s shutting_down e h in ((p.0, p.1, shuts_to E s₀ p.2), c)
  Move-Holds s t (stops e) h = let (p, c) = at_caller s stopping e h in ((p.0, refl, p.2), c)
  Move-Holds s t (drains e n) h = let (p, c) = at_caller s draining e h in ((p.0, p.1, p.2, n), c)
  Move-Holds s t (logs_stopped e) h = at_caller s stopped_gracefully e h
  Move-Holds s t (joins e f c) h =
      let (p, d) = at_caller s joining f h in
      (p, Channel-receives {G = G} s.serving e (subst (λ c. Channel s.serving false c) c d))
  Move-Holds s t (selects_error e f c) h =
      let (p, d) = at_caller s selecting f h in
      (p, Channel-receives {G = G} s.serving e (subst (λ c. Channel s.serving false c) c d))
  Move-Holds s t (shuts_failed e f) h =
      let (p, c) = at_caller s (failing e) f h in ((p.0, shuts_to E s₀ p.1), c)
  Move-Holds s t (returns_error e f) h =
      let (p, c) = at_caller s (wrapping e) f h in ((p.0, p.1, e, refl), c)

  pub Reach-Holds : {w : World} {s : Running G E} → Reach G E net l (begun G E s₀ w) s → Holds s
  Reach-Holds at_start = ((refl, refl), (refl, refl))
  Reach-Holds (outside r x) = Event-Holds _ _ x (Reach-Holds r)
  Reach-Holds (moved r x) = Move-Holds _ _ x (Reach-Holds r)
