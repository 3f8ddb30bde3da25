-- ===== src/Server/Lifecycle/Goroutines/Joined.antt =====
-- What `Run` has logged at each place of its two goroutines, and how it comes back.
use mathlib.Core.List.Perm
use mathlib.Core.List.{Perm, perm_middle, append_assoc, append-nil}
use grpc_template.Common.{
  ℕ, ◌≡◌, refl, true, false, Option, none, some, List, [], ◌∷◌, ◌++◌, String, arith, subst, ap, sym,
}
use grpc_template.World.{World, Level, Value, Entry}
use grpc_template.Rpc.{Rpc}
use grpc_template.Server.Options.{Env, Server}
use grpc_template.Server.Lifecycle.{Net}
use grpc_template.Server.Lifecycle.Goroutines.{
  Caller, selecting, cancelling, shutting_down, stopping, draining, stopped_gracefully, joining,
  failing, wrapping, returned, Serving, launched, in_serve, sending, exited, Running, begun,
  log_info, Event, signals, serve_fails, rpc_begins, Move, logs_listening, serve_returns, sends,
  rpc_ends, selects_done, logs_signal, shuts_down, stops, drains, logs_stopped, joins,
  selects_error, shuts_failed, returns_error, Reach, at_start, outside, moved,
}
use grpc_template.Server.Lifecycle.{Ending, cancelled, serve_ended, GrpcServer, serve}
use grpc_template.Server.Lifecycle.Goroutines.Invariant.{
  Place, Channel, Place-logger, Holds, Reach-Holds, at_caller,
}

module _ {G : Rpc} {E : Env G} where
  -- How the `grpc.Server` is left: behind a graceful stop no RPC is pending.
  abbrev pub LeftBy : Ending (Rpc.Err G) → Running G E → Type 0
  LeftBy cancelled s = (s.over ≡ true) × (s.is_stopped ≡ true) × (s.pending ≡ 0)
  LeftBy (serve_ended e) s = s.is_stopped ≡ false

-- An entry at the end of the log is one behind what was written.
at_front :
    (w v ys : List Entry) (x : Entry) → Perm v (w ++ ys) → Perm (v ++ (x ∷ [])) (w ++ (x ∷ ys))
at_front w v ys x h = Perm.trans (Perm.append_right (x ∷ []) h) (
    rw (append_assoc w ys (x ∷ [])) (
      Perm.append_left w
        (subst (λ zs. Perm (ys ++ (x ∷ [])) (x ∷ zs)) (append-nil ys) (perm_middle ys []))))

at_end :
    (w v xs ys : List Entry) (x : Entry)
    → Perm v (w ++ (xs ++ ys))
    → Perm (v ++ (x ∷ [])) (w ++ (xs ++ (ys ++ (x ∷ []))))
at_end w v xs ys x h =
    rw (sym (append_assoc xs ys (x ∷ [])), sym (append_assoc w (xs ++ ys) (x ∷ [])))
      (Perm.append_right (x ∷ []) h)

module _ {G : Rpc} {E : Env G} (net : Net G E) (l : ℕ) (s₀ : Server G E) where
  abbrev entry : String → List (String × Value) → Entry
  entry message args = record {
    handler = s₀.logger;
    level = Level.info;
    message = message;
    args = args;
  }

  abbrev listening : Entry
  listening = entry "gRPC server listening" (("address", Value.text (Net.address net l)) ∷ [])

  abbrev signal : Entry
  signal = entry "shutdown signal received, draining connections..." []

  abbrev gone : Entry
  gone = entry "gRPC server stopped gracefully" []

  abbrev of_caller : Caller G → List Entry
  of_caller selecting = []
  of_caller cancelling = []
  of_caller shutting_down = signal ∷ []
  of_caller stopping = signal ∷ []
  of_caller draining = signal ∷ []
  of_caller stopped_gracefully = signal ∷ []
  of_caller joining = signal ∷ gone ∷ []
  of_caller (failing e) = []
  of_caller (wrapping e) = []
  of_caller (returned none) = signal ∷ gone ∷ []
  of_caller (returned (some x)) = []

  abbrev of_serving : Serving G → List Entry
  of_serving launched = []
  of_serving in_serve = listening ∷ []
  of_serving (sending e) = listening ∷ []
  of_serving exited = listening ∷ []

  abbrev Logged : World → Running G E → Type 0
  Logged w s =
      (s.world ≡ record w { log = s.world.log })
      × Perm s.world.log (w.log ++ (of_serving s.serving ++ of_caller s.caller))

  -- An entry of Run is one by the server's logger.
  logs :
      (s : Running G E) (message : String) (args : List (String × Value))
      → Holds net l s₀ s
      → (log_info G E message args s).world.log ≡ s.world.log ++ (entry message args ∷ [])
  logs s message args h =
      ap
        (λ n.
          s.world.log
          ++ (record { handler = n; level = Level.info; message = message; args = args } ∷ []))
        (Place-logger E s₀ s.caller s.over s.is_stopped s.pending s.server h.0)

  placed :
      (w : World) (s : Running G E) (p : Caller G)
      → s.caller ≡ p
      → Logged w s
      → Perm s.world.log (w.log ++ (of_serving s.serving ++ of_caller p))
  placed w s p e h =
      subst (λ p. Perm s.world.log (w.log ++ (of_serving s.serving ++ of_caller p))) e h.1

  serving_at :
      (w : World) (s : Running G E) (q : Serving G)
      → s.serving ≡ q
      → Logged w s
      → Perm s.world.log (w.log ++ (of_serving q ++ of_caller s.caller))
  serving_at w s q e h =
      subst (λ q. Perm s.world.log (w.log ++ (of_serving q ++ of_caller s.caller))) e h.1

  Event-Logged : (w : World) (s t : Running G E) → Event G E s t → Logged w s → Logged w t
  Event-Logged w s t (signals e) h = h
  Event-Logged w s t (serve_fails e f z) h = (h.0, serving_at w s in_serve f h)
  Event-Logged w s t (rpc_begins f z) h = h
  Event-Logged w s t (rpc_ends n e) h = h

  Move-Logged :
      (w : World) (s t : Running G E)
      → Move G E net l s t
      → Holds net l s₀ s
      → Logged w s
      → Logged w t
  Move-Logged w s t (logs_listening f) i h = (
    ap (λ (v : World). record v { log = t.world.log }) h.0,
    rw (logs s _ _ i) (at_front w.log s.world.log _ _ (serving_at w s launched f h)),
  )
  Move-Logged w s t (serve_returns e f z) i h = (h.0, serving_at w s in_serve f h)
  Move-Logged w s t (sends e f c) i h = (h.0, serving_at w s (sending e) f h)
  Move-Logged w s t (selects_done e o) i h = (h.0, placed w s selecting e h)
  Move-Logged w s t (logs_signal e) i h = (
    ap (λ (v : World). record v { log = t.world.log }) h.0,
    rw (logs s _ _ i) (at_end w.log s.world.log _ [] _ (placed w s cancelling e h)),
  )
  Move-Logged w s t (shuts_down e) i h = (h.0, placed w s shutting_down e h)
  Move-Logged w s t (stops e) i h = (h.0, placed w s stopping e h)
  Move-Logged w s t (drains e n) i h = (h.0, placed w s draining e h)
  Move-Logged w s t (logs_stopped e) i h = (
    ap (λ (v : World). record v { log = t.world.log }) h.0,
    rw (logs s _ _ i)
        (at_end w.log s.world.log _ (signal ∷ []) _ (placed w s stopped_gracefully e h)),
  )
  Move-Logged w s t (joins e f c) i h = (h.0, placed w s joining f h)
  Move-Logged w s t (selects_error e f c) i h = (h.0, placed w s selecting f h)
  Move-Logged w s t (shuts_failed e f) i h = (h.0, placed w s (failing e) f h)
  Move-Logged w s t (returns_error e f) i h = (h.0, placed w s (wrapping e) f h)

  Reach-Logged : {w : World} {s : Running G E} → Reach G E net l (begun G E s₀ w) s → Logged w s
  Reach-Logged {w} at_start =
      (refl, subst (λ v. Perm w.log (w.log ++ v)) refl (rw (append-nil w.log) (Perm.refl w.log)))
  Reach-Logged (outside r x) = Event-Logged _ _ _ x (Reach-Logged r)
  Reach-Logged (moved r x) = Move-Logged _ _ _ x (Reach-Holds net l s₀ r) (Reach-Logged r)

  exited-received :
      (q : Serving G) (c : Option (Option (Rpc.Err G)))
      → Channel q true c
      → (q ≡ exited) × (c ≡ none)
  exited-received exited c h = (refl, h)
  exited-received launched c h = ground arith
  exited-received in_serve c h = ground arith
  exited-received (sending e) c h = ground arith

  -- The outcome of `serve`, for one way for it to end.
  abbrev pub Outcome :
      GrpcServer G E → World → Running G E → Option (Rpc.Err G) → Ending (Rpc.Err G) → Type 0
  Outcome g w s r o =
      let (result, (v, t)) = serve G E net (λ _ _. o) g l s₀ w in
      (r ≡ result)
      × (s.server ≡ t)
      × (s.world ≡ record v { log = s.world.log })
      × Perm s.world.log v.log
      × LeftBy o s

  ends :
      (g : GrpcServer G E) (w : World) (s : Running G E) (r : Option (Rpc.Err G))
      → s.serving ≡ exited
      → Place E s₀ (returned r) s.over s.is_stopped s.pending s.server
      → (s.world ≡ record w { log = s.world.log })
      → Perm s.world.log (w.log ++ (listening ∷ of_caller (returned r)))
      → (o : Ending (Rpc.Err G)) × Outcome g w s r o
  unfolding serve
  ends g w s none x (over, z, down, idle) v log = (
    cancelled,
    (
      refl,
      down,
      v,
      rw
          (
            append_assoc w.log (listening ∷ []) (signal ∷ []),
            append_assoc w.log (listening ∷ signal ∷ []) (gone ∷ []),
          )
          log,
      (over, z, idle),
    ),
  )
  ends g w s (some y) x (z, down, e, wraps) v log =
      (serve_ended e, (ap some wraps, down, v, log, z))

  pub Reach-serve :
      (g : GrpcServer G E) {w : World} {s : Running G E} (r : Option (Rpc.Err G))
      → Reach G E net l (begun G E s₀ w) s
      → s.caller ≡ returned r
      → (s.serving ≡ exited) × (s.err_ch ≡ none) × (o : Ending (Rpc.Err G)) × Outcome g w s r o
  Reach-serve g {w} {s} r reach e =
      let h = Reach-Logged reach in
      let (p, c) = at_caller net l s₀ s (returned r) e (Reach-Holds net l s₀ reach) in
      let (x, empty) = exited-received s.serving s.err_ch c in
      let (o, outcome) = ends g w s r x p h.0 (
        subst (λ q. Perm s.world.log (w.log ++ (of_serving q ++ of_caller (returned r)))) x
          (placed w s (returned r) e h)) in
      (x, empty, o, outcome)
