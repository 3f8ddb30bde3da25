-- ===== src/Server/Lifecycle/Goroutines/Whole.antt =====
-- `Run` with its two goroutines in any order, and the sequential `run`.
use mathlib.Core.List.{Perm}
use grpc_template.Common.{ℕ, ◌≡◌, true, Option, none, some, inl}
use grpc_template.World.{World}
use grpc_template.Rpc.{Rpc}
use grpc_template.Server.Options.{Env, Server}
use grpc_template.Server.Lifecycle.{Ending, GrpcServer, Net, setup_server, take_listener, run}
use grpc_template.Server.Lifecycle.Run.{run-serve}
use grpc_template.Server.Lifecycle.Goroutines.{returned, exited, Running, begun, Reach}
use grpc_template.Server.Lifecycle.Goroutines.Joined.{LeftBy, Reach-serve}
use grpc_template.Server.Lifecycle.Goroutines.Schedules.{serve-ComesOut}

module _ {G : Rpc} {E : Env G} (net : Net G E) (s₀ : Server G E) (w : World) where
  -- Where `Run` starts its goroutine, on the listener l.
  abbrev taken : Server G E
  taken = record s₀ { listener = none; serving = some true }

  abbrev pub launch : Running G E
  launch = begun G E taken (setup_server G E s₀ w).1.0

  -- The two goroutines are done as the sequential `run` is when it ends by o.
  abbrev pub Agrees : Running G E → Option (Rpc.Err G) → Ending (Rpc.Err G) → Type 0
  Agrees s r o =
      let (result, (v, t)) = run G E net (λ _ _. o) s₀ w in
      (r ≡ result)
      × (s.server ≡ t)
      × (s.world ≡ record v { log = s.world.log })
      × Perm s.world.log v.log
      × LeftBy o s

  -- Whatever the order in which the two goroutines of `Run` step, once `Run` returns the goroutine
  -- that called `Serve` has exited and the channel is empty, and there is a way to end, by
  -- cancellation or by a result of `Serve`, for which the sequential `run` returns the same, leaves
  -- the same server, and writes the same log up to the order of the entries. If it is cancellation,
  -- the context is done, the `grpc.Server` is stopped, and none of its RPCs is pending;
  -- if it is a result of `Serve`, the `grpc.Server` has not been stopped.
  pub Reach-run :
      (l : ℕ) {s : Running G E} (r : Option (Rpc.Err G))
      → s₀.config_err ≡ none
      → take_listener G E net s₀ ≡ inl l
      → Reach G E net l launch s
      → s.caller ≡ returned r
      → (s.serving ≡ exited) × (s.err_ch ≡ none) × (o : Ending (Rpc.Err G)) × Agrees s r o
  Reach-run l {s} r fine h reach e =
      let (x, c, o, outcome) = Reach-serve net l _ (setup_server G E s₀ w).0 r reach e in
      (x, c, o, rw (run-serve net (λ _ _. o) s₀ w l fine h) outcome)

  -- The sequential `run` is one of these orders: for every way in which it ends, the two goroutines
  -- can step so that the caller returns the same, with the same server and the same log.
  pub run-ComesOut :
      (ending : GrpcServer G E → ℕ → Ending (Rpc.Err G)) (l : ℕ)
      → s₀.config_err ≡ none
      → take_listener G E net s₀ ≡ inl l
      → (s : Running G E) × Reach G E net l launch s
        × (let (result, (v, t)) = run G E net ending s₀ w in
            (s.caller ≡ returned result) × (s.world ≡ v) × (s.server ≡ t))
  run-ComesOut ending l fine h = rw (run-serve net ending s₀ w l fine h) (
      let (s, reach, result, v, t) =
        serve-ComesOut net l taken (setup_server G E s₀ w).1.0 ending (setup_server G E s₀ w).0 in
      (s, reach, (result, v, t)))
