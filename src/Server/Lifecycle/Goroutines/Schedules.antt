-- ===== src/Server/Lifecycle/Goroutines/Schedules.antt =====
-- Schedules of the two goroutines that come out as the sequential `serve` does.
use grpc_template.Common.{ℕ, ◌≡◌, refl, Option, none}
use grpc_template.World.{World}
use grpc_template.Rpc.{Rpc}
use grpc_template.Server.Options.{Env, Server}
use grpc_template.Server.Lifecycle.{Net}
use grpc_template.Server.Lifecycle.Goroutines.{
  returned, Running, begun, signals, serve_fails, logs_listening, serve_returns, sends,
  selects_done, logs_signal, shuts_down, stops, drains, logs_stopped, joins, selects_error,
  shuts_failed, returns_error, Reach, at_start, outside, moved,
}
use grpc_template.Server.Lifecycle.{Ending, cancelled, serve_ended, GrpcServer, serve}

module _ {G : Rpc} {E : Env G} (net : Net G E) (l : ℕ) (s₀ : Server G E) (w : World) where
  -- Some schedule returns r, and leaves the server t and the world v.
  abbrev pub ComesOut : Option (Rpc.Err G) × (World × Server G E) → Type 0
  ComesOut (r, (v, t)) =
      (s : Running G E) × Reach G E net l (begun G E s₀ w) s
      × (s.caller ≡ returned r)
      × (s.world ≡ v)
      × (s.server ≡ t)

  comes_out :
      (g : GrpcServer G E) (o : Ending (Rpc.Err G)) → ComesOut (serve G E net (λ _ _. o) g l s₀ w)
  unfolding serve
  comes_out g cancelled =
      let draining_now =
        moved
          (moved
            (moved
              (moved (outside (moved at_start (logs_listening refl)) (signals refl))
                (selects_done refl refl))
              (logs_signal refl))
            (shuts_down refl))
          (stops refl) in
      (
        _,
        moved
            (moved
              (moved (moved (moved draining_now (drains refl refl)) (logs_stopped refl))
                (serve_returns none refl refl))
              (sends none refl refl))
            (joins none refl refl),
        refl,
        refl,
        refl,
      )
  comes_out g (serve_ended e) = (
    _,
    moved
        (moved
          (moved
            (moved (outside (moved at_start (logs_listening refl)) (serve_fails e refl refl))
              (sends e refl refl))
            (selects_error e refl refl))
          (shuts_failed e refl))
        (returns_error e refl),
    refl,
    refl,
    refl,
  )

  pub serve-ComesOut :
      (ending : GrpcServer G E → ℕ → Ending (Rpc.Err G)) (g : GrpcServer G E)
      → ComesOut (serve G E net ending g l s₀ w)
  unfolding serve
  serve-ComesOut ending g = comes_out g (ending g l)
