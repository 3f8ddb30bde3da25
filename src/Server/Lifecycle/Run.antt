-- ===== src/Server/Lifecycle/Run.antt =====
-- What `Run` returns and what it leaves.
use grpc_template.Common.{
  ℕ, ◌≡◌, refl, ◌≢◌, ◌⊎◌, inl, inr, Bool, true, false, Option, none, some, Option-cases, arith,
}
use grpc_template.World.{World}
use grpc_template.Rpc.{Rpc}
use grpc_template.Server.Options.{Env, Server}
use grpc_template.Server.Lifecycle.{
  Ending, cancelled, serve_ended, GrpcServer, Net, setup_server, take_listener, serve, run,
}

module _ {G : Rpc} {E : Env G} (net : Net G E) (ending : GrpcServer G E → ℕ → Ending (Rpc.Err G))
    (s : Server G E) (w : World) where
  -- The server that comes out, up to its listener and its health: the rest is as it was.
  abbrev pub Left : Bool → Server G E → Type 0
  Left up t = t ≡ record s { listener = none; serving = some up }

  -- The `grpc.Server` that `Run` has built.
  abbrev pub built : GrpcServer G E
  built = (setup_server G E s w).0

  abbrev pub Ran : Option (Rpc.Err G) × (World × Server G E) → Type 0
  Ran (r, (v, t)) =
      ((s.config_err ≢ none) × (r ≢ none) × (v ≡ w) × (t ≡ s))
      ⊎ ((s.config_err ≡ none)
          × (e : Rpc.Err G) × (take_listener G E net s ≡ inr e)
          × (r ≢ none)
          × Left true t)
      ⊎ ((s.config_err ≡ none)
          × (l : ℕ) × (take_listener G E net s ≡ inl l)
          × Left false t
          × (((ending built l ≡ cancelled) × (r ≡ none))
              ⊎ ((e : Option (Rpc.Err G)) × (ending built l ≡ serve_ended e) × (r ≢ none))))

  abbrev pub consumed : Server G E
  consumed = record s { listener = none; serving = some true }

  pub run-serve :
      (l : ℕ)
      → s.config_err ≡ none
      → take_listener G E net s ≡ inl l
      → run G E net ending s w ≡ serve G E net ending built l consumed (setup_server G E s w).1.0
  unfolding run setup_server take_listener
  run-serve l fine h = ground arith

  refused :
      (e : Rpc.Err G)
      → s.config_err ≡ none
      → take_listener G E net s ≡ inr e
      → run G E net ending s w ≡ (
        some (Env.wrap_error E "failed to listen on port %s: %w" (some e)),
        ((setup_server G E s w).1.0, consumed),
      )
  unfolding run setup_server take_listener
  refused e fine h = ground arith

  served :
      (l : ℕ) (o : Ending (Rpc.Err G)) (v : World)
      → ending built l ≡ o
      → let (r, (_, t)) = serve G E net ending built l consumed v in
        Left false t
        × (((o ≡ cancelled) × (r ≡ none))
            ⊎ ((e : Option (Rpc.Err G)) × (o ≡ serve_ended e) × (r ≢ none)))
  unfolding serve
  served l cancelled v h = (ground arith, inl (refl, ground arith))
  served l (serve_ended e) v h = (ground arith, inr (e, refl, ground arith))

  listening :
      (o : ℕ ⊎ Rpc.Err G)
      → s.config_err ≡ none
      → take_listener G E net s ≡ o
      → Ran (run G E net ending s w)
  listening (inr e) fine h = rw (refused e fine h) (inr (inl (fine, e, h, (λ z. cc), refl)))
  listening (inl l) fine h =
      let (left, result) = served l (ending built l) (setup_server G E s w).1.0 refl in
      rw (run-serve l fine h) (inr (inr (fine, l, h, left, result)))

  refuses : s.config_err ≢ none → Ran (run G E net ending s w)
  unfolding run
  refuses h = elim (Option-cases s.config_err) [
    | inl e ↦ absurd (h e)
    | inr (x, e) ↦ inl (h, ground arith, ground arith, ground arith)
  ]

  -- `Run` ends in one of these ways. With a configuration error it returns an error and does nothing
  -- else. If there is no listener to be had it returns an error, with the health status still
  -- serving. Otherwise it serves on the injected listener, or on a new one on the port, returns nil
  -- exactly if it ends by cancellation or a signal, and leaves the health service shut down. In both
  -- of these the injected listener is gone from the server, for the next `Run` to use the port.
  pub run-Ran : Ran (run G E net ending s w)
  run-Ran = elim (Option-cases s.config_err) [
    | inl fine ↦ listening (take_listener G E net s) fine refl
    | inr (x, e) ↦ refuses (λ z. cc)
  ]
