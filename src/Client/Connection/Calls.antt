-- ===== src/Client/Connection/Calls.antt =====
-- What `Connect` does on every path, and what one caller's calls leave behind.
use grpc_template.Common.{
  ℕ, suc, Bool-cases, some, ◌∷◌, ◌≡◌, refl, ◌≢◌, ◌⊎◌, inl, inr, Option, none, Option-cases, arith,
  if◌then◌else◌,
}
use grpc_template.World.{World}
use grpc_template.Rpc.{Rpc}
use grpc_template.Client.Options.{Env, Client, build_dial_opts}
use grpc_template.Client.Connection.{
  Lifecycle, unconnected, assign_conn, start_health_watch, close, Dial, open_connection, connect,
  close_client,
}
use grpc_template.Client.Connection.Leaks.{held}

-- The open connections and the live watches are those that the client holds, and it has a watch
-- only beside a connection.
abbrev pub IsTidy : Lifecycle → Type 0
IsTidy s =
    (s.open_conns ≡ held s.conn)
    × (s.live_watches ≡ held s.health_cancel)
    × ((s.conn ≢ none) ⊎ (s.health_cancel ≡ none))

close-IsTidy : (s : Lifecycle) → IsTidy s → close s ≡ record unconnected { next = s.next }
unfolding close
close-IsTidy s (conns, watches, pair) = ground arith

module _ {G : Rpc} {E : Env G} (c : Client G E) where
  -- The client's state behind a successful `Connect`: the connection that was made, and with
  -- `WithHealthWatch` a watch that was made behind it.
  abbrev pub connected : Lifecycle → Lifecycle
  connected s = record {
    conn = some s.next;
    health_cancel = if c.health_watch then some (suc s.next) else s.health_cancel;
    open_conns = s.next ∷ s.open_conns;
    live_watches = if c.health_watch then suc s.next ∷ s.live_watches else s.live_watches;
    next = if c.health_watch then suc (suc s.next) else suc s.next;
  }

  connects_to :
      (s : Lifecycle)
      → (if c.health_watch then start_health_watch (assign_conn s) else assign_conn s) ≡ connected s
  unfolding assign_conn start_health_watch
  connects_to s = elim (Bool-cases c.health_watch) [ inl h ↦ rw h refl | inr h ↦ rw h refl ]

  abbrev pub Outcome :
      Dial G E → World → Lifecycle → Option (Rpc.Err G) × (World × Lifecycle) → Type 0
  Outcome dial w s (r, (w', s')) =
      ((r ≡ none)
        × (c.config_err ≡ none)
        × (s.conn ≡ none)
        × (dial c.target (build_dial_opts G E c w).0 ≡ none)
        × (s' ≡ connected s))
      ⊎ ((r ≢ none)
          × (s' ≡ s)
          × ((c.config_err ≢ none)
              ⊎ (s.conn ≢ none)
              ⊎ (dial c.target (build_dial_opts G E c w).0 ≢ none)))

  -- `Connect` succeeds exactly without a configuration error, without a connection and with a dial
  -- that succeeds with the options of the configuration; it then holds the connection that was dialled,
  -- which is open, and with `WithHealthWatch` a new watch, which is alive. Otherwise it returns an error and leaves the client as it is.
  pub connect-Outcome :
      (dial : Dial G E) (w : World) (s : Lifecycle) → Outcome dial w s (connect G E dial c w s)
  unfolding connect open_connection
  connect-Outcome dial w s = elim (Option-cases c.config_err) [
    | inr (e, bad) ↦ inr (ground arith, ground arith, inl (ground arith))
    | inl fine ↦ elim (Option-cases s.conn) [
      | inr (n, taken) ↦ inr (ground arith, ground arith, inr (inl (ground arith)))
      | inl free ↦ elim (Option-cases (dial c.target (build_dial_opts G E c w).0)) [
        | inr (e, refused) ↦ inr (ground arith, ground arith, inr (inr (ground arith)))
        | inl ok ↦ inl (ground arith, fine, free, ok, ground (arith, connects_to s))
      ]
    ]
  ]

  -- The states that calls lead to of which each begins when the last one has returned.
  pub data Sequence : Lifecycle → Type 0 where
    created : Sequence unconnected
    connects :
        {s : Lifecycle} (dial : Dial G E) (w : World)
        → Sequence s
        → Sequence (connect G E dial c w s).1.1
    closes :
        {s : Lifecycle} (closing : ℕ → Option (Rpc.Err G)) (w : World)
        → Sequence s
        → Sequence (close_client G E closing c w s).1.1

  connected-IsTidy : (s : Lifecycle) → s.conn ≡ none → IsTidy s → IsTidy (connected s)
  connected-IsTidy s free (conns, watches, pair) = (ground arith, ground arith, ground arith)

  close_client-close :
      (closing : ℕ → Option (Rpc.Err G)) (w : World) (s : Lifecycle)
      → (close_client G E closing c w s).1.1 ≡ close s
  unfolding close_client
  close_client-close closing w s = ground arith

  one_caller : (s : Lifecycle) → Sequence s → IsTidy s
  one_caller s created = (refl, refl, inr refl)
  one_caller s (connects {s = s'} dial w h) = elim (connect-Outcome dial w s') [
    | inl (r, fine, free, ok, e) ↦ rw e (connected-IsTidy s' free (one_caller s' h))
    | inr (r, e, why) ↦ rw e (one_caller s' h)
  ]
  one_caller s (closes {s = s'} closing w h) =
      rw (close_client-close closing w s', close-IsTidy s' (one_caller s' h)) (refl, refl, inr refl)

  -- A `Close` behind the first successful `Connect`.
  pub close_client-connected :
      (closing : ℕ → Option (Rpc.Err G)) (w : World) (s : Lifecycle)
      → s ≡ connected unconnected
      → (close_client G E closing c w s).1.1
        ≡ record unconnected { next = (close_client G E closing c w s).1.1.next }
  close_client-connected closing w s e =
      let tidy : IsTidy s = rw e (connected-IsTidy unconnected refl (refl, refl, inr refl)) in
      rw (close_client-close closing w s, close-IsTidy s tidy) refl

  -- Where calls of `Connect` and `Close` follow each other, whatever they return, the connections
  -- and watches that are alive are those that the client holds; and a `Close` ends them all.
  pub Sequence-IsTidy :
      (s : Lifecycle) → Sequence s → IsTidy s × (close s ≡ record unconnected { next = s.next })
  Sequence-IsTidy s h = (one_caller s h, close-IsTidy s (one_caller s h))
