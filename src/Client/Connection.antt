-- ===== src/Client/Connection.antt =====
-- internal/client/client.go: the part of `Client` that `Connect`, `Close` and the health watch change.
-- Connections and watches are numbered as they come to exist; a watch is live until its context is
-- cancelled. `Connect` holds the lock for `open_connection` and again for `start_health_watch`, and
-- other calls may run between the two.
pub mod Calls
pub mod Leaks
mod Tests
use grpc_template.Common.{
  ℕ, suc, Bool, true, false, Option, none, some, List, [], ◌∷◌, String, ◌==◌, if◌then◌else◌,
}
use grpc_template.World.{World, Level, Value, emit, Exit, done, panicked}
use grpc_template.Rpc.{Rpc}
use grpc_template.Client.Options.{Env, Client, DialOption, build_dial_opts}

pub record Lifecycle : Type 0 where
  pub conn : Option ℕ
  pub health_cancel : Option ℕ
  -- the connections not closed and the watches not cancelled
  pub open_conns : List ℕ
  pub live_watches : List ℕ
  pub next : ℕ

-- A client whose `New` has returned.
abbrev pub unconnected : Lifecycle
unconnected = record {
  conn = none;
  health_cancel = none;
  open_conns = [];
  live_watches = [];
  next = 0;
}

abbrev pub remove : ℕ → List ℕ → List ℕ
remove n [] = []
remove n (m ∷ ms) = if m == n then remove n ms else m ∷ remove n ms

-- `c.conn = conn`, of a connection that `dial` has just made.
pub assign_conn : Lifecycle → Lifecycle
assign_conn s = record s {
  conn = some s.next;
  open_conns = s.next ∷ s.open_conns;
  next = suc s.next;
}

-- `startHealthWatch` up to the goroutine: a new watch with its cancel function.
pub start_health_watch : Lifecycle → Lifecycle
start_health_watch s = record s {
  health_cancel = some s.next;
  live_watches = s.next ∷ s.live_watches;
  next = suc s.next;
}

abbrev pub cancel_watch : Option ℕ → Lifecycle → Lifecycle
cancel_watch none s = s
cancel_watch (some n) s = record s { health_cancel = none; live_watches = remove n s.live_watches }

abbrev pub close_conn : Option ℕ → Lifecycle → Lifecycle
close_conn none s = s
close_conn (some n) s = record s { conn = none; open_conns = remove n s.open_conns }

-- What `Close` does to the client, under the lock.
pub close : Lifecycle → Lifecycle
close s = close_conn s.conn (cancel_watch s.health_cancel s)

-- `Conn`
unfoldable pub conn_of : Lifecycle → Exit ℕ
conn_of s = elim s.conn [ none ↦ panicked "client: Conn called before Connect" | some n ↦ done n ]

module _ (G : Rpc) (E : Env G) where
  -- `dialFunc` or `grpc.NewClient`: nil or an error. A connection is made in the first case only.
  abbrev pub Dial : Type 0
  Dial = String → List (DialOption G E) → Option (Rpc.Err G)

  abbrev config_error : Rpc.Err G → Rpc.Err G
  config_error e = Env.wrap_error E "client: configuration error: %w" e

  abbrev pub already_connected : Rpc.Err G
  already_connected =
      Env.text_error E "client: already connected (call Close before reconnecting)" ""

  -- `Connect` up to the second use of the lock, with the log and the client's state.
  pub open_connection :
      Dial → Client G E → World → Lifecycle → Option (Rpc.Err G) × (World × Lifecycle)
  unfolding assign_conn build_dial_opts
  open_connection dial c w s = elim c.config_err [
    | some e ↦ (some (config_error e), (w, s))
    | none ↦
        let (opts, w') = build_dial_opts G E c w in
        elim s.conn [
          | some n ↦ (some already_connected, (w', s))
          | none ↦ elim (dial c.target opts) [
            | some e ↦ (
              some (Env.wrap_error_at E "client: failed to create connection to %s: %w" c.target e),
              (w', s),
            )
            | none ↦ (
              none,
              (
                emit c.logger Level.info "gRPC client connected"
                    (("target", Value.text c.target) ∷ []) w',
                assign_conn s,
              ),
            )
          ]
        ]
  ]

  -- `Connect` with no other call in between.
  pub connect : Dial → Client G E → World → Lifecycle → Option (Rpc.Err G) × (World × Lifecycle)
  unfolding open_connection start_health_watch
  connect dial c w s =
      let (r, (w', s')) = open_connection dial c w s in
      elim r [
        | some e ↦ (some e, (w', s'))
        | none ↦ (none, (w', if c.health_watch then start_health_watch s' else s'))
      ]

  -- `Close`, where `closing` is what `ClientConn.Close` returns for a connection.
  pub close_client :
      (ℕ → Option (Rpc.Err G))
      → Client G E
      → World
      → Lifecycle
      → Option (Rpc.Err G) × (World × Lifecycle)
  unfolding close
  close_client closing c w s = elim s.conn [
    | none ↦ (none, (w, close s))
    | some n ↦ (
      closing n,
      (
        emit c.logger Level.info "gRPC client closing" (("target", Value.text c.target) ∷ []) w,
        close s,
      ),
    )
  ]
