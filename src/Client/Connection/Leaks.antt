-- ===== src/Client/Connection/Leaks.antt =====
-- What a client keeps open.
use grpc_template.Common.{ℕ, suc, ◌≡◌, refl, Option, none, some, List, [], ◌∷◌, arith}
use grpc_template.Client.Connection.{Lifecycle, unconnected, assign_conn, start_health_watch, close}

-- The steps of calls that run at the same time, each of which holds the lock. A connection is
-- assigned where there is none; a watch may start at any time.
pub data Step : Lifecycle → Lifecycle → Type 0 where
  assigned : {s : Lifecycle} → s.conn ≡ none → Step s (assign_conn s)
  watching : {s : Lifecycle} → Step s (start_health_watch s)
  closed : {s : Lifecycle} → Step s (close s)

pub data Reach : Lifecycle → Type 0 where
  initially : Reach unconnected
  stepped : {s t : Lifecycle} → Reach s → Step s t → Reach t

abbrev pub held : Option ℕ → List ℕ
held none = []
held (some n) = n ∷ []

Step-conns : (s t : Lifecycle) → Step s t → s.open_conns ≡ held s.conn → t.open_conns ≡ held t.conn
unfolding assign_conn start_health_watch close
Step-conns s t (assigned e) h = ground arith
Step-conns s t watching h = h
Step-conns s t closed h = ground arith

-- However calls of `Connect` and `Close` interleave, the connections that are open are exactly the
-- one that the client holds, if it holds one: none is lost, and none is closed while it is held.
pub Reach-held : (s : Lifecycle) → Reach s → s.open_conns ≡ held s.conn
Reach-held s initially = refl
Reach-held s (stepped r step) = Step-conns _ s step (Reach-held _ r)

-- A `Close` between the two halves of `Connect` leaves a client without a connection and with a
-- watch that has started behind it, on no connection.
pub close-start_health_watch :
    (s : Lifecycle)
    → s.conn ≡ none
    → let t = start_health_watch (close (assign_conn s)) in
      (t.conn ≡ none)
      × (t.health_cancel ≡ some (suc s.next))
      × (t.live_watches ≡ suc s.next ∷ (close (assign_conn s)).live_watches)
unfolding assign_conn start_health_watch close
close-start_health_watch s e = (ground arith, ground arith, ground arith)
