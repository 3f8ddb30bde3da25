-- ===== src/Cmd/Client/Session.antt =====
-- cmd/client/main.go behind `New`: what `main` does with its client. `log.Fatal` ends the program
-- without the deferred calls; a panic runs them.
mod Tests
use grpc_template.Common.{
  ℕ, ◌≡◌, ◌≢◌, refl, subst, ◌⊎◌, inl, inr, Option, none, some, Option-cases, List, [], ◌∷◌, String,
  Bytes, codes, arith,
}
use grpc_template.World.{World, Level, Value, emit, Exit, done, panicked}
use grpc_template.Rpc.{Rpc, Context}
use grpc_template.Client.Options.{Env, Client}
use grpc_template.Client.Connection.{Lifecycle, unconnected, Dial, conn_of, connect, close_client}
use grpc_template.Client.Connection.Calls.{
  Outcome, connected, connect-Outcome, close_client-connected,
}
use grpc_template.Client.Reflection.{Listing, Server, list_services}
use grpc_template.Greeter.{Stub, Caller, new_caller, call_say_hello, call_say_hello_server_stream}

-- The messages of a stream, and the error behind them, which is nil for `io.EOF`.
pub record Replies (G : Rpc) : Type 0 where
  pub messages : List Bytes
  pub failure : Option (Rpc.Err G)

-- How the program ends: `main` returns, `log.Fatal` exits with a text and an error, or a panic
-- unwinds it.
pub data Stop (G : Rpc) : Type 0 where
  finished : Stop G
  exited : String → Rpc.Err G → Stop G
  unwound : String → Stop G

abbrev message_of : Option Bytes → Bytes
message_of none = []
message_of (some m) = m

-- `l` is `logging.Default()`. The dial, what a connection answers and what closing it returns are
-- arguments.
module _ (G : Rpc) (E : Env G) (c : Client G E) (l : ℕ) (dial : Dial G E) (server : ℕ → Server G E)
    (stub : ℕ → Stub G ℕ (Replies G)) (closing : ℕ → Option (Rpc.Err G)) (ctx : Context G) where
  -- The entries about the services. An error is passed without a key.
  pub log_services : Listing G E → World → World
  log_services (inr e) w =
      emit l Level.error "ListServices: %v" (("", Value.text (Rpc.error_text G e)) ∷ []) w
  log_services (inl []) w = w
  log_services (inl (name ∷ names)) w =
      log_services (inl names)
        (emit l Level.info "available service" (("name", Value.text name) ∷ []) w)

  -- The loop over the stream.
  pub read_replies : List Bytes → Option (Rpc.Err G) → World → Stop G × World
  read_replies [] (some e) w = (exited "stream recv failed: %v" e, w)
  read_replies [] none w = (finished, emit l Level.info "client demo completed" [] w)
  read_replies (m ∷ ms) failure w =
      read_replies ms failure
        (emit l Level.info "stream response" (("message", Value.bytes m) ∷ []) w)

  -- `Recv` on a nil stream panics.
  pub stream_opened : Option (Replies G) → World → Stop G × World
  unfolding read_replies
  stream_opened none w =
      (unwound "runtime error: invalid memory address or nil pointer dereference", w)
  stream_opened (some r) w = read_replies r.messages r.failure w

  pub run_stream : Caller G ℕ (Replies G) → World → Stop G × World
  unfolding stream_opened
  run_stream caller w =
      let (r, w') = call_say_hello_server_stream G caller ctx (codes "Gopher") [] w in
      elim r [
        | panicked v ↦ (unwound v, w')
        | done (stream, some e) ↦ (exited "SayHelloServerStream failed: %v" e, w')
        | done (stream, none) ↦ stream_opened stream w'
      ]

  pub run_calls : Caller G ℕ (Replies G) → World → Stop G × World
  unfolding run_stream
  run_calls caller w =
      let (r, w') = call_say_hello G caller ctx (codes "Gopher") [] w in
      elim r [
        | panicked v ↦ (unwound v, w')
        | done (reply, some e) ↦ (exited "SayHello failed: %v" e, w')
        | done (reply, none) ↦ run_stream caller (
            emit l Level.info "SayHello response" (("message", Value.bytes (message_of reply)) ∷ [])
              w')
      ]

  -- `main` behind `Connect`.
  pub session : Lifecycle → World → Stop G × World
  unfolding log_services run_calls
  session s w = elim (list_services G E none server s) [
    | panicked v ↦ (unwound v, w)
    | done listing ↦
        let w' = log_services listing w in
        elim (conn_of s) [
          | panicked v ↦ (unwound v, w')
          | done n ↦ run_calls (new_caller G (stub n) c.logger) w'
        ]
  ]

  -- The deferred `Close`.
  pub deferred : Lifecycle → Stop G × World → Stop G × (World × Lifecycle)
  deferred s (exited m e, w) = (exited m e, (w, s))
  deferred s (finished, w) = (finished, (close_client G E closing c w s).1)
  deferred s (unwound v, w) = (unwound v, (close_client G E closing c w s).1)

  -- `main` with what `Connect` has returned and left.
  pub behind_connect : Option (Rpc.Err G) × (World × Lifecycle) → Stop G × (World × Lifecycle)
  unfolding session deferred
  behind_connect (some e, (w, s)) = (exited "" e, (w, s))
  behind_connect (none, (w, s)) = deferred s (session s w)

  pub main : World → Stop G × (World × Lifecycle)
  unfolding behind_connect
  main w = behind_connect (connect G E dial c w unconnected)

  -- What is left of the client, by what `Connect` has returned and how the program ends.
  abbrev pub Left : Option (Rpc.Err G) → Stop G → Lifecycle → Type 0
  Left r (exited m e) s =
      ((r ≢ none) × (s ≡ unconnected))
      ⊎ ((r ≡ none) × (s ≡ connected {G = G} {E = E} c unconnected))
  Left r finished s = s ≡ record unconnected { next = s.next }
  Left r (unwound v) s = s ≡ record unconnected { next = s.next }

  deferred-Left :
      (s : Lifecycle) (stop : Stop G) (w : World)
      → s ≡ connected {G = G} {E = E} c unconnected
      → Left none (deferred s (stop, w)).0 (deferred s (stop, w)).1.1
  unfolding deferred
  deferred-Left s (exited m e) w p = inr (refl, p)
  deferred-Left s finished w p = close_client-connected {G = G} {E = E} c closing w s p
  deferred-Left s (unwound v) w p = close_client-connected {G = G} {E = E} c closing w s p

  behind_connect-Left :
      (w : World) (r : Option (Rpc.Err G)) (v : World) (s : Lifecycle)
      → Outcome {G = G} {E = E} c dial w unconnected (r, (v, s))
      → Left r (behind_connect (r, (v, s))).0 (behind_connect (r, (v, s))).1.1
  unfolding behind_connect
  behind_connect-Left w (some e) v s (inl (ok, _, _, _, _)) = absurd cc
  behind_connect-Left w (some e) v s (inr (bad, same, _)) = inl (bad, same)
  behind_connect-Left w none v s (inl (ok, _, _, _, made)) =
      deferred-Left s (session s v).0 (session s v).1 made
  behind_connect-Left w none v s (inr (bad, _, _)) = absurd (bad refl)

  -- However the server answers, `main` leaves its client in one of these states. Where it returns, or
  -- a panic unwinds it, everything is closed: no connection is open and no watch is alive. Where
  -- `log.Fatal` ends it, the deferred `Close` has not run: the client is as `New` made it, if
  -- `Connect` failed, and otherwise still has the connection that `Connect` made.
  pub main-Left : (w : World) → Left (connect G E dial c w unconnected).0 (main w).0 (main w).1.1
  unfolding main
  main-Left w = behind_connect-Left w _ _ _ (connect-Outcome {G = G} {E = E} c dial w unconnected)
