-- ===== src/Server/Lifecycle/Goroutines.antt =====
-- internal/server/server.go, `Run` from the `go` statement on, as two goroutines that step in any
-- order: the caller's, at the `select` and behind it, and the one that calls `Serve`. Of the log only
-- the entries that `Run` itself writes are kept. What `Serve` and `GracefulStop` do is their
-- documentation's: `Serve` returns once the server is stopped, and may return before; a stopped
-- server begins no RPC, and `GracefulStop` blocks until the pending ones are done.
mod Invariant
mod Joined
mod Schedules
mod Progress
mod Whole
mod Tests
use grpc_template.Common.{
  ℕ, suc, ◌≡◌, ◌≢◌, Bool, true, false, Option, none, some, List, [], ◌∷◌, ◌++◌, String, ◌⊎◌,
}
use grpc_template.World.{World, Level, Value, emit}
use grpc_template.Rpc.{Rpc}
use grpc_template.Server.Options.{Env, Server}
use grpc_template.Server.Lifecycle.{Net}

module _ (G : Rpc) where
  -- Where the caller is: what it does next.
  pub data Caller : Type 0 where
    -- the select
    selecting : Caller
    -- the case of ctx.Done(): log, Shutdown, GracefulStop and the wait in it, log, <-errCh
    cancelling shutting_down stopping draining stopped_gracefully joining : Caller
    -- the case of errCh: Shutdown, then the error
    failing wrapping : Option (Rpc.Err G) → Caller
    returned : Option (Rpc.Err G) → Caller

  -- Where the goroutine is: at its log call, in `Serve`, at the send, or gone.
  pub data Serving : Type 0 where
    launched in_serve : Serving
    sending : Option (Rpc.Err G) → Serving
    exited : Serving

module _ (G : Rpc) (E : Env G) where
  -- `err_ch` is the buffer of the channel, of size one; `over` is the context's being done;
  -- `is_stopped` and `pending` belong to the `grpc.Server`.
  pub record Running : Type 0 where
    pub caller : Caller G
    pub serving : Serving G
    pub err_ch : Option (Option (Rpc.Err G))
    pub over : Bool
    pub is_stopped : Bool
    pub pending : ℕ
    pub server : Server G E
    pub world : World

  abbrev pub begun : Server G E → World → Running
  begun s w = record {
    caller = selecting;
    serving = launched;
    err_ch = none;
    over = false;
    is_stopped = false;
    pending = 0;
    server = s;
    world = w;
  }

  abbrev pub log_info : String → List (String × Value) → Running → Running
  log_info message args s = record s {
    world = emit s.server.logger Level.info message args s.world;
  }

  -- `healthSrv.Shutdown()`
  abbrev pub shut_health : Running → Running
  shut_health s = record s { server = record s.server { serving = some false } }

  -- What comes from outside: a signal or a cancellation, a failure to accept, an RPC that begins, or
  -- one that ends, which it need not.
  pub data Event : Running → Running → Type 0 where
    signals : {s : Running} → s.over ≡ false → Event s (record s { over = true })
    serve_fails :
        {s : Running} (e : Option (Rpc.Err G))
        → s.serving ≡ in_serve
        → s.is_stopped ≡ false
        → Event s (record s { serving = sending e })
    rpc_begins :
        {s : Running}
        → s.serving ≢ launched
        → s.is_stopped ≡ false
        → Event s (record s { pending = suc s.pending })
    rpc_ends : {s : Running} (n : ℕ) → s.pending ≡ suc n → Event s (record s { pending = n })

  module _ (net : Net G E) (l : ℕ) where
    -- What the program does, and a stopped server.
    pub data Move : Running → Running → Type 0 where
      logs_listening :
          {s : Running}
          → s.serving ≡ launched
          → Move s
              (record (log_info "gRPC server listening"
                (("address", Value.text (Net.address net l)) ∷ [])
                s) { serving = in_serve })
      serve_returns :
          {s : Running} (e : Option (Rpc.Err G))
          → s.serving ≡ in_serve
          → s.is_stopped ≡ true
          → Move s (record s { serving = sending e })
      sends :
          {s : Running} (e : Option (Rpc.Err G))
          → s.serving ≡ sending e
          → s.err_ch ≡ none
          → Move s (record s { serving = exited; err_ch = some e })
      selects_done :
          {s : Running}
          → s.caller ≡ selecting
          → s.over ≡ true
          → Move s (record s { caller = cancelling })
      logs_signal :
          {s : Running}
          → s.caller ≡ cancelling
          → Move s (record (log_info "shutdown signal received, draining connections..." [] s) {
            caller = shutting_down;
          })
      shuts_down :
          {s : Running}
          → s.caller ≡ shutting_down
          → Move s (record (shut_health s) { caller = stopping })
      stops :
          {s : Running}
          → s.caller ≡ stopping
          → Move s (record s { caller = draining; is_stopped = true })
      drains :
          {s : Running}
          → s.caller ≡ draining
          → s.pending ≡ 0
          → Move s (record s { caller = stopped_gracefully })
      logs_stopped :
          {s : Running}
          → s.caller ≡ stopped_gracefully
          → Move s (record (log_info "gRPC server stopped gracefully" [] s) { caller = joining })
      joins :
          {s : Running} (e : Option (Rpc.Err G))
          → s.caller ≡ joining
          → s.err_ch ≡ some e
          → Move s (record s { caller = returned none; err_ch = none })
      selects_error :
          {s : Running} (e : Option (Rpc.Err G))
          → s.caller ≡ selecting
          → s.err_ch ≡ some e
          → Move s (record s { caller = failing e; err_ch = none })
      shuts_failed :
          {s : Running} (e : Option (Rpc.Err G))
          → s.caller ≡ failing e
          → Move s (record (shut_health s) { caller = wrapping e })
      returns_error :
          {s : Running} (e : Option (Rpc.Err G))
          → s.caller ≡ wrapping e
          → Move s
              (record s { caller = returned (some (Env.wrap_error E "failed to serve: %w" e)) })

    pub data Reach (s₀ : Running) : Running → Type 0 where
      at_start : Reach s₀ s₀
      outside : {s t : Running} → Reach s₀ s → Event s t → Reach s₀ t
      moved : {s t : Running} → Reach s₀ s → Move s t → Reach s₀ t

    -- All schedules from here return if the RPCs that are pending end: the caller has returned; or
    -- something can move, or the caller is in GracefulStop with an RPC that is pending; and whatever
    -- comes next, the schedules from there are such schedules.
    pub data Returns : Running → Type 0 where
      has_returned : {s : Running} (r : Option (Rpc.Err G)) → s.caller ≡ returned r → Returns s
      goes_on :
          {s : Running} (t : Running)
          → Move s t
          → ((u : Running) → Event s u → Returns u)
          → ((u : Running) → Move s u → Returns u)
          → Returns s
      waits_for_rpc :
          {s : Running} (n : ℕ)
          → s.caller ≡ draining
          → s.pending ≡ suc n
          → ((u : Running) → Event s u → Returns u)
          → ((u : Running) → Move s u → Returns u)
          → Returns s
