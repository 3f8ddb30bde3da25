-- ===== src/Wire/Call.antt =====
-- A call of the greeter from the command line client to the command line server: internal/service,
-- cmd/client/main.go and cmd/server/main.go, with the interceptors of both sides. The connection and
-- the generated stub are arguments, and so is what becomes of the context on the way; what a theorem
-- needs of them for one call is a hypothesis.
mod Tests
use grpc_template.Common.{
  ℕ, ◌≡◌, refl, ap, ◌∙◌, subst, inl, inr, true, Option, none, some, List, [], ◌∷◌, ◌++◌, String,
  Bytes, length, ℤ, pos,
}
use grpc_template.World.{World, Level, Value, Entry, Exit, done, panicked, emit, set_header}
use grpc_template.Rpc.{Rpc, Context}
use grpc_template.Server.Interceptor.RateLimit.{Rate}
use grpc_template.Server.Interceptor.Config.{Setup}
use grpc_template.Server.Interceptor.Uuid.{match_uuid}
use grpc_template.Server.Interceptor.Uuid.Format.{AreBytes}
use grpc_template.Server.Interceptor.Chain.{values_of}
use grpc_template.Server.Interceptor.Chain.Whole.{Completed}
use grpc_template.Client.Interceptor.Timeout.Laws.{due}
use grpc_template.Client.Interceptor.CallLogging.Laws.{Logs, Reports}
use grpc_template.Client.Interceptor.Retry.Loop.{Attempts-succeeded}
use grpc_template.Server.Options as Serving
use grpc_template.Client.Options as Dialling
use grpc_template.Greeter.{Service, around, say_hello, Stub, new_caller, call_say_hello}
use grpc_template.Cmd.Server as Server
use grpc_template.Cmd.Server.{main_server, main_server-Ended}
use grpc_template.Cmd.Client as Client
use grpc_template.Cmd.Client.{five_seconds, Call, main_client, main_client-Finished}

-- The error of a call, from what the server's interceptors return.
abbrev pub answered :
    {A : Type 0}
    → (G : Rpc) → Rpc.Err G
    → Exit (Option A × Option (Rpc.Err G)) × World
    → Option (Rpc.Err G) × World
answered G broken (done (resp, err), w) = (err, w)
answered G broken (panicked v, w) = (some broken, w)

-- What the generated stub returns, from the error of the call and the message of the response.
abbrev pub returned : {A E : Type 0} → Option E → Option A → Exit (Option A × Option E)
returned none reply = done (reply, none)
returned (some e) reply = done (none, some e)

abbrev pub message : {A E : Type 0} → Exit (Option A × Option E) → Option A
message (done (resp, err)) = resp
message (panicked v) = none

joined : {A B : Type 0} (p : A × B) {a : A} {b : B} → p.0 ≡ a → p.1 ≡ b → p ≡ (a, b)
joined (x, y) e f = cc

module _ {G : Rpc} (ES : Serving.Env G) (EC : Dialling.Env G) (R : Rate) (shared : Setup G R)
    (ls lc : ℕ) (started : World) (wrap_error : String → Rpc.Err G → Rpc.Err G) (random : Bytes)
    (stack : World → String) (broken : Rpc.Err G)
    (sleep : Context G → ℤ → World → Option (Rpc.Err G) × World) (int64_n : World → ℕ → ℕ)
    (method : String) (svc : Service) (name : Bytes) where
  -- `SayHello` behind the interceptors of the server.
  abbrev pub served : Context G → World → Exit (Option Bytes × Option (Rpc.Err G)) × World
  served =
      let b = main_server G ES R ls started shared in
      Server.chain_unary G random stack b.shared.config method b.server.unary_interceptors
        (say_hello G wrap_error svc name)

  -- The entry of the caller, before the call.
  abbrev pub announced : World → World
  announced w = emit lc Level.info "calling SayHello" (("name", Value.bytes name) ∷ []) w

  -- The context with the deadline of `WithDefaultTimeout`.
  abbrev pub timed : Context G → World → Context G
  timed ctx w = record ctx { deadline = due (pos five_seconds) ctx.deadline w.now }

  -- A call over a connection, behind the interceptors of the client.
  abbrev pub called : Call G → Call G
  called wire =
      let b = main_client G EC lc started in
      Client.chain_unary G sleep int64_n b.shared method b.client.unary_interceptors wire

  -- The entry of the service.
  abbrev pub received : Entry
  received = record {
    handler = svc.log;
    level = Level.info;
    message = "received SayHello request";
    args = ("name", Value.bytes name) ∷ [];
  }

  -- The world behind the handler and the interceptors of the server.
  abbrev pub behind : Bytes → Entry → World → World
  behind id e w = record w {
    log = (w.log ++ received ∷ []) ++ e ∷ [];
    headers = w.headers ++ ("x-request-id", id) ∷ [];
  }

  -- The entry of the server's `Logging`.
  abbrev pub ServerEntry : Bytes → Entry → Type 0
  ServerEntry id e =
      (e.handler ≡ ls)
      × (e.level ≡ Level.info)
      × (values_of "request_id" e.args ≡ Value.bytes id ∷ [])

  abbrev pub greeting : Exit (Option Bytes × Option (Rpc.Err G))
  greeting = done (some (around "Hello, " name "!"), none)

  Completed-info :
      (b : Serving.Build G ES R) (id : Bytes) (a : Option Bytes × Option (Rpc.Err G)) (e : Entry)
      → Completed {G = G} stack b.shared.config method id greeting a e
      → e.level ≡ Level.info
  Completed-info b id (r, none) e (same, ranks, args) = ranks
  Completed-info b id (r, some x) e (same, ranks, args) = absurd cc

  served-greeting :
      (ctx : Context G) (w : World)
      → length random ≡ 16
      → AreBytes random
      → (id : Bytes) × (match_uuid id ≡ true)
        × (e : Entry) × ServerEntry id e
        × (served ctx w ≡ (greeting, behind id e w))
  unfolding say_hello
  served-greeting ctx w len small =
      let (id, valid, (a, e, out, by, end)) =
        main_server-Ended {G = G} ES R ls started shared random stack method
          (say_hello G wrap_error svc name) ctx w len small in
      elim end [
        | inl (same, ranks, args) ↦ (
          id,
          valid,
          e,
          (
            by,
            Completed-info (main_server G ES R ls started shared) id a e (same, ranks, args),
            args,
          ),
          rw same out,
        )
        | inr (v, st, same, _, _, _) ↦ absurd cc
      ]

  -- For this call, the connection takes it to the server, with some context, and brings the answer
  -- back; the generated stub gives it to the interceptors, and returns their error, or the message
  -- that the server answered with.
  abbrev pub Carries :
      {Opt Reply : Type 0} → Call G → Stub G Opt Reply → Context G → Context G → World → Type 0
  Carries wire stub ctx arrived w =
      (wire (timed ctx w) (announced w) ≡ answered G broken (served arrived (announced w)))
      × (stub.say_hello ctx name [] (announced w) ≡ (
        returned (called wire ctx (announced w)).0 (message (served arrived (announced w)).0),
        (called wire ctx (announced w)).1,
      ))

  -- A call of the caller's `SayHello`, from the command line client through its interceptors to the
  -- command line server, through its interceptors to the service and back: the server answers with the
  -- greeting of the name, and the caller returns it and no error. Four entries are written, in this
  -- order: the caller's, the service's, one of the server's log handler with a UUID that is also the
  -- response header "x-request-id", and one of the client's; all four are at level Info. The
  -- conditions: the connection carries the first attempt and its answer, the stub returns what the
  -- interceptors and the server give it, `grpc.SetHeader` takes effect, and 16 random bytes can be
  -- read. The context that reaches the server may be anything.
  pub called-greeting :
      {Opt Reply : Type 0} (wire : Call G) (stub : Stub G Opt Reply) (ctx arrived : Context G)
      (w : World)
      → Carries wire stub ctx arrived w
      → length random ≡ 16
      → AreBytes random
      → (id : Bytes) × (match_uuid id ≡ true)
        × (es ec : Entry) × ServerEntry id es
        × (ec.handler ≡ lc)
        × (ec.level ≡ Level.info)
        × (call_say_hello G (new_caller G stub lc) ctx name [] w ≡ (
          greeting,
          record (behind id es (announced w)) {
            log = (((announced w).log ++ received ∷ []) ++ es ∷ []) ++ ec ∷ [];
          },
        ))
  unfolding call_say_hello new_caller
  called-greeting wire stub ctx arrived w (carried, answers) len small =
      let u = announced w in
      let (n, some_call, few, v, attempts, ec, wrote, reports) =
        main_client-Finished {G = G} EC lc started sleep int64_n method wire ctx u in
      let (id, valid, es, server, ran) = served-greeting arrived u len small in
      let reached : wire (timed ctx w) u ≡ (none, behind id es u) =
        carried ∙ ap (answered G broken) ran in
      let (once, fine, last) = Attempts-succeeded _ _ _ _ reached attempts in
      let (by, level) = subst (λ r. Reports lc r ec) fine reports in
      (
        id,
        valid,
        es,
        ec,
        server,
        by,
        level,
        answers
            ∙ joined _ (rw (fine, ran) refl)
                (subst (λ u. Logs ec u (called wire ctx (announced w)).1) last wrote),
      )
