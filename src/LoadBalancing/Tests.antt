-- ===== src/LoadBalancing/Tests.antt =====
-- A demo against two servers that take turns, the second of which is down once.
use grpc_template.Common.{ℕ, ◌+◌, ◌≡◌, refl, none, some, [], ◌∷◌, codes, ◌==◌, ltb, if◌then◌else◌}
use grpc_template.World.{done}
use grpc_template.Rpc.Demo.{demo, background, start, unavailable}
use grpc_template.Greeter.{Stub, Caller, call_say_hello}
use grpc_template.LoadBalancing.{
  Replies, Env, bump, drain_stream, repeat_calls, addr_from_header, unary_round,
}

abbrev stub : Stub demo ℕ Replies
stub = record {
  say_hello = λ ctx name opts w. (
    done (if w.now == 101 then (none, some unavailable) else (some name, none)),
    record w { now = w.now + 1 },
  );
  say_hello_server_stream = λ ctx name opts w.
      (done (some (codes "a" ∷ codes "b" ∷ []), none), record w { now = w.now + 1 });
}

abbrev caller : Caller demo ℕ Replies
caller = record { client = stub; log = 1 }

-- The first server is "a"; the second sends no header.
abbrev env : Env demo
env = record {
  header = λ w. if ltb w.now 102 then ("x-server-addr", codes "a" ∷ []) ∷ [] else [];
  sprintf = λ f n. codes "r";
  range = λ hits. hits;
}

drained : drain_stream (codes "a" ∷ codes "b" ∷ []) ≡ 2
unfolding drain_stream
drained = refl

-- The second call fails, and the third comes without a header.
counted :
    (repeat_calls (unary_round demo env caller background 1) 3 0 [] start).0
    ≡ done ((codes "a", 1) ∷ (codes "unknown", 1) ∷ [])
unfolding unary_round call_say_hello repeat_calls bump addr_from_header
counted = refl
