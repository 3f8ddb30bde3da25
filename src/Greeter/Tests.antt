-- ===== src/Greeter/Tests.antt =====
-- The greeter on streams and stubs of its own.
use grpc_template.Common.{
  ℕ, ◌≡◌, refl, ◌⊎◌, Option, none, some, List, [], ◌∷◌, String, codes, length, ltb, if◌then◌else◌,
}
use grpc_template.World.{Level, Value, emit, done}
use grpc_template.Rpc.{StatusInfo}
use grpc_template.Rpc.Demo.{demo, background, start, unavailable}
use grpc_template.Greeter.{
  Service, Stub, say_hello, say_hello_server_stream, new_caller, call_say_hello,
}
use grpc_template.Greeter.Script.{
  Event, recorder, AllSent, FailedAt, say_hello_server_stream-script,
}

abbrev wrapping : String → StatusInfo → StatusInfo
wrapping format e = record { code = e.code; message = format }

-- The second greeting, the third event, is refused.
abbrev breaking : List Event → Option StatusInfo
breaking h = if ltb (length h) 3 then none else some unavailable

abbrev service : Service
service = record { log = 7 }

say_hello_server_stream-script_example :
    (r : Option StatusInfo) × (h : List Event) × (say_hello_server_stream demo wrapping
        (recorder demo breaking)
        service
        (codes "Alice")
        start
        []
      ≡ (
        r,
        (
          emit 7 Level.info "received SayHelloServerStream request"
              (("name", Value.bytes (codes "Alice")) ∷ [])
              start,
          h,
        ),
      ))
    × (AllSent demo wrapping breaking (codes "Alice") r h
        ⊎ ((k : ℕ) × FailedAt demo wrapping breaking (codes "Alice") r h k))
say_hello_server_stream-script_example =
    say_hello_server_stream-script demo wrapping service breaking (codes "Alice") start

-- The stub that runs the service in the same process.
abbrev in_process : Stub demo ℕ ℕ
in_process = record {
  say_hello = λ ctx name opts. say_hello demo wrapping service name ctx;
  say_hello_server_stream = λ ctx name opts w. (done (some 1, none), w);
}

called :
    (call_say_hello demo (new_caller demo in_process 3) background (codes "World") [] start).0
    ≡ done (some (codes "Hello, World!"), none)
unfolding call_say_hello new_caller say_hello
called = refl
