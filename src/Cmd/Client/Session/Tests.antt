-- ===== src/Cmd/Client/Session/Tests.antt =====
-- A session whose stream breaks.
use grpc_template.Common.{ℕ, inl, Option, none, some, [], ◌∷◌, codes}
use grpc_template.World.{done}
use grpc_template.Rpc.{StatusInfo}
use grpc_template.Rpc.Demo.{demo, background, start, unavailable}
use grpc_template.Client.Options.Tests.{disk, plain_client}
use grpc_template.Client.Connection.{Dial, connect, unconnected}
use grpc_template.Client.Reflection.{Server}
use grpc_template.Greeter.{Stub}
use grpc_template.Cmd.Client.Session.{Replies, main, Left, main-Left}

abbrev dials : Dial demo disk
dials target opts = none

abbrev listed : ℕ → Server demo disk
listed n = record { open_error = none; answer = inl (some ("greeter" ∷ [])) }

abbrev stub : ℕ → Stub demo ℕ (Replies demo)
stub n = record {
  say_hello = λ ctx name opts w. (done (some name, none), w);
  say_hello_server_stream = λ ctx name opts w.
      (done (some (record { messages = codes "a" ∷ []; failure = some unavailable }), none), w);
}

abbrev closing : ℕ → Option StatusInfo
closing n = none

main-Left_example :
    Left demo disk plain_client 3 dials listed stub closing background
      (connect demo disk dials plain_client start unconnected).0
      (main demo disk plain_client 3 dials listed stub closing background start).0
      (main demo disk plain_client 3 dials listed stub closing background start).1.1
main-Left_example = main-Left demo disk plain_client 3 dials listed stub closing background start
