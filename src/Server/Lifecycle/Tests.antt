-- ===== src/Server/Lifecycle/Tests.antt =====
-- A server that is cancelled on an injected listener.
use grpc_template.Common.{ℕ, ◌≡◌, refl, inr, true, some, [], ◌∷◌}
use grpc_template.Rpc.{StatusInfo}
use grpc_template.Rpc.Demo.{demo, start, unavailable}
use grpc_template.Server.Options.{Server}
use grpc_template.Server.Options.Tests.{disk, plain_server}
use grpc_template.Server.Lifecycle.{
  Ending, cancelled, GrpcServer, Net, service, health, reflection, setup_server, run,
}
use grpc_template.Server.Lifecycle.Run.{Ran, run-Ran}

abbrev pub net : Net demo disk
net = record { listen = λ port. inr unavailable; address = λ l. "127.0.0.1:50051" }

abbrev pub stops : GrpcServer demo disk → ℕ → Ending StatusInfo
stops g l = cancelled

abbrev pub injected : Server demo disk
injected = record plain_server { listener = some 4; registrars = 1 ∷ 2 ∷ []; reflection = true }

registered :
    (setup_server demo disk injected start).0.registered
    ≡ service 1 ∷ service 2 ∷ health ∷ reflection ∷ []
unfolding setup_server
registered = refl

run-Ran_example :
    Ran {G = demo} {E = disk} net stops injected start (run demo disk net stops injected start)
run-Ran_example = run-Ran net stops injected start
