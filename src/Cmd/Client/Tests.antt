-- ===== src/Cmd/Client/Tests.antt =====
-- A call of the command line client that fails twice.
use grpc_template.Common.{ℕ, ◌+◌, ℤ, Option, none, some, ltb, if◌then◌else◌}
use grpc_template.World.{World}
use grpc_template.Rpc.{Context, StatusInfo}
use grpc_template.Rpc.Demo.{demo, background, start, unavailable}
use grpc_template.Client.Options.Tests.{disk}
use grpc_template.Cmd.Client.{main_client, chain_unary, Finished, main_client-Finished}

abbrev sleep : Context demo → ℤ → World → Option StatusInfo × World
sleep ctx d w = (none, record w { now = w.now + 500 })

abbrev draw : World → ℕ → ℕ
draw w n = 0

-- The server is unavailable until the clock reaches 1000.
abbrev call : Context demo → World → Option StatusInfo × World
call ctx w = (if ltb w.now 1000 then some unavailable else none, w)

main_client-Finished_example :
    Finished demo sleep draw (main_client demo disk 9 start).shared "/m" 9 call background start (
      chain_unary demo sleep draw
        (main_client demo disk 9 start).shared
        "/m"
        (main_client demo disk 9 start).client.unary_interceptors
        call
        background
        start)
main_client-Finished_example =
    main_client-Finished {G = demo} disk 9 start sleep draw "/m" call background start
