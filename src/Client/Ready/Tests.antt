-- ===== src/Client/Ready/Tests.antt =====
-- A connection that is ready in the third round.
use grpc_template.Common.{
  ℕ, ◌≡◌, refl, ◌≤◌, inl, true, Option, none, some, arith, ltb, if◌then◌else◌,
}
use grpc_template.World.{done}
use grpc_template.Rpc.{StatusInfo}
use grpc_template.Rpc.Demo.{demo, unavailable}
use grpc_template.Client.Options.Tests.{disk}
use grpc_template.Client.Connection.{Lifecycle, unconnected}
use grpc_template.Client.Ready.{
  connecting, ready, Link, wait_ready, wait_loop, Waited, Verdict, wait_ready-Reached,
}

abbrev link : ℕ → Link
link n = record { state = λ i. if ltb i 2 then connecting else ready; changes = λ i. true }

abbrev connected : Lifecycle
connected = record unconnected { conn = some 0 }

waits : wait_ready demo disk unavailable link 5 connected ≡ done (some none)
unfolding wait_ready wait_loop
waits = refl

wait_ready-Reached_example :
    (m : ℕ) × (m ≤ 4)
    × Waited demo disk (link 0) 0 m
    × (r : Option (Option StatusInfo)) × Verdict demo disk unavailable (link 0) m r
    × (wait_ready demo disk unavailable link 9 connected ≡ done r)
wait_ready-Reached_example =
    wait_ready-Reached demo disk unavailable link connected 9 4 0 refl (inl refl) (omega arith)
