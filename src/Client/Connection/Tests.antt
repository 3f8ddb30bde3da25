-- ===== src/Client/Connection/Tests.antt =====
-- Sequences of calls on a client.
use grpc_template.Common.{◌≡◌, refl, none, some, ◌∷◌}
use grpc_template.Rpc.Demo.{demo, start}
use grpc_template.Client.Options.Tests.{disk, plain_client}
use grpc_template.Client.Connection.{
  unconnected, assign_conn, start_health_watch, close, Dial, connect,
}
use grpc_template.Client.Connection.Leaks.{close-start_health_watch}
use grpc_template.Client.Connection.Calls.{
  IsTidy, Outcome, connect-Outcome, created, connects, Sequence-IsTidy,
}

abbrev dials : Dial demo disk
dials target opts = none

close-start_health_watch_example :
    ((start_health_watch (close (assign_conn unconnected))).conn ≡ none)
    × ((start_health_watch (close (assign_conn unconnected))).health_cancel ≡ some 1)
    × ((start_health_watch (close (assign_conn unconnected))).live_watches
        ≡ 1 ∷ (close (assign_conn unconnected)).live_watches)
close-start_health_watch_example = close-start_health_watch unconnected refl

connect-Outcome_example :
    Outcome {G = demo} {E = disk} plain_client dials start unconnected
      (connect demo disk dials plain_client start unconnected)
connect-Outcome_example = connect-Outcome {G = demo} {E = disk} plain_client dials start unconnected

Sequence-IsTidy_example :
    IsTidy (connect demo disk dials plain_client start unconnected).1.1
    × (close (connect demo disk dials plain_client start unconnected).1.1 ≡ record unconnected {
      next = (connect demo disk dials plain_client start unconnected).1.1.next;
    })
Sequence-IsTidy_example =
    Sequence-IsTidy {G = demo} {E = disk} plain_client
      (connect demo disk dials plain_client start unconnected).1.1 (connects dials start created)
