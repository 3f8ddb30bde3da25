-- ===== src/Client/Health/Tests.antt =====
-- A watch that fails to start twice, is open once, and whose context ends during a wait.
use grpc_template.Common.{◌+◌, ◌≡◌, refl, true, false, [], ◌∷◌, map, List, length}
use grpc_template.Rpc.Demo.{demo, start, unavailable}
use grpc_template.Client.Options.Tests.{disk, plain_client}
use grpc_template.Client.Health.{
  Fired, timer, context_done, sleep_or_done, Event, start_failed, streamed, Turn, initial_backoff,
  watch_loop,
}
use grpc_template.Client.Health.Waits.{
  capped, up_to_end, waiting, failures, any_ends, warnings, watch_loop-waits,
}

abbrev turn : Event demo disk → Fired → Turn demo disk
turn e f = record { event = e; over = false; fired = f }

abbrev turns : List (Turn demo disk)
turns =
    turn (start_failed unavailable) timer
    ∷ turn (start_failed unavailable) timer
    ∷ turn (streamed ("SERVING" ∷ []) unavailable) timer
    ∷ turn (start_failed unavailable) context_done
    ∷ turn (start_failed unavailable) timer
    ∷ []

watch_loop-waits_example :
    ((watch_loop demo disk plain_client turns initial_backoff start).waits
      ≡ map capped (failures {G = demo} {E = disk} 0 (waiting turns)))
    × ((watch_loop demo disk plain_client turns initial_backoff start).returned
        ≡ any_ends {G = demo} {E = disk} turns)
    × (warnings (watch_loop demo disk plain_client turns initial_backoff start).world.log
        ≡ warnings start.log
          + length (watch_loop demo disk plain_client turns initial_backoff start).waits)
    × (watch_loop demo disk plain_client turns initial_backoff start
        ≡ watch_loop demo disk plain_client
            (up_to_end {G = demo} {E = disk} turns)
            initial_backoff
            start)
watch_loop-waits_example = watch_loop-waits plain_client turns start

waits :
    (watch_loop demo disk plain_client turns initial_backoff start).waits
    ≡ 500_000_000 ∷ 1_000_000_000 ∷ 500_000_000 ∷ 1_000_000_000 ∷ []
unfolding watch_loop sleep_or_done
waits = refl

returns : (watch_loop demo disk plain_client turns initial_backoff start).returned ≡ true
unfolding watch_loop sleep_or_done
returns = refl
