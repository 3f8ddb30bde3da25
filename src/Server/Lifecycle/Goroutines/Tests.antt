-- ===== src/Server/Lifecycle/Goroutines/Tests.antt =====
-- A signal that overtakes the goroutine, with an RPC that is pending.
use grpc_template.Common.{◌≡◌, refl, ◌≢◌, true, none, arith}
use grpc_template.Server.Lifecycle.Goroutines.{
  Serving, Returns, returned, launched, in_serve, exited, Running, signals, rpc_begins,
  logs_listening, serve_returns, sends, rpc_ends, selects_done, logs_signal, shuts_down, stops,
  drains, logs_stopped, joins, Reach, at_start, outside, moved,
}
use grpc_template.Rpc.{StatusInfo}
use grpc_template.Rpc.Demo.{demo, start}
use grpc_template.Server.Options.Tests.{disk}
use grpc_template.Server.Lifecycle.{Ending, take_listener}
use grpc_template.Server.Lifecycle.Tests.{net, injected}
use grpc_template.Server.Lifecycle.Goroutines.Whole.{launch, Agrees, Reach-run}
use grpc_template.Server.Lifecycle.Goroutines.Progress.{Going, Reach-Going, Reach-Returns}

abbrev first : Running demo disk
first = launch net injected start

abbrev Reached : Running demo disk → Type 0
Reached = Reach demo disk net 4 first

in_serve-launched : ◌≢◌ {A = Serving demo} in_serve launched
in_serve-launched e = ground arith

abbrev Stopping : Type 0
Stopping = (s : Running demo disk) × Reached s × (s.is_stopped ≡ true) × (s.pending ≡ 1)

-- The signal is logged before the listener's address; an RPC is pending at GracefulStop.
abbrev busy : Stopping
busy = (
  _,
  moved
      (moved
        (moved
          (outside
            (moved
              (moved (moved (outside at_start (signals refl)) (selects_done refl refl))
                (logs_signal refl))
              (logs_listening refl))
            (rpc_begins in_serve-launched refl))
          (shuts_down refl))
        (stops refl))
      (serve_returns none refl refl),
  refl,
  refl,
)

abbrev Finished : Type 0
Finished = (s : Running demo disk) × Reached s × (s.caller ≡ returned none)

abbrev joined : Finished
joined = (
  _,
  moved
      (moved
        (moved (outside (moved busy.1 (sends none refl refl)) (rpc_ends 0 refl)) (drains refl refl))
        (logs_stopped refl))
      (joins none refl refl),
  refl,
)

Reach-run_example :
    (joined.0.serving ≡ exited)
    × (joined.0.err_ch ≡ none)
    × (o : Ending StatusInfo) × Agrees net injected start joined.0 none o
unfolding take_listener
Reach-run_example = Reach-run net injected start 4 none refl refl joined.1 joined.2

Reach-Returns_example : Returns demo disk net 4 busy.0
Reach-Returns_example = Reach-Returns net 4 first.server busy.1 busy.2

Reach-Going_example : Going net 4 first.server busy.0
Reach-Going_example = Reach-Going net 4 first.server busy.1
