-- ===== src/Client/Health.antt =====
-- internal/client/client.go: the goroutine of `startHealthWatch`, and `sleepOrDone`. What the server
-- and the context do is a list with one element for each turn of the loop.
pub mod Waits
mod Tests
use grpc_template.Common.{ℕ, ◌*◌, Bool, true, false, List, [], ◌∷◌, String, leb, if◌then◌else◌}
use grpc_template.World.{World, Level, Value, emit}
use grpc_template.Rpc.{Rpc}
use grpc_template.Client.Options.{Env, Client}

abbrev pub initial_backoff : ℕ
initial_backoff = 500_000_000

abbrev pub max_backoff : ℕ
max_backoff = 30_000_000_000

abbrev pub min : ℕ → ℕ → ℕ
min a b = if leb a b then a else b

-- `min(backoff*2, maxBackoff)`
pub next_backoff : ℕ → ℕ
next_backoff b = min (b * 2) max_backoff

-- Which of the two channels of `sleepOrDone` is ready first.
pub data Fired : Type 0 where
  timer context_done : Fired

-- `sleepOrDone`
pub sleep_or_done : Fired → Bool
sleep_or_done timer = true
sleep_or_done context_done = false

module _ (G : Rpc) (E : Env G) where
  -- `watchFn` fails, or its stream delivers statuses until it ends.
  pub data Event : Type 0 where
    start_failed : Rpc.Err G → Event
    streamed : List String → Rpc.Err G → Event

  -- A turn: what the server does, whether the context has ended when its error is looked at, and how
  -- the wait ends.
  pub record Turn : Type 0 where
    pub event : Event
    pub over : Bool
    pub fired : Fired

  pub log_statuses : Client G E → List String → World → World
  log_statuses c [] w = w
  log_statuses c (st ∷ sts) w = log_statuses c sts (
      emit c.logger Level.info "health status changed"
        (("target", Value.text c.target) ∷ ("status", Value.text st) ∷ []) w)

  abbrev pub warn : Client G E → String → ℕ → Rpc.Err G → World → World
  warn c m backoff e w =
      emit c.logger Level.warn m
        (("target", Value.text c.target)
          ∷ ("backoff", Value.elapsed backoff)
          ∷ ("error", Value.text (Rpc.error_text G e))
          ∷ [])
        w

  -- What the goroutine has done: its waits, the world, and whether it has returned.
  pub record Watched : Type 0 where
    pub waits : List ℕ
    pub world : World
    pub returned : Bool

  -- The outcome behind one more wait.
  abbrev pub waited : ℕ → Watched → Watched
  waited backoff r = record r { waits = backoff ∷ r.waits }

  pub watch_loop : Client G E → List Turn → ℕ → World → Watched
  unfolding next_backoff log_statuses sleep_or_done
  watch_loop c [] backoff w = record { waits = []; world = w; returned = false }
  watch_loop c (t ∷ ts) backoff w = elim t.event [
    | start_failed e ↦
        let w' = warn c "health watch failed to start, retrying" backoff e w in
        let rest = watch_loop c ts (next_backoff backoff) w' in
        if t.over
        then record { waits = []; world = w; returned = true }
        else if sleep_or_done t.fired
        then waited backoff rest
        else record { waits = backoff ∷ []; world = w'; returned = true }
    | streamed sts e ↦
        let w1 = log_statuses c sts w in
        let w' = warn c "health watch stream ended, reconnecting" initial_backoff e w1 in
        let rest = watch_loop c ts (next_backoff initial_backoff) w' in
        if t.over
        then record { waits = []; world = w1; returned = true }
        else if sleep_or_done t.fired
        then waited initial_backoff rest
        else record { waits = initial_backoff ∷ []; world = w'; returned = true }
  ]
