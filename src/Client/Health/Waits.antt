-- ===== src/Client/Health/Waits.antt =====
-- The waits of the health watch, and when its goroutine returns.
use grpc_template.Common.{
  ℕ, suc, ◌+◌, ◌*◌, ◌^◌, ◌≡◌, refl, ap, sym, ◌∙◌, Bool, true, false, Bool-cases, inl, inr, ◌||◌,
  not, List, [], ◌∷◌, ◌++◌, String, arith, map, if◌then◌else◌, length,
}
use grpc_template.World.{World, Entry, Level}
use grpc_template.Rpc.{Rpc}
use grpc_template.Client.Options.{Env, Client}
use grpc_template.Client.Health.{
  initial_backoff, max_backoff, min, next_backoff, sleep_or_done, Event, start_failed, streamed,
  Turn, waited, log_statuses, warn, watch_loop,
}

-- Half a second doubled `k` times, and at most 30 seconds.
abbrev pub capped : ℕ → ℕ
capped k = min (initial_backoff * 2 ^ k) max_backoff

next_backoff-capped : (k : ℕ) → next_backoff (capped k) ≡ capped (suc k)
unfolding next_backoff
next_backoff-capped k = let e : 2 ^ suc k ≡ 2 * 2 ^ k = omega arith in ground arith

abbrev pub is_warning : Level → Bool
is_warning Level.warn = true
is_warning _ = false

-- The entries at level Warn.
abbrev pub warnings : List Entry → ℕ
warnings [] = 0
warnings (e ∷ es) = let n = warnings es in if is_warning e.level then n + 1 else n

warnings-append : (xs ys : List Entry) → warnings (xs ++ ys) ≡ warnings xs + warnings ys
warnings-append [] ys = omega arith
warnings-append (x ∷ xs) ys = ground (arith, warnings-append xs ys)

module _ {G : Rpc} {E : Env G} where
  -- The turns that come to their wait: those before the context is found to have ended, up to the
  -- one whose wait it ends.
  abbrev pub waiting : List (Turn G E) → List (Turn G E)
  waiting [] = []
  waiting (t ∷ ts) =
      let rest = waiting ts in
      if t.over then [] else if sleep_or_done t.fired then t ∷ rest else t ∷ []

  -- How many turns have failed since a stream was open: before each wait, from `k` on.
  abbrev pub failures : ℕ → List (Turn G E) → List ℕ
  failures k [] = []
  failures k (t ∷ ts) = elim t.event [
    | start_failed e ↦ k ∷ failures (suc k) ts
    | streamed sts e ↦ 0 ∷ failures 1 ts
  ]

  -- The context ends in this turn, before its wait or in it.
  abbrev pub ends : Turn G E → Bool
  ends t = t.over || not (sleep_or_done t.fired)

  abbrev pub any_ends : List (Turn G E) → Bool
  any_ends [] = false
  any_ends (t ∷ ts) = ends t || any_ends ts

  abbrev From : Client G E → List (Turn G E) → ℕ → World → Type 0
  From c ts k w =
      let r = watch_loop G E c ts (capped k) w in
      (r.waits ≡ map capped (failures k (waiting ts)))
      × (r.returned ≡ any_ends ts)
      × (warnings r.world.log ≡ warnings w.log + length r.waits)

  log_statuses-warnings :
      (c : Client G E) (sts : List String) (w : World)
      → warnings (log_statuses G E c sts w).log ≡ warnings w.log
  unfolding log_statuses
  log_statuses-warnings c [] w = refl
  log_statuses-warnings c (st ∷ sts) w =
      omega (arith, log_statuses-warnings c sts _, warnings-append w.log _)

  warn-warnings :
      (c : Client G E) (m : String) (b : ℕ) (e : Rpc.Err G) (w : World)
      → warnings (warn G E c m b e w).log ≡ warnings w.log + 1
  warn-warnings c m b e w = warnings-append w.log _

  -- A turn whose wait is `capped j`, which has come to the world `w1` before its warning.
  module _ (c : Client G E) (t : Turn G E) (ts : List (Turn G E)) (k j : ℕ) (w w1 : World)
      (m : String) (e : Rpc.Err G) where
    abbrev after : World
    after = warn G E c m (capped j) e w1

    abbrev Turned : Type 0
    Turned = watch_loop G E c (t ∷ ts) (capped k) w ≡ (
        if t.over
        then record { waits = []; world = w1; returned = true }
        else if sleep_or_done t.fired
        then waited G E (capped j) (watch_loop G E c ts (capped (suc j)) after)
        else record { waits = capped j ∷ []; world = after; returned = true })

    waits_on : t.over ≡ false → sleep_or_done t.fired ≡ true → waiting (t ∷ ts) ≡ t ∷ waiting ts
    waits_on h f = ground arith

    waits_last : t.over ≡ false → sleep_or_done t.fired ≡ false → waiting (t ∷ ts) ≡ t ∷ []
    waits_last h f = ground arith

    one_turn :
        Turned
        → ((ts : List (Turn G E)) → failures k (t ∷ ts) ≡ j ∷ failures (suc j) ts)
        → warnings w1.log ≡ warnings w.log
        → From c ts (suc j) after
        → From c (t ∷ ts) k w
    one_turn step counted quiet (waits, over, warned) = elim (Bool-cases t.over) [
      | inl h ↦ (rw (step, h) refl, rw (step, h) refl, rw (step, h) (omega arith))
      | inr h ↦ elim (Bool-cases (sleep_or_done t.fired)) [
        | inl f ↦ (
          (rw (step, h, f) refl)
              ∙ ap (λ ws. capped j ∷ ws) waits
              ∙ ap (map capped) (sym (ap (failures k) (waits_on h f) ∙ counted (waiting ts))),
          rw (step, h, f) over,
          rw (step, h, f) (omega (arith, warn-warnings c m (capped j) e w1)),
        )
        | inr f ↦ (
          (rw (step, h, f) refl)
              ∙ ap (map capped) (sym (ap (failures k) (waits_last h f) ∙ counted [])),
          rw (step, h, f) refl,
          rw (step, h, f) (omega (arith, warn-warnings c m (capped j) e w1)),
        )
      ]
    ]

  turn_cases :
      (c : Client G E) (t : Turn G E) (ts : List (Turn G E)) (k : ℕ) (w : World) (ev : Event G E)
      → t.event ≡ ev
      → ((j : ℕ) (v : World) → From c ts j v)
      → From c (t ∷ ts) k w
  unfolding watch_loop
  turn_cases c t ts k w (start_failed e) is h =
      one_turn c t ts k k w w "health watch failed to start, retrying" e
        (rw (is, next_backoff-capped k) refl) (λ us. rw is refl) refl (h (suc k) _)
  turn_cases c t ts k w (streamed sts e) is h =
      one_turn c t ts k 0 w (log_statuses G E c sts w) "health watch stream ended, reconnecting" e
        (rw (is, next_backoff-capped 0) refl) (λ us. rw is refl) (log_statuses-warnings c sts w)
        (h 1 _)

  watch_loop-From : (c : Client G E) (ts : List (Turn G E)) (k : ℕ) (w : World) → From c ts k w
  unfolding watch_loop
  watch_loop-From c [] k w = (refl, refl, omega arith)
  watch_loop-From c (t ∷ ts) k w = turn_cases c t ts k w t.event refl (watch_loop-From c ts)

  -- The turns up to the one in which the context ends.
  abbrev pub up_to_end : List (Turn G E) → List (Turn G E)
  up_to_end [] = []
  up_to_end (t ∷ ts) = let rest = up_to_end ts in if ends t then t ∷ [] else t ∷ rest

  turn-up_to_end :
      (c : Client G E) (t : Turn G E) (ts : List (Turn G E)) (b : ℕ) (w : World) (ev : Event G E)
      → t.event ≡ ev
      → ((b : ℕ) (w : World) → watch_loop G E c ts b w ≡ watch_loop G E c (up_to_end ts) b w)
      → watch_loop G E c (t ∷ ts) b w ≡ watch_loop G E c (up_to_end (t ∷ ts)) b w
  unfolding watch_loop
  turn-up_to_end c t ts b w (start_failed e) is h =
      let rest = h (next_backoff b) (warn G E c "health watch failed to start, retrying" b e w) in
      ground arith
  turn-up_to_end c t ts b w (streamed sts e) is h =
      let rest = h (next_backoff initial_backoff) (
        warn G E c "health watch stream ended, reconnecting" initial_backoff e
          (log_statuses G E c sts w)) in
      ground arith

  watch_loop-up_to_end :
      (c : Client G E) (ts : List (Turn G E)) (b : ℕ) (w : World)
      → watch_loop G E c ts b w ≡ watch_loop G E c (up_to_end ts) b w
  unfolding watch_loop
  watch_loop-up_to_end c [] b w = refl
  watch_loop-up_to_end c (t ∷ ts) b w =
      turn-up_to_end c t ts b w t.event refl (watch_loop-up_to_end c ts)

  -- The health watch, whatever the server and the context do in its turns. The goroutine returns
  -- exactly if the context ends in some turn, before its wait or in it, and all that it
  -- has done by then, entries included, is what it does on the turns up to that one. Its waits, in order, are half a second, doubled for every turn that has failed since a stream
  -- was last open, and never more than 30 seconds; and each wait has one entry at level Warn.
  pub watch_loop-waits :
      (c : Client G E) (ts : List (Turn G E)) (w : World)
      → let r = watch_loop G E c ts initial_backoff w in
        (r.waits ≡ map capped (failures 0 (waiting ts)))
        × (r.returned ≡ any_ends ts)
        × (warnings r.world.log ≡ warnings w.log + length r.waits)
        × (r ≡ watch_loop G E c (up_to_end ts) initial_backoff w)
  watch_loop-waits c ts w =
      let (waits, over, warned) = watch_loop-From c ts 0 w in
      (waits, over, warned, watch_loop-up_to_end c ts initial_backoff w)
