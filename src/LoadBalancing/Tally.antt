-- ===== src/LoadBalancing/Tally.antt =====
-- The counts of the load balancing demos.
use grpc_template.Common.{
  ℕ, zero, suc, ◌+◌, ◌≡◌, refl, ◌⊎◌, inl, inr, Option, none, some, List, [], ◌∷◌, String, Bytes,
  arith, bytes_eq, bytes_eq_iff, if◌then◌else◌,
}
use grpc_template.World.{World, Exit, done, panicked}
use grpc_template.Rpc.{Rpc, Context}
use grpc_template.Greeter.{Caller, call_say_hello, call_say_hello_server_stream}
use grpc_template.LoadBalancing.{
  Hits, bump, repeat_calls, Env, Replies, addr_from_header, unary_round, stream_round,
}

-- `hits[addr]`, which is 0 for a missing key.
abbrev pub count : Bytes → Hits → ℕ
count addr [] = 0
count addr ((a, n) ∷ hits) = if bytes_eq a addr then n else count addr hits

-- How often a call has been routed to an address.
abbrev pub occurrences : Bytes → List (Option Bytes) → ℕ
occurrences addr [] = 0
occurrences addr (none ∷ os) = occurrences addr os
occurrences addr (some a ∷ os) =
    let rest = occurrences addr os in if bytes_eq a addr then rest + 1 else rest

count-bump :
    (a addr : Bytes) (hits : Hits)
    → count a (bump addr hits) ≡ (if bytes_eq addr a then count a hits + 1 else count a hits)
unfolding bump
count-bump a addr [] = ground (arith, bytes_eq_iff addr a)
count-bump a addr ((b, n) ∷ hits) =
    ground
      (arith, bytes_eq_iff b addr, bytes_eq_iff b a, bytes_eq_iff addr a, count-bump a addr hits)

-- All hits, and all calls that were not routed.
abbrev pub total : Hits → ℕ
total [] = 0
total ((a, n) ∷ hits) = n + total hits

abbrev pub failures : List (Option Bytes) → ℕ
failures [] = 0
failures (none ∷ os) = failures os + 1
failures (some a ∷ os) = failures os

total-bump : (addr : Bytes) (hits : Hits) → total (bump addr hits) ≡ total hits + 1
unfolding bump
total-bump addr [] = refl
total-bump addr ((b, n) ∷ hits) = ground (arith, total-bump addr hits)

-- A round's effect on the map.
abbrev pub tallied : Option Bytes → Hits → Hits
tallied none hits = hits
tallied (some addr) hits = bump addr hits

module _ (round : ℕ → Hits → World → Exit Hits × World) (outcome : ℕ → World → Option Bytes) where
  -- The outcomes of the calls from `i`, each in the world that the one before has left.
  abbrev pub outcomes : ℕ → ℕ → World → List (Option Bytes)
  outcomes zero i w = []
  outcomes (suc n) i w = outcome i w ∷ outcomes n (suc i) (round i [] w).1

  -- A round panics or counts its outcome, and leaves the same world whatever the map is.
  abbrev pub Tallies : Type 0
  Tallies =
      (i : ℕ) (hits : Hits) (w : World)
      → ((round i hits w).1 ≡ (round i [] w).1)
        × (((v : String) × ((round i hits w).0 ≡ panicked v))
            ⊎ ((round i hits w).0 ≡ done (tallied (outcome i w) hits)))

  abbrev Counted : ℕ → ℕ → Hits → World → Hits → Type 0
  Counted n i hits w hits' =
      ((a : Bytes) → count a hits' ≡ count a hits + occurrences a (outcomes n i w))
      × (total hits' + failures (outcomes n i w) ≡ total hits + n)

  one_more :
      (n i : ℕ) (hits hits' : Hits) (w : World) (o : Option Bytes)
      → outcome i w ≡ o
      → Counted n (suc i) (tallied o hits) (round i [] w).1 hits'
      → Counted (suc n) i hits w hits'
  one_more n i hits hits' w none e (c, t) = ((λ a. rw e (c a)), rw e (omega arith))
  one_more n i hits hits' w (some addr) e (c, t) = (
    (λ a. ground (arith, c a, count-bump a addr hits)),
    rw e (omega (arith, total-bump addr hits)),
  )

  repeat_calls-Counted :
      (n i : ℕ) (hits hits' : Hits) (w w' : World)
      → Tallies
      → repeat_calls round n i hits w ≡ (done hits', w')
      → Counted n i hits w hits'
  unfolding repeat_calls
  repeat_calls-Counted zero i hits hits' w w' h e =
      let same : hits ≡ hits' = ground arith in rw same ((λ a. omega arith), omega arith)
  repeat_calls-Counted (suc n) i hits hits' w w' h e =
      let (same, r) = h i hits w in
      elim r [
        | inl (v, panics) ↦ ground arith
        | inr counts ↦ one_more n i hits hits' w (outcome i w) refl (
            repeat_calls-Counted n (suc i) (tallied (outcome i w) hits) hits' (round i [] w).1 w' h
              (ground arith))
      ]

-- A map that counts the outcomes of `n` calls.
abbrev pub Counts : ℕ → List (Option Bytes) → Hits → Type 0
Counts n os hits = ((a : Bytes) → count a hits ≡ occurrences a os) × (total hits + failures os ≡ n)

from_none :
    (round : ℕ → Hits → World → Exit Hits × World) (outcome : ℕ → World → Option Bytes) (n : ℕ)
    (hits : Hits) (w w' : World)
    → Tallies round outcome
    → repeat_calls round n 0 [] w ≡ (done hits, w')
    → Counts n (outcomes round outcome n 0 w) hits
from_none round outcome n hits w w' h e =
    let (c, t) = repeat_calls-Counted round outcome n 0 [] hits w w' h e in
    ((λ a. omega (arith, c a)), omega arith)

-- Where a call has gone: to the address in its response headers, or nowhere if it has failed.
abbrev pub routed :
    {A : Type 0} → (G : Rpc) → Env G → Exit (A × Option (Rpc.Err G)) × World → Option Bytes
routed G env (panicked v, w) = none
routed G env (done (reply, some e), w) = none
routed G env (done (reply, none), w) = some (addr_from_header G (env.header w))

module _ {G : Rpc} (env : Env G) (caller : Caller G ℕ Replies) (ctx : Context G) (l : ℕ) where
  abbrev pub request : ℕ → World → Exit (Option Bytes × Option (Rpc.Err G)) × World
  request i = call_say_hello G caller ctx (env.sprintf "Request-%d" (i + 1)) (0 ∷ [])

  abbrev pub opening : ℕ → World → Exit (Option Replies × Option (Rpc.Err G)) × World
  opening i = call_say_hello_server_stream G caller ctx (env.sprintf "Stream-%d" (i + 1)) (0 ∷ [])

  unary_round-tallied :
      (i : ℕ) (hits : Hits) (w : World) (r : Exit (Option Bytes × Option (Rpc.Err G)) × World)
      → request i w ≡ r
      → ((unary_round G env caller ctx l i hits w).1 ≡ (unary_round G env caller ctx l i [] w).1)
        × (((v : String) × ((unary_round G env caller ctx l i hits w).0 ≡ panicked v))
            ⊎ ((unary_round G env caller ctx l i hits w).0 ≡ done (tallied (routed G env r) hits)))
  unfolding unary_round
  unary_round-tallied i hits w (panicked v, u) e = (ground arith, inl (v, ground arith))
  unary_round-tallied i hits w (done (reply, some x), u) e = (ground arith, inr (ground arith))
  unary_round-tallied i hits w (done (reply, none), u) e = (ground arith, inr (ground arith))

  stream_round-tallied :
      (i : ℕ) (hits : Hits) (w : World) (r : Exit (Option Replies × Option (Rpc.Err G)) × World)
      → opening i w ≡ r
      → ((stream_round G env caller ctx l i hits w).1 ≡ (stream_round G env caller ctx l i [] w).1)
        × (((v : String) × ((stream_round G env caller ctx l i hits w).0 ≡ panicked v))
            ⊎ ((stream_round G env caller ctx l i hits w).0 ≡ done (tallied (routed G env r) hits)))
  unfolding stream_round
  stream_round-tallied i hits w (panicked v, u) e = (ground arith, inl (v, ground arith))
  stream_round-tallied i hits w (done (reply, some x), u) e = (ground arith, inr (ground arith))
  stream_round-tallied i hits w (done (reply, none), u) e = (ground arith, inr (ground arith))

  -- The outcomes of the calls of a demo, in order.
  abbrev pub unary_outcomes : ℕ → World → List (Option Bytes)
  unary_outcomes n =
      outcomes (unary_round G env caller ctx l) (λ i w. routed G env (request i w)) n 0

  abbrev pub stream_outcomes : ℕ → World → List (Option Bytes)
  stream_outcomes n =
      outcomes (stream_round G env caller ctx l) (λ i w. routed G env (opening i w)) n 0

  -- The map that a demo has counted in `n` rounds, if no call has panicked, has for each address the
  -- number of the calls that were routed to it, as the response headers say; a failed call counts
  -- for none, and all counts and the failed calls make `n`. So for the loop of either demo.
  pub repeat_calls-Counts :
      (n : ℕ) (w w1 w2 : World) (unary stream : Hits)
      → repeat_calls (unary_round G env caller ctx l) n 0 [] w ≡ (done unary, w1)
      → repeat_calls (stream_round G env caller ctx l) n 0 [] w ≡ (done stream, w2)
      → Counts n (unary_outcomes n w) unary × Counts n (stream_outcomes n w) stream
  repeat_calls-Counts n w w1 w2 unary stream e1 e2 = (
    from_none (unary_round G env caller ctx l) (λ i u. routed G env (request i u)) n unary w w1
        (λ i hits u. unary_round-tallied i hits u _ refl) e1,
    from_none (stream_round G env caller ctx l) (λ i u. routed G env (opening i u)) n stream w w2
        (λ i hits u. stream_round-tallied i hits u _ refl) e2,
  )
