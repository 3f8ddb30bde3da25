-- ===== src/Greeter/Script.antt =====
-- What the streaming handler of the greeter does to its stream, as one sequence of events.
use grpc_template.Common.{
  ℕ, zero, suc, ◌+◌, ◌*◌, ◌<◌, ◌≡◌, refl, ◌⊎◌, inl, inr, Option, none, some, Option-cases, List, [],
  ◌∷◌, ◌++◌, String, Bytes, arith, take,
}
use grpc_template.World.{World, Level, Value, emit}
use grpc_template.Rpc.{Rpc}
use grpc_template.Greeter.{Service, Stream, around, send_greetings, say_hello_server_stream}

pub data Event : Type 0 where
  sends : Bytes → Event
  pauses : Event

-- All that the handler does when no `Send` fails.
abbrev pub script : Bytes → List Event
script name =
    sends (around "Hello, " name "!")
    ∷ pauses
    ∷ sends (around "How are you, " name "?")
    ∷ pauses
    ∷ sends (around "Good to see you, " name "!")
    ∷ []

-- The events up to and with the send of the index `k`.
abbrev pub up_to : Bytes → ℕ → List Event
up_to name k = take (2 * k + 1) (script name)

-- A stream whose answers to a `Send` may depend on all that has happened before it.
abbrev pub recorder : (G : Rpc) → (List Event → Option (Rpc.Err G)) → Stream G (List Event)
recorder G answer = record {
  send = λ b h. (answer (h ++ sends b ∷ []), h ++ sends b ∷ []);
  pause = λ h. h ++ pauses ∷ [];
}

below_one {ℓ} : (P : ℕ → Type ℓ) → P 0 → (i : ℕ) → i < 1 → P i
below_one P p zero h = p
below_one P p (suc i) h = absurd (omega arith)

below_two {ℓ} : (P : ℕ → Type ℓ) → P 0 → P 1 → (i : ℕ) → i < 2 → P i
below_two P p q zero h = p
below_two P p q (suc i) h = below_one (λ j. P (suc j)) q i (omega arith)

below_three {ℓ} : (P : ℕ → Type ℓ) → P 0 → P 1 → P 2 → (i : ℕ) → i < 3 → P i
below_three P p q t zero h = p
below_three P p q t (suc i) h = below_two (λ j. P (suc j)) q t i (omega arith)

module _ (G : Rpc) (wrap_error : String → Rpc.Err G → Rpc.Err G) where
  abbrev pub AllSent :
      (List Event → Option (Rpc.Err G)) → Bytes → Option (Rpc.Err G) → List Event → Type 0
  AllSent answer name r h =
      ((i : ℕ) → i < 3 → answer (up_to name i) ≡ none) × (r ≡ none) × (h ≡ script name)

  abbrev pub FailedAt :
      (List Event → Option (Rpc.Err G)) → Bytes → Option (Rpc.Err G) → List Event → ℕ → Type 0
  FailedAt answer name r h k =
      (k < 3)
      × ((i : ℕ) → i < k → answer (up_to name i) ≡ none)
      × (e : Rpc.Err G) × (answer (up_to name k) ≡ some e)
      × (r ≡ some (wrap_error "failed to send greeting: %w" e))
      × (h ≡ up_to name k)

  -- The handler writes its one entry to the log, and either sends the three greetings in order with
  -- a pause after the first and the second, and returns nil; or the first failing send, of the index
  -- `k`, is the last thing it does, and it returns that error, wrapped. The stream starts with no
  -- event and may answer each send by what has happened before.
  pub say_hello_server_stream-script :
      (svc : Service) (answer : List Event → Option (Rpc.Err G)) (name : Bytes) (w : World)
      → (r : Option (Rpc.Err G)) × (h : List Event) × (say_hello_server_stream G wrap_error
            (recorder G answer)
            svc
            name
            w
            []
          ≡ (
            r,
            (
              emit svc.log Level.info "received SayHelloServerStream request"
                  (("name", Value.bytes name) ∷ [])
                  w,
              h,
            ),
          ))
        × (AllSent answer name r h ⊎ ((k : ℕ) × FailedAt answer name r h k))
  unfolding say_hello_server_stream send_greetings
  say_hello_server_stream-script svc answer name w = elim (Option-cases (answer (up_to name 0))) [
    | inr (e, p) ↦ (
      some (wrap_error "failed to send greeting: %w" e),
      up_to name 0,
      ground arith,
      inr (0, (omega arith, (λ i l. absurd (omega arith)), e, p, refl, refl)),
    )
    | inl p ↦ elim (Option-cases (answer (up_to name 1))) [
      | inr (e, q) ↦ (
        some (wrap_error "failed to send greeting: %w" e),
        up_to name 1,
        ground arith,
        inr (1, (omega arith, below_one _ p, e, q, refl, refl)),
      )
      | inl q ↦ elim (Option-cases (answer (up_to name 2))) [
        | inr (e, t) ↦ (
          some (wrap_error "failed to send greeting: %w" e),
          up_to name 2,
          ground arith,
          inr (2, (omega arith, below_two _ p q, e, t, refl, refl)),
        )
        | inl t ↦ (none, script name, ground arith, inl (below_three _ p q t, refl, refl))
      ]
    ]
  ]
