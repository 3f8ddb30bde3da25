-- ===== src/Client/Ready.antt =====
-- internal/client/client.go: `WaitReady` and `State`. What the connection does is a function of the
-- round of the loop: the state that `GetState` gives, and whether `WaitForStateChange` returns
-- before the context ends. `ClientConn.Connect`, which only asks for that, is left out. A result of
-- `none` means that the fuel has run out.
mod Tests
use grpc_template.Common.{
  ℕ, zero, suc, ◌+◌, ◌≤◌, ◌<◌, ◌≡◌, refl, ◌≢◌, ◌⊎◌, inl, inr, Bool, true, false, Bool-cases, subst,
  sym, ◌==◌, ==_iff, Option, none, some, arith, if◌then◌else◌,
}
use grpc_template.World.{Exit, done, panicked}
use grpc_template.Rpc.{Rpc}
use grpc_template.Client.Options.{Env}
use grpc_template.Client.Connection.{Lifecycle, conn_of}

-- google.golang.org/grpc/connectivity
pub data State : Type 0 where
  idle connecting ready transient_failure shutdown : State

abbrev pub is_ready : State → Bool
is_ready ready = true
is_ready _ = false

-- A `*grpc.ClientConn` while it is waited on.
pub record Link : Type 0 where
  pub state : ℕ → State
  pub changes : ℕ → Bool

-- `State`
pub state_of : Lifecycle → (ℕ → State) → State
state_of s get_state = elim s.conn [ none ↦ shutdown | some n ↦ get_state n ]

module _ (G : Rpc) (E : Env G) where
  -- The error of a context that has ended with `ended`.
  abbrev pub expired : Rpc.Err G → Rpc.Err G
  expired ended = Env.wrap_error E "client: context expired waiting for ready state: %w" ended

  pub wait_loop : Rpc.Err G → Link → ℕ → ℕ → Option (Option (Rpc.Err G))
  wait_loop ended l zero round = none
  wait_loop ended l (suc fuel) round =
      let rest = wait_loop ended l fuel (suc round) in
      if is_ready (l.state round)
      then some none
      else if l.changes round
      then rest
      else some (some (expired ended))

  -- `WaitReady`, which panics before `Connect`.
  pub wait_ready : Rpc.Err G → (ℕ → Link) → ℕ → Lifecycle → Exit (Option (Option (Rpc.Err G)))
  unfolding wait_loop conn_of
  wait_ready ended link fuel s = elim (conn_of s) [
    | panicked v ↦ panicked v
    | done n ↦ done (wait_loop ended (link n) fuel 0)
  ]

  -- In this round the loop ends: the connection is ready, or the context has ended.
  abbrev pub Ends : Link → ℕ → Type 0
  Ends l n = (is_ready (l.state n) ≡ true) ⊎ (l.changes n ≡ false)

  -- The rounds from `k` up to `n` have all waited.
  abbrev pub Waited : Link → ℕ → ℕ → Type 0
  Waited l k n = (i : ℕ) → k ≤ i → i < n → (is_ready (l.state i) ≡ false) × (l.changes i ≡ true)

  -- The result of the round that ends.
  abbrev pub Verdict : Rpc.Err G → Link → ℕ → Option (Option (Rpc.Err G)) → Type 0
  Verdict ended l n r =
      ((is_ready (l.state n) ≡ true) × (r ≡ some none))
      ⊎ ((is_ready (l.state n) ≡ false) × (l.changes n ≡ false) × (r ≡ some (some (expired ended))))

  at_round :
      (l : Link) {k i : ℕ}
      → is_ready (l.state k) ≡ false
      → l.changes k ≡ true
      → k ≡ i
      → (is_ready (l.state i) ≡ false) × (l.changes i ≡ true)
  at_round l wait more e = (rw (sym e, wait), rw (sym e, more))

  -- One more round in front.
  Waited-round :
      (l : Link) (k m : ℕ)
      → is_ready (l.state k) ≡ false
      → l.changes k ≡ true
      → Waited l (suc k) m
      → Waited l k m
  Waited-round l k m wait more h i p q = elim (Bool-cases (k == i)) [
    | inl e ↦ at_round l wait more (ground arith)
    | inr n ↦ h i (ground arith) q
  ]

  Not-Ends : (l : Link) (k : ℕ) → is_ready (l.state k) ≡ false → l.changes k ≡ true → ¬ (Ends l k)
  Not-Ends l k wait more e = ground arith

  abbrev Reached : Rpc.Err G → Link → ℕ → ℕ → ℕ → Type 0
  Reached ended l fuel k n =
      (m : ℕ) × (m ≤ n) × Waited l k m × Verdict ended l m (wait_loop ended l fuel k)

  later :
      (ended : Rpc.Err G) (l : Link) (fuel k n : ℕ)
      → is_ready (l.state k) ≡ false
      → l.changes k ≡ true
      → Reached ended l fuel (suc k) n
      → Reached ended l (suc fuel) k n
  unfolding wait_loop
  later ended l fuel k n wait more (m, b, w, v) =
      (m, b, Waited-round l k m wait more w, subst (Verdict ended l m) (ground arith) v)

  ready_now :
      (ended : Rpc.Err G) (l : Link) (fuel k n : ℕ)
      → k ≤ n
      → is_ready (l.state k) ≡ true
      → Reached ended l (suc fuel) k n
  unfolding wait_loop
  ready_now ended l fuel k n b now =
      (k, b, (λ i p q. absurd (omega arith)), inl (now, ground arith))

  stopped_now :
      (ended : Rpc.Err G) (l : Link) (fuel k n : ℕ)
      → k ≤ n
      → is_ready (l.state k) ≡ false
      → l.changes k ≡ false
      → Reached ended l (suc fuel) k n
  unfolding wait_loop
  stopped_now ended l fuel k n b wait stop =
      (k, b, (λ i p q. absurd (omega arith)), inr (wait, stop, ground arith))

  -- What the round `k` does, when the later rounds are known.
  one_round :
      (ended : Rpc.Err G) (l : Link) (fuel k n : ℕ)
      → k ≤ n
      → (is_ready (l.state k) ≡ false → l.changes k ≡ true → Reached ended l fuel (suc k) n)
      → Reached ended l (suc fuel) k n
  one_round ended l fuel k n b h = elim (Bool-cases (is_ready (l.state k))) [
    | inl now ↦ ready_now ended l fuel k n b now
    | inr wait ↦ elim (Bool-cases (l.changes k)) [
      | inr stop ↦ stopped_now ended l fuel k n b wait stop
      | inl more ↦ later ended l fuel k n wait more (h wait more)
    ]
  ]

  -- The loop ends with the verdict of the first round that ends it.
  pub wait_loop-Reached :
      (ended : Rpc.Err G) (l : Link) (fuel k n d : ℕ)
      → k + d ≡ n
      → d < fuel
      → Ends l n
      → Reached ended l fuel k n
  wait_loop-Reached ended l zero k n d p h e = absurd (omega arith)
  wait_loop-Reached ended l (suc fuel) k n zero p h e =
      one_round ended l fuel k n (omega arith)
        (λ wait more. absurd (Not-Ends l k wait more (subst (Ends l) (omega arith) e)))
  wait_loop-Reached ended l (suc fuel) k n (suc d) p h e =
      one_round ended l fuel k n (omega arith)
        (λ wait more. wait_loop-Reached ended l fuel (suc k) n d (omega arith) (omega arith) e)

  -- `WaitReady` on a connected client returns, and the first round that ends the loop decides what:
  -- nil when the connection is ready in it, the wrapped error of the context when the context ends
  -- in it. In every earlier round the connection was not ready and changed its state in time. The
  -- condition: some round ends the loop, and there is fuel for it.
  pub wait_ready-Reached :
      (ended : Rpc.Err G) (link : ℕ → Link) (s : Lifecycle) (fuel n c : ℕ)
      → s.conn ≡ some c
      → Ends (link c) n
      → n < fuel
      → (m : ℕ) × (m ≤ n)
        × Waited (link c) 0 m
        × (r : Option (Option (Rpc.Err G))) × Verdict ended (link c) m r
        × (wait_ready ended link fuel s ≡ done r)
  unfolding wait_ready wait_loop conn_of
  wait_ready-Reached ended link s fuel n c connected e h =
      let (m, b, w, v) = wait_loop-Reached ended (link c) fuel 0 n n (omega arith) h e in
      (m, b, w, wait_loop ended (link c) fuel 0, v, ground arith)
