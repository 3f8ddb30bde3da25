-- ===== src/Client/Reflection.antt =====
-- internal/client/client.go: `ListServices` and `defaultListServices`. The stream of the reflection
-- service is an argument: whether it opens, and what it answers. The errors of `Send` and `CloseSend`
-- are dropped by the program.
use grpc_template.Common.{ℕ, Option, none, some, List, String, ◌⊎◌, inl, inr}
use grpc_template.World.{Exit, done, panicked}
use grpc_template.Rpc.{Rpc}
use grpc_template.Client.Options.{Env}
use grpc_template.Client.Connection.{Lifecycle, conn_of}

module _ (G : Rpc) (E : Env G) where
  -- `none` is an answer that is no list of services.
  pub record Server : Type 0 where
    pub open_error : Option (Rpc.Err G)
    pub answer : Option (List String) ⊎ Rpc.Err G

  abbrev pub Listing : Type 0
  Listing = List String ⊎ Rpc.Err G

  pub read_answer : Option (List String) ⊎ Rpc.Err G → Listing
  read_answer (inr e) = inr (Env.wrap_error E "reflection: failed to receive response: %w" e)
  read_answer (inl none) = inr (Env.text_error E "reflection: unexpected response type" "")
  read_answer (inl (some names)) = inl names

  pub default_list_services : Server → Listing
  unfolding read_answer
  default_list_services s = elim s.open_error [
    | some e ↦ inr (Env.wrap_error E "reflection: failed to open stream: %w" e)
    | none ↦ read_answer s.answer
  ]

  -- `ListServices`, with the client's `listFunc` or nil.
  pub list_services : Option (ℕ → Listing) → (ℕ → Server) → Lifecycle → Exit Listing
  unfolding default_list_services conn_of
  list_services list_func server s = elim (conn_of s) [
    | panicked v ↦ panicked v
    | done n ↦ done (elim list_func [ none ↦ default_list_services (server n) | some fn ↦ fn n ])
  ]
