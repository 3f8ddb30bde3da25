-- ===== src/Server/Interceptor/Chain/Whole.antt =====
-- `RequestID` around `Recovery` around `Logging`, as cmd/server/main.go chains them.
use grpc_template.Common.{
  ◌∙◌, ℕ, ◌≡◌, refl, ◌⊎◌, inl, inr, true, Option, none, some, [], ◌∷◌, ◌++◌, String, Bytes, arith,
  length, subst, is_empty, if◌then◌else◌,
}
use grpc_template.World.{World, Level, Value, Entry, Exit, done, panicked, set_header}
use grpc_template.Logging.{resolve}
use grpc_template.Rpc.{Rpc, Context}
use grpc_template.Server.Interceptor.Calls.{UnaryHandler}
use grpc_template.Server.Interceptor.Config.{Config}
use grpc_template.Server.Interceptor.Uuid.{match_uuid}
use grpc_template.Server.Interceptor.Uuid.Format.{AreBytes}
use grpc_template.Server.Interceptor.RequestId.{request_id, request_id_from_context}
use grpc_template.Server.Interceptor.RequestId.Laws.{ensured, request_id-ensured}
use grpc_template.Server.Interceptor.CallLogging.{logging}
use grpc_template.Server.Interceptor.CallLogging.Laws.{Ranks, logged}
use grpc_template.Server.Interceptor.Recovery.{recovery, internal_error}
use grpc_template.Server.Interceptor.Recovery.Laws.{recovered}
use grpc_template.Server.Interceptor.Chain.{values_of, logged_id, full_id}

with_id :
    {G : Rpc} (id : Bytes) (ctx : Context G)
    → ctx.request_id ≡ some id
    → match_uuid id ≡ true
    → (let found = request_id_from_context G ctx in
        if is_empty found then [] else Value.bytes found ∷ [])
      ≡ Value.bytes id ∷ []
unfolding request_id_from_context
with_id id ctx known valid = rw (known, full_id id valid) refl

resolve_header :
    (o : Option ℕ) (w : World) (k : String) (v : Bytes) → resolve o (set_header k v w) ≡ resolve o w
unfolding resolve
resolve_header o w k v = ground arith

module _ {G : Rpc} (stack : World → String) (cfg : Config G) (method : String) where
  -- The call has come back from its handler, and `e` is the entry with its request identifier.
  abbrev pub Completed :
      {A : Type 0}
      → Bytes
      → Exit (Option A × Option (Rpc.Err G))
      → Option A × Option (Rpc.Err G)
      → Entry
      → Type 0
  Completed id r a e =
      (r ≡ done a)
      × Ranks {G = G} cfg method a.1 e.level
      × (values_of "request_id" e.args ≡ Value.bytes id ∷ [])

  -- The handler has panicked, and `e` is the entry with the panic's value.
  abbrev pub Rescued :
      {A : Type 0}
      → Exit (Option A × Option (Rpc.Err G))
      → Option A × Option (Rpc.Err G)
      → Entry
      → Type 0
  Rescued r a e =
      (v st : String) × (r ≡ panicked v)
      × (a ≡ (none, some (internal_error G)))
      × (e.level ≡ Level.error)
      × (e.args
          ≡ ("method", Value.text method) ∷ ("panic", Value.text v) ∷ ("stack", Value.text st) ∷ [])

  -- `l` has one more entry behind what the handler `r` did.
  abbrev pub Ended :
      {A : Type 0}
      → ℕ
      → Bytes
      → Exit (Option A × Option (Rpc.Err G)) × World
      → Exit (Option A × Option (Rpc.Err G)) × World
      → Type 0
  Ended {A} l id (r, v) out =
      (a : Option A × Option (Rpc.Err G)) × (e : Entry) × (out
        ≡ (done a, record v { log = v.log ++ e ∷ [] }))
      × (e.handler ≡ l)
      × (Completed id r a e ⊎ Rescued r a e)

  guarded :
      {A : Type 0} (id : Bytes) (handler : UnaryHandler G A) (ctx : Context G) (w v : World)
      (r : Exit (Option A × Option (Rpc.Err G)))
      → ctx.request_id ≡ some id
      → match_uuid id ≡ true
      → handler ctx w ≡ (r, v)
      → Ended
          (resolve cfg.logger w)
          id
          (r, v)
          (recovery G stack cfg method (logging G cfg method handler) ctx w)
  guarded id handler ctx w v r known valid ran =
      elim (logged {G = G} cfg method handler ctx w v r ran) [
        | inl (p, e, unwound) ↦
            elim (recovered {G = G} stack cfg method (logging G cfg method handler) ctx w v r
              unwound) [
                | inl (a, returned, _) ↦ absurd cc
                | inr (p', v', same, out, (entry, st, wrote, by, level, args)) ↦ (
                  (none, some (internal_error G)),
                  entry,
                  rw (← wrote) out,
                  by,
                  inr (p', st, same, refl, level, args),
                )
              ]
        | inr (resp, err, u, e, returned, (entry, wrote, by, ranks, args)) ↦
            elim (recovered {G = G} stack cfg method (logging G cfg method handler) ctx w u r
              returned) [
                | inl (a, same, out) ↦ (
                  (resp, err),
                  entry,
                  cc,
                  by,
                  inl (
                    e,
                    ranks,
                    rw (args, logged_id ctx method _ err cfg.trust_proxy)
                        (with_id id ctx known valid),
                  ),
                )
                | inr (p', v', same, _, _) ↦ absurd cc
              ]
      ]

  -- `RequestID` around `Recovery` around `Logging`.
  abbrev pub chain : {A : Type 0} → Bytes → UnaryHandler G A → UnaryHandler G A
  chain random handler =
      request_id G random (recovery G stack cfg method (logging G cfg method handler))

  pub chain-Ended :
      {A : Type 0} (l : ℕ) (random : Bytes) (handler : UnaryHandler G A) (ctx : Context G)
      (w : World)
      → resolve cfg.logger w ≡ l
      → length random ≡ 16
      → AreBytes random
      → (id : Bytes) × (match_uuid id ≡ true)
        × Ended l id
            (handler (record ctx { request_id = some id }) (set_header "x-request-id" id w))
            (chain random handler ctx w)
  chain-Ended l random handler ctx w by len small =
      let (id, set, valid, _) = ensured random len small ctx in
      let w1 = set_header "x-request-id" id w in
      let ctx1 = record ctx { request_id = some id } in
      let inner = recovery G stack cfg method (logging G cfg method handler) in
      (
        id,
        valid,
        rw (request_id-ensured random id inner ctx w set) (
            subst (λ m. Ended m id (handler ctx1 w1) (inner ctx1 w1))
              (resolve_header cfg.logger w "x-request-id" id ∙ by)
              (guarded id handler ctx1 w1 _ _ refl valid refl)),
      )
