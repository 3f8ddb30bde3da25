-- ===== src/Server/Interceptor/Chain.antt =====
-- How the interceptors of a server act on each other: the order of `RequestID` and `Logging` in
-- cmd/server/main.go, and the other one of the example in internal/server/interceptor/doc.go.
pub mod Gated
pub mod Whole
mod Tests
use grpc_template.Common.{
  ℕ, ◌≡◌, refl, ◌≢◌, ◌⊎◌, inl, inr, Bool, true, false, Option, none, some, List, [], ◌∷◌, ◌++◌,
  String, Bytes, arith, length, is_empty, str_eq, ap, ◌∙◌, if◌then◌else◌,
}
use grpc_template.World.{World, Value, Entry, Exit, done, set_header}
use grpc_template.Rpc.{Rpc, Context}
use grpc_template.Server.Interceptor.Calls.{UnaryHandler}
use grpc_template.Server.Interceptor.Config.{Config}
use grpc_template.Server.Interceptor.PeerKey.{peer_key}
use grpc_template.Server.Interceptor.Uuid.{match_uuid}
use grpc_template.Server.Interceptor.Uuid.Format.{AreBytes}
use grpc_template.Server.Interceptor.RequestId.{request_id, request_id_from_context}
use grpc_template.Server.Interceptor.RequestId.Laws.{ensured, request_id-ensured}
use grpc_template.Server.Interceptor.CallLogging.{build_log_args, error_args, logging}
use grpc_template.Server.Interceptor.CallLogging.Laws.{logged}

-- The values behind a key, in order.
abbrev pub values_of : String → List (String × Value) → List Value
values_of k [] = []
values_of k ((j, v) ∷ args) = if str_eq j k then v ∷ values_of k args else values_of k args

-- A handler that does not panic.
abbrev pub Answer : Rpc → Type 0 → Type 0
Answer G A = Context G → World → (Option A × Option (Rpc.Err G)) × World

pub full_id : (id : Bytes) → match_uuid id ≡ true → is_empty id ≡ false
unfolding match_uuid
full_id [] h = cc
full_id (b ∷ bs) h = refl

module _ {G : Rpc} where
  pub logged_id :
      (ctx : Context G) (method : String) (d : ℕ) (err : Option (Rpc.Err G)) (trust : Bool)
      → values_of "request_id" (build_log_args G ctx method d err trust) ≡ (
          let id = request_id_from_context G ctx in if is_empty id then [] else Value.bytes id ∷ [])
  unfolding build_log_args
  logged_id ctx method d none trust = ground arith
  logged_id ctx method d (some e) trust = ground arith

  abbrev pub answering : {A : Type 0} → Answer G A → UnaryHandler G A
  answering f ctx w = (done (f ctx w).0, (f ctx w).1)

  logged_done :
      {A : Type 0} (cfg : Config G) (method : String) (handler : UnaryHandler G A) (ctx : Context G)
      (w w' : World) (a : Option A × Option (Rpc.Err G))
      → handler ctx w ≡ (done a, w')
      → (e : Entry) × ((logging G cfg method handler ctx w).1
          ≡ record w' { log = w'.log ++ e ∷ [] })
        × (values_of "request_id" e.args ≡ (
            let id = request_id_from_context G ctx in
            if is_empty id then [] else Value.bytes id ∷ []))
  logged_done cfg method handler ctx w w' a h =
      elim (logged cfg method handler ctx w w' (done a) h) [
        | inl (v, e, _) ↦ absurd cc
        | inr (resp, err, v, e, ran, (entry, wrote, _, _, args)) ↦
            (entry, ap (λ p. p.1) ran ∙ wrote, rw args (logged_id ctx method _ err cfg.trust_proxy))
      ]

  abbrev pub Ordered :
      {A : Type 0} → Bytes → Config G → String → Answer G A → Context G → World → Type 0
  Ordered r cfg method f ctx w =
      (id : Bytes) × (inner outer : Entry) × (let v =
          (f (record ctx { request_id = some id }) (set_header "x-request-id" id w)).1 in
        (match_uuid id ≡ true)
        × ((request_id G r (logging G cfg method (answering f)) ctx w).1
            ≡ record v { log = v.log ++ inner ∷ [] })
        × (values_of "request_id" inner.args ≡ Value.bytes id ∷ [])
        × ((logging G cfg method (request_id G r (answering f)) ctx w).1
            ≡ record v { log = v.log ++ outer ∷ [] })
        × (values_of "request_id" outer.args ≡ []))

  -- With `RequestID` around `Logging`, the entry about a call has the request identifier that the
  -- response header has. With `Logging` around `RequestID` and no identifier in the context that
  -- comes in, the same header is set, and the entry has no request identifier.
  pub request_id-logging :
      {A : Type 0} (r : Bytes) (cfg : Config G) (method : String) (f : Answer G A) (ctx : Context G)
      (w : World)
      → length r ≡ 16
      → AreBytes r
      → ctx.request_id ≡ none
      → Ordered r cfg method f ctx w
  unfolding request_id_from_context
  request_id-logging r cfg method f ctx w len small fresh =
      let (id, set, valid, _) = ensured r len small ctx in
      let inside = request_id-ensured r id (logging G cfg method (answering f)) ctx w set in
      let outside = request_id-ensured r id (answering f) ctx w set in
      let (e1, wrote1, args1) =
        logged_done cfg method (answering f) (record ctx { request_id = some id })
          (set_header "x-request-id" id w) _ _ refl in
      let (e2, wrote2, args2) =
        logged_done cfg method (request_id G r (answering f)) ctx w _ _ outside in
      (
        id,
        e1,
        e2,
        (
          valid,
          ap (λ p. p.1) inside ∙ wrote1,
          args1 ∙ rw (full_id id valid),
          wrote2,
          args2 ∙ rw fresh,
        ),
      )
