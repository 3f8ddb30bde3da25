-- ===== src/Server/Interceptor/RequestId/Laws.antt =====
-- RequestID and StreamRequestID (requestid.go): the identifier in the context and in the header.
use grpc_template.Common.{
  ℕ, ◌≡◌, refl, ◌⊎◌, inl, inr, Option, none, some, List, [], ◌∷◌, Bytes, true, false, Bool-cases,
  arith, length,
}
use grpc_template.World.{World, set_header}
use grpc_template.Rpc.{Rpc, Context}
use grpc_template.Server.Interceptor.Calls.{UnaryHandler, StreamHandler, wrap}
use grpc_template.Server.Interceptor.Uuid.{generate_uuid, match_uuid}
use grpc_template.Server.Interceptor.Uuid.Format.{AreBytes}
use grpc_template.Server.Interceptor.Uuid.Generate.{generate_uuid_v4}
use grpc_template.Server.Interceptor.RequestId.{
  valid_id, client_id, ensure_request_id, request_id, stream_request_id, request_id_from_context,
}

-- No value, or a first value that is no UUID.
abbrev pub NoUuid : List Bytes → Type 0
NoUuid vs =
    (vs ≡ []) ⊎ ((v : Bytes) × (rest : List Bytes) × (vs ≡ v ∷ rest) × (match_uuid v ≡ false))

valid_id_cases :
    (vs : List Bytes)
    → ((id : Bytes) × (rest : List Bytes) × (vs ≡ id ∷ rest)
        × (match_uuid id ≡ true)
        × (valid_id vs ≡ some id))
      ⊎ (NoUuid vs × (valid_id vs ≡ none))
unfolding valid_id
valid_id_cases [] = inr (inl refl, refl)
valid_id_cases (v ∷ vs) = elim (Bool-cases (match_uuid v)) [
  | inl e ↦ inl (v, vs, refl, e, ground arith)
  | inr e ↦ inr (inr (v, vs, refl, e), ground arith)
]

module _ {G : Rpc} where
  -- The client has sent the UUID `id` as the first value of the key.
  abbrev pub Sent : Context G → Bytes → Type 0
  Sent ctx id =
      (md : Rpc.Md G) × (rest : List Bytes) × (ctx.incoming ≡ some md)
      × (Rpc.md_get G md "x-request-id" ≡ id ∷ rest)

  -- The client has sent no metadata or no UUID.
  abbrev pub SentNone : Context G → Type 0
  SentNone ctx =
      (ctx.incoming ≡ none)
      ⊎ ((md : Rpc.Md G) × (ctx.incoming ≡ some md) × NoUuid (Rpc.md_get G md "x-request-id"))

  client_id_cases :
      (ctx : Context G) (o : Option (Rpc.Md G))
      → ctx.incoming ≡ o
      → ((id : Bytes) × Sent ctx id × (match_uuid id ≡ true) × (client_id G o ≡ some id))
        ⊎ (SentNone ctx × (client_id G o ≡ none))
  unfolding client_id
  client_id_cases ctx none e = inr (inl e, refl)
  client_id_cases ctx (some md) e = elim (valid_id_cases (Rpc.md_get G md "x-request-id")) [
    | inl (id, rest, first, valid, found) ↦ inl (id, (md, rest, e, first), valid, found)
    | inr (absent, found) ↦ inr (inr (md, e, absent), found)
  ]

  pub request_id-ensured :
      {A : Type 0} (r id : Bytes) (handler : UnaryHandler G A) (ctx : Context G) (w : World)
      → ensure_request_id G r ctx ≡ record ctx { request_id = some id }
      → request_id G r handler ctx w
        ≡ handler (record ctx { request_id = some id }) (set_header "x-request-id" id w)
  unfolding request_id request_id_from_context
  request_id-ensured r id handler ctx w e = rw e

  module _ (r : Bytes) (len : length r ≡ 16) (small : AreBytes r) (ctx : Context G) where
    pub ensured :
        (id : Bytes) × (ensure_request_id G r ctx ≡ record ctx { request_id = some id })
        × (match_uuid id ≡ true)
        × (Sent ctx id ⊎ (SentNone ctx × (id ≡ generate_uuid r)))
    unfolding ensure_request_id
    ensured = elim (client_id_cases ctx ctx.incoming refl) [
      | inl (id, sent, valid, found) ↦ (id, ground arith, valid, inl sent)
      | inr (absent, found) ↦
          (generate_uuid r, ground arith, (generate_uuid_v4 r len small).0, inr (absent, refl))
    ]

    -- With 16 random bytes at hand, `RequestID` and `StreamRequestID` run the handler on a context
    -- that holds a UUID, with everything else of the context unchanged, after they have set the
    -- same UUID as the response header "x-request-id". It is the client's first value of that key
    -- if that is a UUID, and otherwise the generated one.
    pub request_id_valid :
        {A : Type 0} (handler : UnaryHandler G A) (stream_handler : StreamHandler G) (n : ℕ)
        (w : World)
        → (id : Bytes) × (match_uuid id ≡ true)
          × (Sent ctx id ⊎ (SentNone ctx × (id ≡ generate_uuid r)))
          × (request_id G r handler ctx w
              ≡ handler (record ctx { request_id = some id }) (set_header "x-request-id" id w))
          × (stream_request_id G r stream_handler (record { context = ctx; stream = n }) w
              ≡ stream_handler
                  (record { context = record ctx { request_id = some id }; stream = n })
                  (set_header "x-request-id" id w))
    unfolding stream_request_id request_id_from_context wrap
    request_id_valid handler stream_handler n w =
        let (id, e, valid, origin) = ensured in
        (id, valid, origin, request_id-ensured r id handler ctx w e, rw e)
