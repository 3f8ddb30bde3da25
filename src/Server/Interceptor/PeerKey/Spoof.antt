-- ===== src/Server/Interceptor/PeerKey/Spoof.antt =====
-- The key behind a trusted proxy.
use grpc_template.Common.{
  ℕ, ◌≡◌, refl, ◌≢◌, inl, inr, ap, ◌∙◌, true, false, none, some, List, [], ◌∷◌, ◌++◌, Bytes, take,
  Option-cases,
}
use grpc_template.Common.Scan.{index_byte, has_byte, trim_space}
use grpc_template.Common.Scan.Laws.{
  StartsClean, EndsClean, trim_space-clean, has_byte-trim_space, has_byte-take_index,
  index_byte-append, take-length_append, trim_space_of_clean,
}
use grpc_template.Rpc.{Rpc, Context}
use grpc_template.Server.Interceptor.PeerKey.{client_ip, proxy_key, peer_key}

has_byte-none : (s : Bytes) (c : ℕ) → index_byte s c ≡ none → has_byte s c ≡ false
has_byte-none s c h = rw h

client_ip-comma : (v : Bytes) → has_byte (client_ip v) b',' ≡ false
unfolding client_ip
client_ip-comma v = elim (Option-cases (index_byte v b',')) [
  | inl e ↦ rw e (has_byte-trim_space v b',' (has_byte-none v b',' e))
  | inr (i, e) ↦ rw e (has_byte-trim_space (take i v) b',' (has_byte-take_index v b',' i e))
]

client_ip-first :
    (ip rest : Bytes)
    → has_byte ip b',' ≡ false
    → StartsClean ip
    → EndsClean ip
    → client_ip (ip ++ (b',' ∷ rest)) ≡ ip
unfolding client_ip
client_ip-first ip rest h s e =
    rw (client_ip, index_byte-append ip rest b',' h)
      (ap trim_space (take-length_append ip (b',' ∷ rest)) ∙ trim_space_of_clean ip s e)

client_ip-clean : (v : Bytes) → StartsClean (client_ip v) × EndsClean (client_ip v)
unfolding client_ip
client_ip-clean v = trim_space-clean _

module _ (G : Rpc) (ctx : Context G) (md : Rpc.Md G) (incoming : ctx.incoming ≡ some md) where
  forwarded :
      (b : ℕ) (v : Bytes) (vs : List Bytes)
      → Rpc.md_get G md "x-forwarded-for" ≡ (b ∷ v) ∷ vs
      → peer_key G ctx true ≡ client_ip (b ∷ v)
  unfolding peer_key
  forwarded b v vs h = rw (peer_key, incoming, proxy_key, h)

  -- Behind a trusted proxy, a first value of x-forwarded-for that is not empty decides the key: the
  -- key holds no comma and neither begins nor ends with a space, and of a list of addresses it is
  -- the first one, if that is free of commas and of spaces at its ends.
  pub peer_key-forwarded :
      (v : Bytes) (vs : List Bytes)
      → Rpc.md_get G md "x-forwarded-for" ≡ v ∷ vs
      → v ≢ []
      → (has_byte (peer_key G ctx true) b',' ≡ false)
        × StartsClean (peer_key G ctx true)
        × EndsClean (peer_key G ctx true)
        × ((ip rest : Bytes)
            → v ≡ ip ++ (b',' ∷ rest)
            → has_byte ip b',' ≡ false
            → StartsClean ip
            → EndsClean ip
            → peer_key G ctx true ≡ ip)
  peer_key-forwarded [] vs h n = absurd (n refl)
  peer_key-forwarded (b ∷ v) vs h n =
      let key = forwarded b v vs h in
      rw key (
        client_ip-comma (b ∷ v),
        (client_ip-clean (b ∷ v)).0,
        (client_ip-clean (b ∷ v)).1,
        λ ip rest e c s t. ap client_ip e ∙ client_ip-first ip rest c s t,
      )
