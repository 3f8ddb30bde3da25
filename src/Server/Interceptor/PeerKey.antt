-- ===== src/Server/Interceptor/PeerKey.antt =====
-- internal/server/interceptor/rate_limit.go, `peerKey`: the client's address behind rate limits and
-- log entries. Of several proxy headers the first value counts.
pub mod Host
pub mod Spoof
mod Tests
use grpc_template.Common.{
  ℕ, Bool, true, false, Option, none, some, List, [], ◌∷◌, String, Bytes, codes, take,
  if◌then◌else◌, is_empty,
}
use grpc_template.Common.Scan.{index_byte, trim_space, split_host}
use grpc_template.Rpc.{Rpc, Context}

-- The first value, if there is one and it is not empty.
abbrev pub first_value : List Bytes → Option Bytes
first_value [] = none
first_value ([] ∷ vs) = none
first_value ((b ∷ bs) ∷ vs) = some (b ∷ bs)

-- The first address of a comma-separated list.
pub client_ip : Bytes → Bytes
client_ip v = trim_space (elim (index_byte v b',') [ none ↦ v | some i ↦ take i v ])

-- The key by the connection.
pub direct_key : Option (Option Bytes) → Bytes
direct_key none = codes "unknown"
direct_key (some none) = codes "unknown"
direct_key (some (some addr)) = elim (split_host addr) [ none ↦ addr | some host ↦ host ]

module _ (G : Rpc) where
  -- The key by the proxy headers, if they give one.
  pub proxy_key : Rpc.Md G → Option Bytes
  unfolding client_ip
  proxy_key md = elim (first_value (Rpc.md_get G md "x-forwarded-for")) [
    | some v ↦ some (client_ip v)
    | none ↦ elim (first_value (Rpc.md_get G md "x-real-ip")) [
      | some v ↦ some (trim_space v)
      | none ↦ none
    ]
  ]

  abbrev header_key : Bool → Option (Rpc.Md G) → Option Bytes
  header_key false md = none
  header_key true none = none
  header_key true (some md) = proxy_key md

  unfoldable pub peer_key : Context G → Bool → Bytes
  unfolding proxy_key direct_key
  peer_key ctx trust_proxy = elim (header_key trust_proxy ctx.incoming) [
    | some key ↦ key
    | none ↦ direct_key ctx.peer
  ]
