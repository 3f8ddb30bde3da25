-- ===== src/LoadBalancing/Servers/Tests.antt =====
-- The three servers, and a handler that sets a header of its own.
use grpc_template.Common.{
  ℕ, ◌+◌, ◌≡◌, refl, ◌⊎◌, inl, inr, none, some, Option, List, [], ◌∷◌, ◌++◌, String, Bytes, codes,
  length, get_elem?, arith,
}
use grpc_template.World.{World, Exit, done, set_header}
use grpc_template.Rpc.{Context, StatusInfo}
use grpc_template.Rpc.Demo.{demo, background, start, unavailable, Pairs}
use grpc_template.Server.Interceptor.Calls.{ServerStream}
use grpc_template.Server.Interceptor.Config.{Setup}
use grpc_template.Server.Interceptor.Config.Tests.{plain}
use grpc_template.Server.Interceptor.Uuid.Tests.{random}
use grpc_template.Server.Interceptor.RateLimit.Tests.{counting}
use grpc_template.Server.Options.Tests.{disk, shared}
use grpc_template.Server.Lifecycle.Tests.{net}
use grpc_template.LoadBalancing.{num_servers}
use grpc_template.LoadBalancing.Servers.{Started, start_servers}
use grpc_template.LoadBalancing.Servers.Tagged.{
  header_values, ReadsAddress, start_servers-addr_from_header,
}

abbrev listen : ℕ → ℕ ⊎ StatusInfo
listen i = inl (i + 20)

abbrev Result : Type 0
Result = (List (Started demo disk) ⊎ StatusInfo) × (World × Setup demo counting)

abbrev result : Result
result = start_servers demo disk counting net listen 9 start shared

abbrev header : World → Pairs
header v = ("x-server-addr", header_values "x-server-addr" v.headers) ∷ []

abbrev adding : Context demo → World → Exit (Option ℕ × Option StatusInfo) × World
adding ctx w = (done (some 1, none), set_header "x-server-addr" (codes "other") w)

abbrev failing : ServerStream demo → World → Exit (Option StatusInfo) × World
failing ss w = (done (some unavailable), w)

abbrev servers : List (Started demo disk)
servers = elim result.0 [ inl ss ↦ ss | inr e ↦ [] ]

abbrev ThirdServer : Type 0
ThirdServer =
    (s : Started demo disk) × (get_elem? servers 2 ≡ some s) × (result ≡ (inl servers, result.1))

third : ThirdServer
unfolding start_servers
third = (_, refl, refl)

nothing_more : (hs : List (String × Bytes)) → hs ≡ hs ++ []
nothing_more [] = refl
nothing_more (h ∷ hs) = ground (arith, nothing_more hs)

start_servers-addr_from_header_example :
    (length servers ≡ num_servers)
    × (listen 2 ≡ inl third.0.listener)
    × ReadsAddress counting net listen 9 start shared random plain "/m" header third.0 adding
        failing background 7 start
start_servers-addr_from_header_example =
    start_servers-addr_from_header counting net listen 9 start shared random plain "/m" header
      servers result.1 2 third.0 adding failing background 7 start third.2 third.1 (λ v. refl)
      (λ c u. ((some 1, none), ("x-server-addr", codes "other") ∷ [], refl, refl))
      (λ ss u. (some unavailable, [], refl, nothing_more u.headers)) refl refl (omega arith)
