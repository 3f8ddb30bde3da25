-- ===== src/Server/Interceptor/Auth/Tests.antt =====
-- Tokens with and without a scheme, and a guarded call.
use grpc_template.Common.{ℕ, ◌≡◌, refl, ◌≢◌, ◌↔◌, Option, none, some, List, [], ◌∷◌, Bytes, codes}
use grpc_template.World.{World, Exit, done}
use grpc_template.Rpc.{Rpc, Context, StatusInfo}
use grpc_template.Rpc.Demo.{demo, background, start, unavailable}
use grpc_template.Server.Interceptor.Calls.{ServerStream}
use grpc_template.Server.Interceptor.Config.{AuthFunc, Config}
use grpc_template.Server.Interceptor.Config.Tests.{plain}
use grpc_template.Server.Interceptor.Auth.{found, extract_bearer_token}
use grpc_template.Server.Interceptor.Auth.Bearer.{Means, extract_bearer_token_iff}
use grpc_template.Server.Interceptor.Auth.Guard.{Decided, auth_decides}

abbrev with_header : Bytes → Context demo
with_header v = record background { incoming = some (("authorization", v ∷ []) ∷ []) }

mixed_case : extract_bearer_token demo (with_header (codes "bEaReR k1")) ≡ found (codes "k1")
unfolding extract_bearer_token
mixed_case = refl

other_scheme :
    extract_bearer_token demo (with_header (codes "Basic dTpw")) ≡ found (codes "Basic dTpw")
unfolding extract_bearer_token
other_scheme = refl

extract_bearer_token_iff_example :
    (extract_bearer_token demo (with_header (codes "Basic dTpw")) ≡ found (codes "Basic dTpw")) ↔ (
      (md : List (Prim.Native.String.String × List Bytes)) × (v : Bytes) × (rest : List Bytes)
      × ((with_header (codes "Basic dTpw")).incoming ≡ some md)
      × (Rpc.md_get demo md "authorization" ≡ v ∷ rest)
      × (v ≢ [])
      × Means v (codes "Basic dTpw")
      × (codes "Basic dTpw" ≢ []))
extract_bearer_token_iff_example =
    extract_bearer_token_iff (with_header (codes "Basic dTpw")) (codes "Basic dTpw")

abbrev accept : AuthFunc demo
accept ctx token w = (done (record ctx { values = ("claims", "admin") ∷ [] }, none), w)

abbrev guarded_cfg : Config demo
guarded_cfg = record plain { auth_func = some accept; excluded_methods = "/health" ∷ [] }

abbrev handler : Context demo → World → Exit (Option ℕ × Option StatusInfo) × World
handler ctx w = (done (some 1, none), w)

abbrev drain : ServerStream demo → World → Exit (Option StatusInfo) × World
drain ss w = (done (some unavailable), w)

auth_decides_example :
    Decided {G = demo} guarded_cfg "/m" handler drain (with_header (codes "Bearer k")) 2 start
auth_decides_example =
    auth_decides {G = demo} guarded_cfg "/m" handler drain (with_header (codes "Bearer k")) 2 start
