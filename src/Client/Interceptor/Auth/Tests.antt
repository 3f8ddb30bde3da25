-- ===== src/Client/Interceptor/Auth/Tests.antt =====
-- Runs of `Auth` with the token sources of config.go.
use grpc_template.Common.{ℕ, ◌≡◌, refl, inl, Option, none, some, [], codes, pos}
use grpc_template.World.{World}
use grpc_template.Rpc.{Context, StatusInfo}
use grpc_template.Rpc.Demo.{demo, background, start, unavailable, get}
use grpc_template.Client.Interceptor.Config.{
  TokenSource, Config, static_token, oauth2_token_source, no_token,
}
use grpc_template.Client.Interceptor.Auth.{auth_failed, auth, stream_auth}
use grpc_template.Client.Interceptor.Auth.Laws.{auth_refuses}

abbrev pub cfg : TokenSource demo → Config demo
cfg src = record {
  logger = none;
  default_timeout = pos 0;
  retry_max = pos 0;
  retry_backoff = pos 0;
  retry_codes = [];
  token_source = some src;
}

-- A call that fails if the header is missing.
abbrev pub call : Context demo → World → Option StatusInfo × World
call ctx w = elim ctx.outgoing [
  | none ↦ (some unavailable, w)
  | some md ↦ elim (get md "authorization") [ [] ↦ (some unavailable, w) | _ ↦ (none, w) ]
]

abbrev pub open_stream : Context demo → World → (Option ℕ × Option StatusInfo) × World
open_stream ctx w = ((some 4, none), w)

abbrev pub key : TokenSource demo
key ctx w = ((record ctx { token = some (codes "k") }, none), w)

abbrev pub keyed : Context demo
keyed = record background { token = some (codes "k") }

static : static_token demo (codes "k") background start ≡ key background start
unfolding static_token
static = refl

abbrev refused : Context demo → World → (Context demo × Option StatusInfo) × World
refused ctx w = ((ctx, some unavailable), w)

auth_refuses_example :
    (v : World) × (auth demo (cfg refused) call background start ≡ (some (auth_failed demo), v))
    × (stream_auth demo (cfg refused) open_stream background start
        ≡ ((none, some (auth_failed demo)), v))
    × ((some unavailable ≡ none) → v ≡ start)
auth_refuses_example =
    auth_refuses (cfg refused) refused background background start start refl (some unavailable)
      call open_stream refl (inl (λ e. cc))

empty_oauth_token :
    (oauth2_token_source demo
      (λ m. record { code = 2; message = m })
      (λ m e. e)
      (some (λ w. (no_token, w)))
      background
      start).0.1
    ≡ some (record { code = 2; message = "oauth2: empty access token" })
unfolding oauth2_token_source
empty_oauth_token = refl
