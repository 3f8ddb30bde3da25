-- ===== src/Client/Interceptor/Config.antt =====
-- internal/client/interceptor/config.go: the shared configuration and its options. An unset
-- duration or count is Go's zero value; `Configure` runs its options in order on the one record.
use grpc_template.Common.{ℕ, ℤ, pos, Option, none, some, List, [], ◌∷◌, String, Bytes}
use grpc_template.World.{World}
use grpc_template.Rpc.{Rpc, Context, code_unavailable, code_resource_exhausted, code_aborted}

pub default_retry_codes : List ℕ
default_retry_codes = code_unavailable ∷ code_resource_exhausted ∷ code_aborted ∷ []

module _ (G : Rpc) where
  -- A token source may change the world and returns a context and an error or nil.
  abbrev pub TokenSource : Type 0
  TokenSource = Context G → World → (Context G × Option (Rpc.Err G)) × World

  pub record Config : Type 0 where
    pub logger : Option ℕ
    pub default_timeout : ℤ
    pub retry_max : ℤ
    pub retry_backoff : ℤ
    pub retry_codes : List ℕ
    pub token_source : Option TokenSource

  abbrev pub ConfigOption : Type 0
  ConfigOption = Config → Config

  -- `defaultConfig` as the package initialises it.
  unfoldable pub default_config : Config
  unfolding default_retry_codes
  default_config = record {
    logger = none;
    default_timeout = pos 0;
    retry_max = pos 0;
    retry_backoff = pos 0;
    retry_codes = default_retry_codes;
    token_source = none;
  }

  unfoldable pub with_logger : Option ℕ → ConfigOption
  with_logger l c = record c { logger = l }

  unfoldable pub with_default_timeout : ℤ → ConfigOption
  with_default_timeout d c = record c { default_timeout = d }

  unfoldable pub with_retry : ℤ → ℤ → ConfigOption
  with_retry max_retries backoff c = record c { retry_max = max_retries; retry_backoff = backoff }

  unfoldable pub with_retry_codes : List ℕ → ConfigOption
  with_retry_codes codes c = record c { retry_codes = codes }

  unfoldable pub with_token_source : Option TokenSource → ConfigOption
  with_token_source fn c = record c { token_source = fn }

  unfoldable pub configure : List ConfigOption → Config → Config
  configure [] c = c
  configure (opt ∷ opts) c = configure opts (opt c)

  -- `StaticToken`
  unfoldable pub static_token : Bytes → TokenSource
  static_token token ctx w = ((record ctx { token = some token }, none), w)

  -- `OAuth2TokenSource`. The source is nil, or its `Token()` ends in an error, in a nil token or in
  -- an access token; `wrap` and `fail` stand for the `fmt.Errorf` calls.
  pub data OAuthResult : Type 0 where
    refused : Rpc.Err G → OAuthResult
    no_token : OAuthResult
    access_token : Bytes → OAuthResult

  unfoldable pub oauth2_result :
      (String → Rpc.Err G)
      → (String → Rpc.Err G → Rpc.Err G)
      → Context G
      → OAuthResult
      → Context G × Option (Rpc.Err G)
  oauth2_result fail wrap ctx (refused e) = (ctx, some (wrap "oauth2: failed to get token" e))
  oauth2_result fail wrap ctx no_token = (ctx, some (fail "oauth2: empty access token"))
  oauth2_result fail wrap ctx (access_token []) = (ctx, some (fail "oauth2: empty access token"))
  oauth2_result fail wrap ctx (access_token (b ∷ bs)) = (record ctx { token = some (b ∷ bs) }, none)

  unfoldable pub oauth2_token_source :
      (String → Rpc.Err G)
      → (String → Rpc.Err G → Rpc.Err G)
      → Option (World → OAuthResult × World)
      → TokenSource
  unfolding oauth2_result
  oauth2_token_source fail wrap none ctx w = ((ctx, some (fail "oauth2: token source is nil")), w)
  oauth2_token_source fail wrap (some token) ctx w =
      let (tok, w') = token w in (oauth2_result fail wrap ctx tok, w')
