-- ===== src/Server/Interceptor/Config.antt =====
-- internal/server/interceptor/config.go: the shared configuration and its options. A rate limiter is
-- known by its identity, since options stop the limiter that they replace: `Setup` is the
-- configuration with the limiters that exist. A set of methods is a list.
pub mod Limiters
mod Methods
mod Seen
mod Snapshot
pub mod Tests
use grpc_template.Common.{
  ℕ, suc, ℤ, pos, Bool, true, false, ◌||◌, Option, none, some, List, [], ◌∷◌, String, Bytes, str_eq,
  ◌==◌, if◌then◌else◌,
}
use grpc_template.World.{World, Exit}
use grpc_template.Rpc.{Rpc, Context}
use grpc_template.Server.Interceptor.RateLimit.{
  Rate, MemoryRateLimiter, new_memory_rate_limiter, stop, default_ttl,
}

-- A `RateLimiter`: a `*MemoryRateLimiter`, or another implementation, with or without `Stop`.
pub data Limiter : Type 0 where
  memory : ℕ → Limiter
  custom : ℕ → Bool → Limiter

abbrev pub is_member : String → List String → Bool
is_member m [] = false
is_member m (x ∷ xs) = str_eq x m || is_member m xs

-- The loop of `WithExcludedMethods` and `WithDemotedMethods`, which leaves out empty names.
unfoldable pub add_methods : List String → List String → List String
add_methods [] set = set
add_methods (m ∷ ms) set = add_methods ms (if str_eq m "" then set else m ∷ set)

pub default_demoted_methods : List String
default_demoted_methods =
    "/grpc.reflection.v1.ServerReflection/ServerReflectionInfo"
    ∷ "/grpc.reflection.v1alpha.ServerReflection/ServerReflectionInfo" ∷ []

module _ (G : Rpc) where
  -- An `AuthFunc` returns a context and an error or nil, or panics.
  abbrev pub AuthFunc : Type 0
  AuthFunc = Context G → Bytes → World → Exit (Context G × Option (Rpc.Err G)) × World

  pub record Config : Type 0 where
    pub logger : Option ℕ
    pub auth_func : Option AuthFunc
    pub excluded_methods : List String
    pub demoted_methods : List String
    pub rate_limiter : Option Limiter
    pub trust_proxy : Bool

  -- `defaultConfig` as the package initialises it.
  unfoldable pub default_config : Config
  unfolding default_demoted_methods
  default_config = record {
    logger = none;
    auth_func = none;
    excluded_methods = [];
    demoted_methods = default_demoted_methods;
    rate_limiter = none;
    trust_proxy = false;
  }

  unfoldable pub is_demoted : Config → String → Bool
  is_demoted c method = is_member method c.demoted_methods

  module _ (R : Rate) where
    pub record Setup : Type 0 where
      pub config : Config
      pub limiters : ℕ → MemoryRateLimiter R
      pub next : ℕ
      -- how often `Stop` of another implementation has been called, as its identities
      pub custom_stops : List ℕ

    abbrev pub SetupOption : Type 0
    SetupOption = Setup → Setup

    abbrev pub put_limiter :
        ℕ → MemoryRateLimiter R → (ℕ → MemoryRateLimiter R) → ℕ → MemoryRateLimiter R
    put_limiter i m ms j = if j == i then m else ms j

    unfoldable pub with_logger : Option ℕ → SetupOption
    with_logger l s = record s { config = record (s.config) { logger = l } }

    unfoldable pub with_auth_func : Option AuthFunc → SetupOption
    with_auth_func fn s = record s { config = record (s.config) { auth_func = fn } }

    unfoldable pub with_excluded_methods : List String → SetupOption
    unfolding add_methods
    with_excluded_methods ms s = record s {
      config = record (s.config) { excluded_methods = add_methods ms s.config.excluded_methods };
    }

    unfoldable pub with_demoted_methods : List String → SetupOption
    unfolding add_methods
    with_demoted_methods ms s = record s {
      config = record (s.config) { demoted_methods = add_methods ms s.config.demoted_methods };
    }

    unfoldable pub with_trust_proxy : Bool → SetupOption
    with_trust_proxy trust s = record s { config = record (s.config) { trust_proxy = trust } }

    -- `stopPreviousLimiter`
    pub stop_previous_limiter : Option Limiter → SetupOption
    unfolding stop
    stop_previous_limiter none s = s
    stop_previous_limiter (some (memory i)) s = record s {
      limiters = put_limiter i (stop R (s.limiters i)) s.limiters;
    }
    stop_previous_limiter (some (custom n true)) s = record s { custom_stops = n ∷ s.custom_stops }
    stop_previous_limiter (some (custom n false)) s = s

    pub with_rate_limiter : Option Limiter → SetupOption
    unfolding stop_previous_limiter
    with_rate_limiter l s =
        let stopped = stop_previous_limiter s.config.rate_limiter s in
        record stopped { config = record (stopped.config) { rate_limiter = l } }

    -- A limiter that comes to exist, here or in the user's code.
    pub add_limiter : (ℕ → Rate.Limiter R) → Rate.Limit R → ℤ → ℤ → SetupOption
    unfolding new_memory_rate_limiter
    add_limiter heap rps burst ttl s = record s {
      limiters = put_limiter s.next (new_memory_rate_limiter R heap rps burst ttl) s.limiters;
      next = suc s.next;
    }

    pub with_rate_limit : (ℕ → Rate.Limiter R) → Rate.Limit R → ℤ → SetupOption
    unfolding stop_previous_limiter add_limiter
    with_rate_limit heap rps burst s =
        let stopped = stop_previous_limiter s.config.rate_limiter s in
        let added = add_limiter heap rps burst (pos default_ttl) stopped in
        record added { config = record (added.config) { rate_limiter = some (memory s.next) } }

    unfoldable pub configure : List SetupOption → SetupOption
    configure [] s = s
    configure (opt ∷ opts) s = configure opts (opt s)
