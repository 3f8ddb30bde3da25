-- ===== src/Server/Interceptor/Config/Snapshot.antt =====
-- The configuration of config.go as it lies in memory: a struct whose two sets of methods are maps,
-- which the copy of `getConfig` shares. A map is an address; the two maps are made once.
use grpc_template.Common.{
  ℕ, suc, Bool, false, Option, none, some, List, [], ◌∷◌, String, ◌==◌, if◌then◌else◌,
}
use grpc_template.Rpc.{Rpc}
use grpc_template.Server.Interceptor.RateLimit.{Rate}
use grpc_template.Server.Interceptor.Config.{
  Limiter, memory, AuthFunc, Config, add_methods, default_demoted_methods,
}
use grpc_template.Server.Interceptor.Config.Methods.{
  Chosen, logger, auth_func, excluded_methods, demoted_methods, trust_proxy, rate_limiter,
  rate_limit,
}

-- The maps by their addresses.
abbrev pub Maps : Type 0
Maps = ℕ → List String

abbrev pub store : ℕ → List String → Maps → Maps
store a set maps b = if b == a then set else maps b

module _ (G : Rpc) where
  -- The struct, with the addresses of its maps.
  pub record Fields : Type 0 where
    pub logger : Option ℕ
    pub auth_func : Option (AuthFunc G)
    pub excluded_at : ℕ
    pub demoted_at : ℕ
    pub rate_limiter : Option Limiter
    pub trust_proxy : Bool

  -- `defaultConfig` with the maps, and the limiter that comes to exist next.
  pub record Memory : Type 0 where
    pub fields : Fields
    pub maps : Maps
    pub next : ℕ

  -- What a reader of the struct finds, with the maps as they are when it reads.
  abbrev pub read : Fields → Maps → Config G
  read c maps = record {
    logger = c.logger;
    auth_func = c.auth_func;
    excluded_methods = maps c.excluded_at;
    demoted_methods = maps c.demoted_at;
    rate_limiter = c.rate_limiter;
    trust_proxy = c.trust_proxy;
  }

  -- As the package initialises it.
  unfoldable pub initial : Memory
  unfolding default_demoted_methods
  initial = record {
    fields = record {
      logger = none;
      auth_func = none;
      excluded_at = 0;
      demoted_at = 1;
      rate_limiter = none;
      trust_proxy = false;
    };
    maps = λ a. if a == 1 then default_demoted_methods else [];
    next = 0;
  }

  -- The copy of the struct, under the lock.
  unfoldable pub get_config : Memory → Fields
  get_config s = s.fields

  abbrev pub set_logger : Option ℕ → Memory → Memory
  set_logger l s = record s { fields = record (s.fields) { logger = l } }

  abbrev pub set_auth_func : Option (AuthFunc G) → Memory → Memory
  set_auth_func fn s = record s { fields = record (s.fields) { auth_func = fn } }

  -- The loops write to the maps that are there.
  unfoldable pub add_excluded : List String → Memory → Memory
  add_excluded ms s =
      let a = s.fields.excluded_at in record s { maps = store a (add_methods ms (s.maps a)) s.maps }

  unfoldable pub add_demoted : List String → Memory → Memory
  add_demoted ms s =
      let a = s.fields.demoted_at in record s { maps = store a (add_methods ms (s.maps a)) s.maps }

  abbrev pub set_trust_proxy : Bool → Memory → Memory
  set_trust_proxy t s = record s { fields = record (s.fields) { trust_proxy = t } }

  abbrev pub set_rate_limiter : Option Limiter → Memory → Memory
  set_rate_limiter l s = record s { fields = record (s.fields) { rate_limiter = l } }

  abbrev pub set_rate_limit : Memory → Memory
  set_rate_limit s = record s {
    fields = record (s.fields) { rate_limiter = some (memory s.next) };
    next = suc s.next;
  }

  module _ (R : Rate) where
    unfoldable pub apply : Chosen G R → Memory → Memory
    unfolding add_excluded add_demoted
    apply (logger l) s = set_logger l s
    apply (auth_func fn) s = set_auth_func fn s
    apply (excluded_methods ms) s = add_excluded ms s
    apply (demoted_methods ms) s = add_demoted ms s
    apply (trust_proxy t) s = set_trust_proxy t s
    apply (rate_limiter l) s = set_rate_limiter l s
    apply (rate_limit heap rps burst) s = set_rate_limit s

    -- `Configure`
    unfoldable pub configure_in : List (Chosen G R) → Memory → Memory
    unfolding apply
    configure_in [] s = s
    configure_in (o ∷ os) s = configure_in os (apply o s)
