-- ===== src/Server/Interceptor/Config/Tests.antt =====
-- Options on the package's configuration, and a configuration for the other modules' examples.
use grpc_template.Common.{◌≡◌, refl, false, none, some, List, [], ◌∷◌, pos, arith}
use grpc_template.Rpc.Demo.{demo}
use grpc_template.Server.Interceptor.RateLimit.Tests.{counting, fresh}
use grpc_template.Server.Interceptor.Config.{
  Config, default_config, Setup, with_rate_limiter, add_limiter, stop_previous_limiter, memory,
  with_logger, with_excluded_methods, configure,
}
use grpc_template.Server.Interceptor.Config.Limiters.{
  initial, made, given, place, OneAlive, Configured-OneAlive,
}
use grpc_template.Server.Interceptor.Config.Snapshot.{initial as initial_memory}
use grpc_template.Server.Interceptor.Config.Seen.{initial-Represents, Seen, get_config-Seen}
use grpc_template.Server.Interceptor.Config.Methods.{
  Chosen, excluded_methods, demoted_methods, rate_limit as limits_rate,
}

abbrev pub plain : Config demo
plain = record {
  logger = some 7;
  auth_func = none;
  excluded_methods = [];
  demoted_methods = "/watch" ∷ [];
  rate_limiter = none;
  trust_proxy = false;
}

abbrev first : Setup demo counting
first = record { config = default_config demo; limiters = λ i. fresh; next = 0; custom_stops = [] }

-- Two limiters are made, and then set, the second one first.
abbrev two_made : Setup demo counting
two_made =
    add_limiter demo counting (λ i. 0) 5 (pos 10) (pos 7)
      (add_limiter demo counting (λ i. 0) 1 (pos 2) (pos 7) first)

abbrev second_set : Setup demo counting
second_set = with_rate_limiter demo counting (some (memory 1)) two_made

Configured-OneAlive_example :
    OneAlive {G = demo} {R = counting}
      (place 0 (place 1 (λ i. false)))
      (with_rate_limiter demo counting (some (memory 0)) second_set)
unfolding add_limiter with_rate_limiter stop_previous_limiter default_config
Configured-OneAlive_example =
    Configured-OneAlive (place 0 (place 1 (λ i. false)))
      (with_rate_limiter demo counting (some (memory 0)) second_set)
      (given 0 (omega arith) refl (
        given 1 (omega arith) refl (
          made (λ i. 0) 5 (pos 10) (pos 7)
            (made (λ i. 0) 1 (pos 2) (pos 7) (initial (λ i. fresh) [])))))

empty_names :
    (configure demo counting
      (with_excluded_methods demo counting ("" ∷ "/a" ∷ [])
        ∷ with_logger demo counting (some 3)
        ∷ [])
      first).config.excluded_methods
    ≡ "/a" ∷ []
unfolding configure with_excluded_methods with_logger default_config
empty_names = refl

abbrev chosen : List (Chosen demo counting)
chosen =
    excluded_methods ("" ∷ "/a" ∷ [])
    ∷ limits_rate (λ i. 0) 5 (pos 10)
    ∷ demoted_methods ("/b" ∷ [])
    ∷ excluded_methods ("/c" ∷ [])
    ∷ []

get_config-Seen_example : Seen demo counting "/c" chosen (initial_memory demo) first
get_config-Seen_example =
    get_config-Seen demo counting "/c" chosen (initial_memory demo) first
      (initial-Represents demo counting (λ i. fresh) [])
