-- ===== src/Server/Interceptor/Config/Methods.antt =====
-- The sets of methods that `WithExcludedMethods` and `WithDemotedMethods` fill.
use grpc_template.Common.{
  ℕ, ℤ, ◌≡◌, refl, ◌∙◌, ap, inl, inr, Bool, true, false, not, ◌&&◌, ◌||◌, Option, List, [], ◌∷◌,
  ◌++◌, map, String, str_eq, eq_iff, arith, Bool-cases,
}
use grpc_template.Rpc.{Rpc}
use grpc_template.Server.Interceptor.RateLimit.{Rate}
use grpc_template.Server.Interceptor.Config.Limiters.{stop_previous_keeps}
use grpc_template.Server.Interceptor.Config.{
  Limiter, AuthFunc, Config, Setup, SetupOption, is_member, add_methods, with_logger,
  with_auth_func, with_excluded_methods, with_demoted_methods, with_trust_proxy, with_rate_limiter,
  add_limiter, with_rate_limit, configure,
}

same : (x y : String) → str_eq x y ≡ str_eq y x
same x y = ground (arith, eq_iff x y, eq_iff y x)

empty-same : (x m : String) → str_eq x "" ≡ true → str_eq x m ≡ str_eq m ""
empty-same x m e = ap (λ y. str_eq y m) ((eq_iff x "").0 e) ∙ same "" m

not_empty : (x m : String) → str_eq x "" ≡ false → str_eq m "" ≡ true → str_eq x m ≡ false
not_empty x m e f = ap (str_eq x) ((eq_iff m "").0 f) ∙ e

add_methods-is_member :
    (m : String) (ms set : List String)
    → is_member m (add_methods ms set) ≡ (is_member m set || (not (str_eq m "") && is_member m ms))
unfolding add_methods
add_methods-is_member m [] set = ground arith
add_methods-is_member m (x ∷ ms) set = elim (Bool-cases (str_eq x "")) [
  | inl e ↦ ground (arith, add_methods-is_member m ms set, empty-same x m e)
  | inr e ↦ ground (arith, add_methods-is_member m ms (x ∷ set), not_empty x m e)
]

module _ (G : Rpc) (R : Rate) where
  -- A call of one of the options of config.go.
  pub data Chosen : Type 0 where
    logger : Option ℕ → Chosen
    auth_func : Option (AuthFunc G) → Chosen
    excluded_methods : List String → Chosen
    demoted_methods : List String → Chosen
    trust_proxy : Bool → Chosen
    rate_limiter : Option Limiter → Chosen
    rate_limit : (ℕ → Rate.Limiter R) → Rate.Limit R → ℤ → Chosen

  abbrev pub option_of : Chosen → SetupOption G R
  option_of (logger l) = with_logger G R l
  option_of (auth_func fn) = with_auth_func G R fn
  option_of (excluded_methods ms) = with_excluded_methods G R ms
  option_of (demoted_methods ms) = with_demoted_methods G R ms
  option_of (trust_proxy t) = with_trust_proxy G R t
  option_of (rate_limiter l) = with_rate_limiter G R l
  option_of (rate_limit heap rps burst) = with_rate_limit G R heap rps burst

  -- The names that the options exclude and demote.
  abbrev pub named_excluded : List Chosen → List String
  named_excluded [] = []
  named_excluded (excluded_methods ms ∷ os) = ms ++ named_excluded os
  named_excluded (logger l ∷ os) = named_excluded os
  named_excluded (auth_func fn ∷ os) = named_excluded os
  named_excluded (demoted_methods ms ∷ os) = named_excluded os
  named_excluded (trust_proxy t ∷ os) = named_excluded os
  named_excluded (rate_limiter l ∷ os) = named_excluded os
  named_excluded (rate_limit heap rps burst ∷ os) = named_excluded os

  abbrev pub named_demoted : List Chosen → List String
  named_demoted [] = []
  named_demoted (demoted_methods ms ∷ os) = ms ++ named_demoted os
  named_demoted (logger l ∷ os) = named_demoted os
  named_demoted (auth_func fn ∷ os) = named_demoted os
  named_demoted (excluded_methods ms ∷ os) = named_demoted os
  named_demoted (trust_proxy t ∷ os) = named_demoted os
  named_demoted (rate_limiter l ∷ os) = named_demoted os
  named_demoted (rate_limit heap rps burst ∷ os) = named_demoted os

  -- The two sets, and the configuration that has them.
  abbrev Kept : Config G → Config G → Type 0
  Kept c d = (d.excluded_methods ≡ c.excluded_methods) × (d.demoted_methods ≡ c.demoted_methods)

  with_rate_limiter-Kept :
      (l : Option Limiter) (s : Setup G R) → Kept s.config (with_rate_limiter G R l s).config
  unfolding with_rate_limiter
  with_rate_limiter-Kept l s =
      let (_, c) = stop_previous_keeps s s.config.rate_limiter in
      (ap (λ c. c.excluded_methods) c, ap (λ c. c.demoted_methods) c)

  with_rate_limit-Kept :
      (heap : ℕ → Rate.Limiter R) (rps : Rate.Limit R) (burst : ℤ) (s : Setup G R)
      → Kept s.config (with_rate_limit G R heap rps burst s).config
  unfolding with_rate_limit add_limiter
  with_rate_limit-Kept heap rps burst s =
      let (_, c) = stop_previous_keeps s s.config.rate_limiter in
      (ap (λ c. c.excluded_methods) c, ap (λ c. c.demoted_methods) c)

  is_member_append :
      (m : String) (xs ys : List String)
      → is_member m (xs ++ ys) ≡ (is_member m xs || is_member m ys)
  is_member_append m [] ys = refl
  is_member_append m (x ∷ xs) ys = ground (arith, is_member_append m xs ys)

  -- Is the method in the set, or a name that is not empty of the list?
  abbrev pub joined : String → List String → List String → Bool
  joined m set named = is_member m set || (not (str_eq m "") && is_member m named)

  joined-joined :
      (m : String) (ms set later : List String)
      → joined m (add_methods ms set) later ≡ joined m set (ms ++ later)
  joined-joined m ms set later =
      ground (arith, add_methods-is_member m ms set, is_member_append m ms later)

  abbrev pub Collected : String → List Chosen → Setup G R → Type 0
  Collected m os s =
      let after = (configure G R (map option_of os) s).config in
      (is_member m after.excluded_methods ≡ joined m s.config.excluded_methods (named_excluded os))
      × (is_member m after.demoted_methods ≡ joined m s.config.demoted_methods (named_demoted os))

  past :
      (m : String) (os : List Chosen) (s t : Setup G R)
      → Kept s.config t.config
      → Collected m os t
      → (let after = (configure G R (map option_of os) t).config in
          (is_member m after.excluded_methods
            ≡ joined m s.config.excluded_methods (named_excluded os))
          × (is_member m after.demoted_methods
              ≡ joined m s.config.demoted_methods (named_demoted os)))
  past m os s t (e, d) (f, g) = (
    f ∙ ap (λ set. joined m set (named_excluded os)) e,
    g ∙ ap (λ set. joined m set (named_demoted os)) d,
  )

  -- Whatever options are applied, in whatever order and number, a method is in the set of excluded
  -- methods behind them exactly if it was in it before, or is a name that is not empty of some
  -- `WithExcludedMethods` among them; and the same for the demoted methods and `WithDemotedMethods`.
  -- So the two options only add, in any order, and no other option touches the sets.
  pub configure-Collected : (m : String) (os : List Chosen) (s : Setup G R) → Collected m os s
  unfolding configure with_logger with_auth_func with_excluded_methods with_demoted_methods
      with_trust_proxy
  configure-Collected m [] s = (ground arith, ground arith)
  configure-Collected m (logger l ∷ os) s = configure-Collected m os (with_logger G R l s)
  configure-Collected m (auth_func fn ∷ os) s = configure-Collected m os (with_auth_func G R fn s)
  configure-Collected m (trust_proxy t ∷ os) s = configure-Collected m os (with_trust_proxy G R t s)
  configure-Collected m (excluded_methods ms ∷ os) s =
      let (e, d) = configure-Collected m os (with_excluded_methods G R ms s) in
      (e ∙ joined-joined m ms s.config.excluded_methods (named_excluded os), d)
  configure-Collected m (demoted_methods ms ∷ os) s =
      let (e, d) = configure-Collected m os (with_demoted_methods G R ms s) in
      (e, d ∙ joined-joined m ms s.config.demoted_methods (named_demoted os))
  configure-Collected m (rate_limiter l ∷ os) s =
      past m os s _ (with_rate_limiter-Kept l s)
        (configure-Collected m os (with_rate_limiter G R l s))
  configure-Collected m (rate_limit heap rps burst ∷ os) s =
      past m os s _ (with_rate_limit-Kept heap rps burst s)
        (configure-Collected m os (with_rate_limit G R heap rps burst s))
