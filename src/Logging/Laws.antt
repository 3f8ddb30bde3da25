-- ===== src/Logging/Laws.antt =====
-- SetDefault and Resolve (logging.go): the default handler and a nil handler.
use grpc_template.Common.{ℕ, ◌≡◌, refl, Option, none, some}
use grpc_template.World.{World, panicked}
use grpc_template.Logging.{set_default, resolve}

-- After `SetDefault h`, a nil handler resolves to `h` if `h` is not nil, and to the same handler as
-- before, with a panic, if it is; a handler that is not nil always resolves to itself.
pub resolve-set_default :
    (h : Option ℕ) (l : Option ℕ) (w : World)
    → let (r, w') = set_default h w in
      (resolve none w' ≡ resolve h w)
      × (h ≡ none → (w' ≡ w) × (r ≡ panicked "logging: SetDefault called with nil Handler"))
      × (resolve l w' ≡ resolve l (record w { default_handler = resolve h w }))
unfolding set_default resolve
resolve-set_default none none w = (refl, (λ e. (refl, refl)), refl)
resolve-set_default none (some l) w = (refl, (λ e. (refl, refl)), refl)
resolve-set_default (some h) none w = (refl, (λ e. cc), refl)
resolve-set_default (some h) (some l) w = (refl, (λ e. cc), refl)
