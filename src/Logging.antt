-- ===== src/Logging.antt =====
-- internal/logging/logging.go: the default handler and the nil-safe resolution.
pub mod Laws
mod Tests
use grpc_template.Common.{ℕ, Option, none, some}
use grpc_template.World.{World, Exit, done, panicked}

-- `Default`: the handler that the atomic cell holds.
unfoldable pub default_handler : World → ℕ
default_handler w = w.default_handler

-- `SetDefault`, which panics on nil before it stores.
pub set_default : Option ℕ → World → Exit (Unit {0}) × World
set_default none w = (panicked "logging: SetDefault called with nil Handler", w)
set_default (some h) w = (done tt, record w { default_handler = h })

unfoldable pub resolve : Option ℕ → World → ℕ
unfolding default_handler
resolve none w = default_handler w
resolve (some h) w = h
