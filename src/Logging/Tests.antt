-- ===== src/Logging/Tests.antt =====
-- Runs of the default handler.
use grpc_template.Common.{ℕ, ◌≡◌, refl, Option, none, some, []}
use grpc_template.World.{World}
use grpc_template.Logging.{set_default, resolve, default_handler}

abbrev start : World
start = record { default_handler = 1; now = 0; log = []; headers = [] }

abbrev five : Option ℕ
five = some 5

replaced : resolve none (set_default five start).1 ≡ 5
unfolding set_default resolve default_handler
replaced = refl
