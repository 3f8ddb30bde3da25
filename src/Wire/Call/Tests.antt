-- ===== src/Wire/Call/Tests.antt =====
-- One call between the two programs.
use grpc_template.Common.{
  ℕ, ◌≡◌, refl, true, ℤ, Option, none, some, [], ◌∷◌, ◌++◌, String, Bytes, codes, arith,
}
use grpc_template.World.{World, Level, Entry, Exit, done}
use grpc_template.Rpc.{Context, StatusInfo}
use grpc_template.Rpc.Demo.{demo, background, start, unavailable}
use grpc_template.Server.Interceptor.RateLimit.Tests.{counting}
use grpc_template.Server.Interceptor.Uuid.{match_uuid}
use grpc_template.Server.Interceptor.Uuid.Tests.{random}
use grpc_template.Server.Options.Tests as Serving
use grpc_template.Server.Options.Tests.{shared}
use grpc_template.Client.Options.Tests as Dialling
use grpc_template.Greeter.{Service, Stub, new_caller, call_say_hello}
use grpc_template.Wire.Call.{
  answered, returned, message, behind, ServerEntry, served, announced, called, called-greeting,
}

abbrev never : Context demo → ℤ → World → Option StatusInfo × World
never ctx d w = (none, w)

abbrev draw : World → ℕ → ℕ
draw w n = 0

abbrev stack : World → String
stack w = "goroutine 1"

abbrev wrapping : String → StatusInfo → StatusInfo
wrapping format e = e

abbrev greeter : Service
greeter = record { log = 5 }

abbrev name : Bytes
name = codes "Gopher"

abbrev serving : Context demo → World → Exit (Option Bytes × Option StatusInfo) × World
serving =
    served {G = demo} Serving.disk Dialling.disk counting shared 8 9 start wrapping random stack
      unavailable never draw "/m" greeter name

abbrev before : World
before =
    announced {G = demo} Serving.disk Dialling.disk counting shared 8 9 start wrapping random stack
      unavailable never draw "/m" greeter name start

-- A connection that does not fail.
abbrev wire : Context demo → World → Option StatusInfo × World
wire c u = answered demo unavailable (serving background u)

abbrev calling : Context demo → World → Option StatusInfo × World
calling =
    called {G = demo} Serving.disk Dialling.disk counting shared 8 9 start wrapping random stack
      unavailable never draw "/m" greeter name wire

abbrev stub : Stub demo ℕ ℕ
stub = record {
  say_hello =
      λ c n opts u. (returned (calling c u).0 (message (serving background u).0), (calling c u).1);
  say_hello_server_stream = λ c n opts u. (done (none, some unavailable), u);
}

abbrev left : Bytes → Entry → World
left id e =
    behind {G = demo} Serving.disk Dialling.disk counting shared 8 9 start wrapping random stack
      unavailable never draw "/m" greeter name id e before

called-greeting_example :
    (id : Bytes) × (match_uuid id ≡ true)
    × (es ec : Entry) × ServerEntry {G = demo} Serving.disk Dialling.disk counting shared 8 9 start
        wrapping random stack unavailable never draw "/m" greeter name id es
    × (ec.handler ≡ 9)
    × (ec.level ≡ Level.info)
    × (call_say_hello demo (new_caller demo stub 9) background name [] start ≡ (
      done (some (codes "Hello, Gopher!"), none),
      record (left id es) { log = (left id es).log ++ ec ∷ [] },
    ))
called-greeting_example =
    called-greeting {G = demo} Serving.disk Dialling.disk counting shared 8 9 start wrapping random
      stack unavailable never draw "/m" greeter name wire stub background background start
      (refl, refl) refl (omega arith)
