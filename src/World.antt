-- ===== src/World.antt =====
-- What the components share of the running process: the clock, the log, the response headers and
-- the default log handler, and how a Go call ends. A `logging.Handler` is a number, its identity.
use grpc_template.Common.{ℕ, List, [], ◌∷◌, ◌++◌, String, Bytes, ℤ}

pub data Level : Type 0 where
  debug info warn error : Level

-- The values that the program passes to a log call behind their keys.
pub data Value : Type 0 where
  text : String → Value
  bytes : Bytes → Value
  number : ℤ → Value
  code : ℕ → Value
  elapsed : ℕ → Value

pub record Entry : Type 0 where
  pub handler : ℕ
  pub level : Level
  pub message : String
  pub args : List (String × Value)

-- `log` and `headers` have the oldest entry first; `now` is the clock in nanoseconds.
pub record World : Type 0 where
  pub default_handler : ℕ
  pub now : ℕ
  pub log : List Entry
  pub headers : List (String × Bytes)

abbrev pub emit : ℕ → Level → String → List (String × Value) → World → World
emit h lvl msg args w = record w {
  log = w.log ++ (record { handler = h; level = lvl; message = msg; args = args } ∷ []);
}

-- `grpc.SetHeader`, whose error the program drops.
abbrev pub set_header : String → Bytes → World → World
set_header k v w = record w { headers = w.headers ++ ((k, v) ∷ []) }

-- How a call ends: it returns, or a panic unwinds it with a value.
pub data Exit (A : Type 0) : Type 0 where
  done : A → Exit A
  panicked : String → Exit A
