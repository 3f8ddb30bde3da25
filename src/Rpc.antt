-- ===== src/Rpc.antt =====
-- What the program uses of gRPC and does not implement: errors with a status, metadata, and the
-- context of a call. `Rpc` is the interface; its laws are the documented behaviour of the packages
-- google.golang.org/grpc/status and google.golang.org/grpc/metadata.
pub mod Demo
use grpc_template.Common.{ℕ, ◌≡◌, ◌≢◌, Option, none, some, List, [], ◌∷◌, String, Bool, Bytes}

-- The numbers of google.golang.org/grpc/codes.
abbrev pub code_ok : ℕ
code_ok = 0

abbrev pub code_canceled : ℕ
code_canceled = 1

abbrev pub code_invalid_argument : ℕ
code_invalid_argument = 3

abbrev pub code_resource_exhausted : ℕ
code_resource_exhausted = 8

abbrev pub code_aborted : ℕ
code_aborted = 10

abbrev pub code_internal : ℕ
code_internal = 13

abbrev pub code_unavailable : ℕ
code_unavailable = 14

abbrev pub code_unauthenticated : ℕ
code_unauthenticated = 16

-- A `*status.Status`, read by `Code()` and `Message()`.
pub record StatusInfo : Type 0 where
  pub code : ℕ
  pub message : String

pub record Rpc : Type 1 where
  -- an `error` that is not nil, and its `Error()`
  pub Err : Type 0
  pub error_text : Err → String
  -- `status.Error`, `status.FromError`, `status.Code`
  pub status_error : ℕ → String → Err
  pub from_error : Option Err → StatusInfo × Bool
  pub status_code : Option Err → ℕ
  pub status_code_nil : status_code none ≡ code_ok
  pub status_code_error :
      (c : ℕ) (m : String) → c ≢ code_ok → status_code (some (status_error c m)) ≡ c
  pub from_error_code : (e : Option Err) → (from_error e).0.code ≡ status_code e
  -- `metadata.MD`; keys are compared in lower case
  pub Md : Type 0
  pub lower : String → String
  pub md_new : Md
  pub md_get : Md → String → List Bytes
  pub md_set : Md → String → List Bytes → Md
  pub md_get_new : (k : String) → md_get md_new k ≡ []
  pub md_get_set :
      (m : Md) (k : String) (v : Bytes) (vs : List Bytes) → md_get (md_set m k (v ∷ vs)) k ≡ v ∷ vs
  pub md_get_set_ne :
      (m : Md) (k j : String) (vs : List Bytes)
      → lower j ≢ lower k
      → md_get (md_set m k vs) j ≡ md_get m j

module _ (G : Rpc) where
  -- A `context.Context` by what the program reads from it: the incoming and outgoing metadata, the
  -- peer with its address (`Addr.String()`, if `Addr` is not nil), the values under the private keys
  -- `requestIDKey` and `tokenKey`, the deadline, and the values that user code has added.
  pub record Context : Type 0 where
    pub incoming : Option (Rpc.Md G)
    pub outgoing : Option (Rpc.Md G)
    pub peer : Option (Option Bytes)
    pub request_id : Option Bytes
    pub token : Option Bytes
    pub deadline : Option ℕ
    pub values : List (String × String)
