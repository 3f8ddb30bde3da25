-- ===== src/Rpc/Demo.antt =====
-- A concrete instance of the gRPC interface, on which the developments' examples run: an error is
-- its status, and metadata is an association list.
use grpc_template.Common.{
  ℕ, ◌≡◌, refl, ◌≢◌, Bool, true, Option, none, some, List, [], ◌∷◌, String, Bytes, str_eq, eq_iff,
  arith, if◌then◌else◌,
}
use grpc_template.World.{World}
use grpc_template.Rpc.{Rpc, StatusInfo, Context}

abbrev pub Pairs : Type 0
Pairs = List (String × List Bytes)

abbrev pub get : Pairs → String → List Bytes
get [] k = []
get ((j, vs) ∷ m) k = if str_eq j k then vs else get m k

abbrev pub read : Option StatusInfo → StatusInfo × Bool
read none = (record { code = 0; message = "" }, true)
read (some e) = (e, true)

abbrev pub code_of : Option StatusInfo → ℕ
code_of none = 0
code_of (some e) = e.code

pub read-code : (e : Option StatusInfo) → (read e).0.code ≡ code_of e
read-code none = refl
read-code (some e) = refl

pub get-cons : (m : Pairs) (k : String) (vs : List Bytes) → get ((k, vs) ∷ m) k ≡ vs
get-cons m k vs = ground (arith, eq_iff k k)

pub get-cons_ne :
    (m : Pairs) (k j : String) (vs : List Bytes) → j ≢ k → get ((k, vs) ∷ m) j ≡ get m j
get-cons_ne m k j vs h = ground (arith, eq_iff k j)

abbrev pub demo : Rpc
demo = record {
  Err = StatusInfo;
  error_text = λ e. e.message;
  status_error = λ c m. record { code = c; message = m };
  from_error = read;
  status_code = code_of;
  status_code_nil = refl;
  status_code_error = λ c m h. refl;
  from_error_code = read-code;
  Md = Pairs;
  lower = λ s. s;
  md_new = [];
  md_get = get;
  md_set = λ m k vs. (k, vs) ∷ m;
  md_get_new = λ k. refl;
  md_get_set = λ m k v vs. get-cons m k (v ∷ vs);
  md_get_set_ne = get-cons_ne;
}

abbrev pub background : Context demo
background = record {
  incoming = none;
  outgoing = none;
  peer = none;
  request_id = none;
  token = none;
  deadline = none;
  values = [];
}

abbrev pub start : World
start = record { default_handler = 1; now = 100; log = []; headers = [] }

-- The error of a server that is unavailable.
abbrev pub unavailable : StatusInfo
unavailable = record { code = 14; message = "try again" }
