-- ===== src/Common/Scan.antt =====
-- What the program uses of Go's packages strings and net on byte strings: `IndexByte`,
-- `LastIndexByte`, `TrimSpace` (its ASCII part) and the host of `SplitHostPort`.
pub mod Laws
pub mod Hosts
use Prim.Native.Nat.{ℕ, zero, suc, ◌+◌}
use mathlib.Core.Bool.{Bool, true, false, ◌&&◌, ◌||◌}
use mathlib.Core.Option
use mathlib.Core.Option.{Option, none, some}
use mathlib.Core.List.{List, [], ◌∷◌}
use grpc_template.Common.Tests.{◌==◌, leb, if◌then◌else◌, is_some}
use grpc_template.Common.Lists.{length, take, drop}
use grpc_template.Common.Text.{Bytes, is_empty}

unfoldable pub index_byte : Bytes → ℕ → Option ℕ
index_byte [] c = none
index_byte (b ∷ bs) c = if b == c then some 0 else Option.map suc (index_byte bs c)

unfoldable pub last_index_byte : Bytes → ℕ → Option ℕ
last_index_byte [] c = none
last_index_byte (b ∷ bs) c = elim (last_index_byte bs c) [
  | some i ↦ some (suc i)
  | none ↦ if b == c then some 0 else none
]

abbrev pub has_byte : Bytes → ℕ → Bool
has_byte s c = is_some (index_byte s c)

abbrev pub is_space : ℕ → Bool
is_space b = b == b' ' || (leb 9 b && leb b 13)

unfoldable pub trim_left : Bytes → Bytes
trim_left [] = []
trim_left (b ∷ bs) = let rest = trim_left bs in if is_space b then rest else b ∷ bs

unfoldable pub trim_right : Bytes → Bytes
trim_right [] = []
trim_right (b ∷ bs) =
    let rest = trim_right bs in if is_space b && is_empty rest then [] else b ∷ rest

unfoldable pub trim_space : Bytes → Bytes
unfolding trim_left trim_right
trim_space s = trim_right (trim_left s)

-- The host of "host:port"; `none` stands for an error. `i` is the place of the last colon.
pub plain_host : Bytes → ℕ → Option Bytes
plain_host s i =
    if has_byte (take i s) b':'
    then none
    else if has_byte s b'[' || has_byte s b']'
    then none
    else some (take i s)

-- The host of "[host]:port"; `end` is the place of the first closing bracket.
pub bracketed_host : Bytes → ℕ → ℕ → Option Bytes
bracketed_host s i end =
    if end + 1 == length s
    then none
    else if end + 1 == i
    then if has_byte (drop 1 s) b'[' || has_byte (drop (end + 1) s) b']'
      then none
      else some (drop 1 (take end s))
    else none

abbrev is_bracketed : Bytes → Bool
is_bracketed [] = false
is_bracketed (b ∷ bs) = b == b'['

unfoldable pub split_host : Bytes → Option Bytes
split_host s = elim (last_index_byte s b':') [
  | none ↦ none
  | some i ↦
      if is_bracketed s
      then elim (index_byte s b']') [ none ↦ none | some end ↦ bracketed_host s i end ]
      else plain_host s i
]
