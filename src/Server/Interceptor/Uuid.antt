-- ===== src/Server/Interceptor/Uuid.antt =====
-- internal/server/interceptor/requestid.go: `generateUUID` and `uuidPattern`. The 16 random bytes
-- are an argument.
pub mod Format
pub mod Generate
pub mod Pattern
pub mod Tests
use Prim.Native.Nat.{bit_and, bit_or}
use grpc_template.Common.{
  ℕ, zero, suc, ◌+◌, ◌-◌, ◌/◌, ◌%◌, Bool, true, false, ◌&&◌, ◌||◌, Option, none, some, List, [],
  ◌∷◌, ◌++◌, Bytes, take, drop, is_empty, leb, ltb, ◌==◌, if◌then◌else◌,
}

-- `%x` of a byte slice: two lower-case digits for a byte.
abbrev pub hex_digit : ℕ → ℕ
hex_digit n = if ltb n 10 then b'0' + n else b'a' + n - 10

pub hex : Bytes → Bytes
hex [] = []
hex (b ∷ bs) = hex_digit (b / 16) ∷ hex_digit (b % 16) ∷ hex bs

abbrev pub modify : ℕ → (ℕ → ℕ) → Bytes → Bytes
modify i f [] = []
modify zero f (b ∷ bs) = f b ∷ bs
modify (suc i) f (b ∷ bs) = b ∷ modify i f bs

pub version_bits : ℕ → ℕ
version_bits b = bit_or (bit_and b 0x0f) 0x40

pub variant_bits : ℕ → ℕ
variant_bits b = bit_or (bit_and b 0x3f) 0x80

-- `uuid[i:j]`
abbrev pub slice : ℕ → ℕ → Bytes → Bytes
slice i j u = take (j - i) (drop i u)

pub stamp : Bytes → Bytes
unfolding version_bits variant_bits
stamp random = modify 8 variant_bits (modify 6 version_bits random)

pub format : Bytes → Bytes
unfolding hex
format u =
    hex (slice 0 4 u)
    ++ (b'-'
        ∷ (hex (slice 4 6 u)
            ++ (b'-'
                ∷ (hex (slice 6 8 u)
                    ++ (b'-' ∷ (hex (slice 8 10 u) ++ (b'-' ∷ hex (slice 10 16 u))))))))

pub generate_uuid : Bytes → Bytes
unfolding stamp format
generate_uuid random = format (stamp random)

-- `[0-9a-fA-F]`
abbrev pub is_hex : ℕ → Bool
is_hex c = (leb b'0' c && leb c b'9') || ((leb b'a' c && leb c b'f') || (leb b'A' c && leb c b'F'))

-- `[0-9a-fA-F]{n}`, with what is left behind it.
unfoldable pub skip_hex : ℕ → Bytes → Option Bytes
skip_hex zero s = some s
skip_hex (suc n) [] = none
skip_hex (suc n) (c ∷ s) = let rest = skip_hex n s in if is_hex c then rest else none

unfoldable pub skip_dash : Bytes → Option Bytes
skip_dash [] = none
skip_dash (c ∷ s) = if c == b'-' then some s else none

infixl 5 ◌>>=◌
abbrev ◌>>=◌ : {A B : Type 0} → Option A → (A → Option B) → Option B
none >>= k = none
some a >>= k = k a

unfoldable pub skip_uuid : Bytes → Option Bytes
unfolding skip_hex skip_dash
skip_uuid s = do
  a ← skip_hex 8 s
  b ← skip_dash a
  c ← skip_hex 4 b
  d ← skip_dash c
  e ← skip_hex 4 d
  f ← skip_dash e
  g ← skip_hex 4 f
  h ← skip_dash g
  skip_hex 12 h

-- `uuidPattern.MatchString`: without flags `$` matches at the end of the text only.
unfoldable pub match_uuid : Bytes → Bool
unfolding skip_uuid
match_uuid s = elim (skip_uuid s) [ none ↦ false | some rest ↦ is_empty rest ]
