-- ===== src/Server/Interceptor/Uuid/Format.antt =====
-- generateUUID (requestid.go): the stamped bytes and their groups of digits.
use grpc_template.Common.{
  all, ℕ, zero, suc, ◌+◌, ◌-◌, ◌*◌, ◌/◌, ◌%◌, ◌≤◌, ◌<◌, ◌≡◌, refl, ap, ◌∙◌, Bool, true, ◌&&◌, [],
  ◌∷◌, ◌++◌, Bytes, All, length, take, drop, arith, leb, ◌==◌, get_elem?,
}
use grpc_template.Server.Interceptor.Uuid.{
  hex_digit, hex, modify, version_bits, variant_bits, slice, stamp, format, is_hex,
}
use grpc_template.Server.Interceptor.Uuid.Pattern.{IsHexRun, IsUuid}

abbrev pub AreBytes : Bytes → Type 0
AreBytes = All (λ b. b < 256)

hex_digit-hex : (n : ℕ) → n < 16 → is_hex (hex_digit n) ≡ true
hex_digit-hex n h = ground arith

hex-IsHexRun : (bs : Bytes) → AreBytes bs → IsHexRun (length bs * 2) (hex bs)
unfolding hex
hex-IsHexRun [] h = (refl, tt)
hex-IsHexRun (b ∷ bs) (small, h) =
    let (len, digits) = hex-IsHexRun bs h in
    (
      omega arith,
      (hex_digit-hex (b / 16) (omega arith), (hex_digit-hex (b % 16) (omega arith), digits)),
    )

length-take_le : (n : ℕ) (xs : Bytes) → n ≤ length xs → length (take n xs) ≡ n
length-take_le zero xs h = refl
length-take_le (suc n) [] h = absurd (omega arith)
length-take_le (suc n) (x ∷ xs) h = ap suc (length-take_le n xs (omega arith))

length-drop : (n : ℕ) (xs : Bytes) → length (drop n xs) ≡ length xs - n
length-drop zero xs = omega arith
length-drop (suc n) [] = omega arith
length-drop (suc n) (x ∷ xs) = omega (arith, length-drop n xs)

take-AreBytes : (n : ℕ) (xs : Bytes) → AreBytes xs → AreBytes (take n xs)
take-AreBytes zero xs h = tt
take-AreBytes (suc n) [] h = tt
take-AreBytes (suc n) (x ∷ xs) (p, h) = (p, take-AreBytes n xs h)

drop-AreBytes : (n : ℕ) (xs : Bytes) → AreBytes xs → AreBytes (drop n xs)
drop-AreBytes zero xs h = h
drop-AreBytes (suc n) [] h = tt
drop-AreBytes (suc n) (x ∷ xs) (p, h) = drop-AreBytes n xs h

pub length-modify : (i : ℕ) (f : ℕ → ℕ) (xs : Bytes) → length (modify i f xs) ≡ length xs
length-modify i f [] = refl
length-modify zero f (x ∷ xs) = refl
length-modify (suc i) f (x ∷ xs) = ap suc (length-modify i f xs)

pub modify-AreBytes :
    (i : ℕ) (f : ℕ → ℕ) (xs : Bytes)
    → ((b : ℕ) → b < 256 → f b < 256)
    → AreBytes xs
    → AreBytes (modify i f xs)
modify-AreBytes i f [] small h = tt
modify-AreBytes zero f (x ∷ xs) small (p, h) = (small x p, h)
modify-AreBytes (suc i) f (x ∷ xs) small (p, h) = (p, modify-AreBytes i f xs small h)

pub drop-modify :
    (i j : ℕ) (f : ℕ → ℕ) (xs : Bytes)
    → i ≤ j
    → drop i (modify j f xs) ≡ modify (j - i) f (drop i xs)
drop-modify zero j f xs h = let e : j - zero ≡ j = omega arith in rw e
drop-modify (suc i) zero f xs h = absurd (omega arith)
drop-modify (suc i) (suc j) f [] h = refl
drop-modify (suc i) (suc j) f (x ∷ xs) h =
    let e : suc j - suc i ≡ j - i = omega arith in rw e (drop-modify i j f xs (omega arith))

pub drop-cons :
    (i : ℕ) (xs : Bytes)
    → i < length xs
    → AreBytes xs
    → (b : ℕ) × (t : Bytes) × (drop i xs ≡ b ∷ t) × (b < 256)
drop-cons i [] h k = absurd (omega arith)
drop-cons zero (x ∷ xs) h (p, k) = (x, xs, refl, p)
drop-cons (suc i) (x ∷ xs) h (p, k) = drop-cons i xs (omega arith) k

-- The bytes that stand at the two places, up to a bound.
below : ℕ → Bytes
below zero = []
below (suc n) = n ∷ below n

-- The first digit is 4 at the one place, and from 8 to 11 at the other.
stamped_digits : ℕ → Bool
unfolding version_bits variant_bits
stamped_digits b =
    let digit = variant_bits b / 16 in (version_bits b / 16 == 4) && (leb 8 digit && leb digit 11)

every_byte : all stamped_digits (below 256) ≡ true
unfolding stamped_digits below
every_byte = refl

all-below :
    (b bound : ℕ) → b < bound → all stamped_digits (below bound) ≡ true → stamped_digits b ≡ true
unfolding below
all-below b zero lt h = absurd (omega arith)
all-below b (suc bound) lt h = ground (arith, all-below b bound)

pub version_bits-div : (b : ℕ) → b < 256 → version_bits b / 16 ≡ 4
unfolding stamped_digits
version_bits-div b h = ground (arith, all-below b 256 h every_byte)

pub variant_bits-div : (b : ℕ) → b < 256 → (8 ≤ variant_bits b / 16) × (variant_bits b / 16 ≤ 11)
unfolding stamped_digits
variant_bits-div b h = ground (arith, all-below b 256 h every_byte)

pub stamp-AreBytes : (r : Bytes) → AreBytes r → AreBytes (stamp r)
unfolding stamp
stamp-AreBytes r h =
    modify-AreBytes 8 variant_bits _ (λ b p. omega (arith, variant_bits-div b p))
      (modify-AreBytes 6 version_bits r (λ b p. omega (arith, version_bits-div b p)) h)

pub length-stamp : (r : Bytes) → length (stamp r) ≡ length r
unfolding stamp
length-stamp r = length-modify 8 variant_bits _ ∙ length-modify 6 version_bits r

pub slice-IsHexRun :
    (i j n : ℕ) (u : Bytes)
    → i + n ≡ j
    → j ≤ length u
    → AreBytes u
    → IsHexRun (n * 2) (hex (slice i j u))
slice-IsHexRun i j n u e h k =
    let len : length (slice i j u) ≡ n =
      length-take_le (j - i) (drop i u) (omega (arith, length-drop i u)) ∙ omega arith in
    rw (← len) (hex-IsHexRun (slice i j u) (take-AreBytes (j - i) _ (drop-AreBytes i u k)))

pub format-IsUuid : (u : Bytes) → length u ≡ 16 → AreBytes u → IsUuid (format u)
unfolding format
format-IsUuid u h k = record {
  a = hex (slice 0 4 u);
  b = hex (slice 4 6 u);
  c = hex (slice 6 8 u);
  d = hex (slice 8 10 u);
  e = hex (slice 10 16 u);
  run_a = slice-IsHexRun 0 4 4 u refl (omega arith) k;
  run_b = slice-IsHexRun 4 6 2 u refl (omega arith) k;
  run_c = slice-IsHexRun 6 8 2 u refl (omega arith) k;
  run_d = slice-IsHexRun 8 10 2 u refl (omega arith) k;
  run_e = slice-IsHexRun 10 16 6 u refl (omega arith) k;
  joined = refl;
}

pub get_elem?-behind :
    (xs ys : Bytes) (n i : ℕ) → length xs + i ≡ n → get_elem? (xs ++ ys) n ≡ get_elem? ys i
get_elem?-behind [] ys n i h = let e : n ≡ i = omega arith in rw e
get_elem?-behind (x ∷ xs) ys zero i h = absurd (omega arith)
get_elem?-behind (x ∷ xs) ys (suc n) i h = get_elem?-behind xs ys n i (omega arith)
