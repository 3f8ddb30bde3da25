-- ===== src/Common/Scan/Laws.antt =====
-- Searching and splitting byte strings.
use Prim.Native.Nat.{ℕ, zero, suc}
use mathlib.Core.Path.{◌≡◌, refl, ap}
use mathlib.Core.Logic.{inl, inr}
use mathlib.Core.Bool.{false, ◌&&◌, ◌||◌}
use mathlib.Core.Option.{none, some}
use mathlib.Core.List.{List, [], ◌∷◌, ◌++◌}
use native.Mathlib.Omega.{arith}
use grpc_template.Common.Tests.{◌==◌, if◌then◌else◌, Bool-cases}
use grpc_template.Common.Lists.{length, take, drop}
use grpc_template.Common.Text.{Bytes, is_empty}
use grpc_template.Common.Scan.{
  index_byte, last_index_byte, has_byte, is_space, trim_left, trim_right, trim_space,
}

pub has_byte-cons : (b : ℕ) (bs : Bytes) (c : ℕ) → has_byte (b ∷ bs) c ≡ (b == c || has_byte bs c)
unfolding index_byte
has_byte-cons b bs c = ground arith

pub has_byte-append :
    (xs ys : Bytes) (c : ℕ) → has_byte (xs ++ ys) c ≡ (has_byte xs c || has_byte ys c)
unfolding index_byte
has_byte-append [] ys c = refl
has_byte-append (x ∷ xs) ys c = ground (arith, has_byte-append xs ys c)

pub take-length_append {ℓ} : {A : Type ℓ} (xs ys : List A) → take (length xs) (xs ++ ys) ≡ xs
take-length_append [] ys = refl
take-length_append (x ∷ xs) ys = ap (λ zs. x ∷ zs) (take-length_append xs ys)

pub drop-length_append {ℓ} : {A : Type ℓ} (xs ys : List A) → drop (length xs) (xs ++ ys) ≡ ys
drop-length_append [] ys = refl
drop-length_append (x ∷ xs) ys = drop-length_append xs ys

-- The first occurrence, behind a part without the byte.
pub index_byte-append :
    (xs ys : Bytes) (c : ℕ) → has_byte xs c ≡ false → index_byte (xs ++ c ∷ ys) c ≡ some (length xs)
unfolding index_byte
index_byte-append [] ys c h = ground arith
index_byte-append (x ∷ xs) ys c h = ground (arith, index_byte-append xs ys c)

last_index_byte-none : (xs : Bytes) (c : ℕ) → has_byte xs c ≡ false → last_index_byte xs c ≡ none
unfolding index_byte last_index_byte
last_index_byte-none [] c h = refl
last_index_byte-none (x ∷ xs) c h = ground (arith, last_index_byte-none xs c)

-- The last occurrence, before a part without the byte.
pub last_index_byte-append :
    (xs ys : Bytes) (c : ℕ)
    → has_byte ys c ≡ false
    → last_index_byte (xs ++ c ∷ ys) c ≡ some (length xs)
unfolding last_index_byte
last_index_byte-append [] ys c h = ground (arith, last_index_byte-none ys c h)
last_index_byte-append (x ∷ xs) ys c h = rw (last_index_byte-append xs ys c h)

-- What `TrimSpace` leaves begins and ends with no space.
abbrev pub StartsClean : Bytes → Type 0
StartsClean [] = Unit
StartsClean (b ∷ bs) = is_space b ≡ false

abbrev pub EndsClean : Bytes → Type 0
EndsClean [] = Unit
EndsClean (b ∷ []) = is_space b ≡ false
EndsClean (b ∷ c ∷ bs) = EndsClean (c ∷ bs)

pub trim_left-StartsClean : (s : Bytes) → StartsClean (trim_left s)
unfolding trim_left
trim_left-StartsClean [] = tt
trim_left-StartsClean (b ∷ bs) = elim (Bool-cases (is_space b)) [
  | inl h ↦ rw h (trim_left-StartsClean bs)
  | inr h ↦ rw h h
]

trim_right-EndsClean : (s : Bytes) → EndsClean (trim_right s)
unfolding trim_right
trim_right-EndsClean [] = tt
trim_right-EndsClean (b ∷ bs) = ends_cons b (trim_right bs) (trim_right-EndsClean bs)
  where
    ends_cons :
        (b : ℕ) (r : Bytes)
        → EndsClean r
        → EndsClean (if is_space b && is_empty r then [] else b ∷ r)
    ends_cons b [] h = elim (Bool-cases (is_space b)) [ inl e ↦ rw e tt | inr e ↦ rw e e ]
    ends_cons b (c ∷ r) h = elim (Bool-cases (is_space b)) [ inl e ↦ rw e h | inr e ↦ rw e h ]

trim_right-StartsClean : (s : Bytes) → StartsClean s → StartsClean (trim_right s)
unfolding trim_right
trim_right-StartsClean [] h = tt
trim_right-StartsClean (b ∷ bs) h = rw h h

pub trim_space-clean : (s : Bytes) → StartsClean (trim_space s) × EndsClean (trim_space s)
unfolding trim_space
trim_space-clean s = (
  trim_right-StartsClean (trim_left s) (trim_left-StartsClean s),
  trim_right-EndsClean (trim_left s),
)

has_byte-trim_left : (s : Bytes) (c : ℕ) → has_byte s c ≡ false → has_byte (trim_left s) c ≡ false
unfolding trim_left index_byte
has_byte-trim_left [] c h = refl
has_byte-trim_left (b ∷ bs) c h = ground (arith, has_byte-trim_left bs c)

has_byte-trim_right : (s : Bytes) (c : ℕ) → has_byte s c ≡ false → has_byte (trim_right s) c ≡ false
unfolding trim_right index_byte
has_byte-trim_right [] c h = refl
has_byte-trim_right (b ∷ bs) c h = ground (arith, has_byte-trim_right bs c)

pub has_byte-trim_space :
    (s : Bytes) (c : ℕ) → has_byte s c ≡ false → has_byte (trim_space s) c ≡ false
unfolding trim_space
has_byte-trim_space s c h = has_byte-trim_right _ c (has_byte-trim_left s c h)

pub has_byte-take_index :
    (s : Bytes) (c i : ℕ) → index_byte s c ≡ some i → has_byte (take i s) c ≡ false
unfolding index_byte
has_byte-take_index [] c i h = cc
has_byte-take_index (b ∷ bs) c zero h = refl
has_byte-take_index (b ∷ bs) c (suc i) h = ground (arith, has_byte-take_index bs c i)

trim_right_of_EndsClean : (s : Bytes) → EndsClean s → trim_right s ≡ s
unfolding trim_right
trim_right_of_EndsClean [] h = refl
trim_right_of_EndsClean (b ∷ []) h = rw h
trim_right_of_EndsClean (b ∷ c ∷ bs) h = keep b c bs (trim_right_of_EndsClean (c ∷ bs) h)
  where
    keep :
        (b c : ℕ) (bs : Bytes) {r : Bytes}
        → r ≡ c ∷ bs
        → (if is_space b && is_empty r then [] else b ∷ r) ≡ b ∷ c ∷ bs
    keep b c bs e = rw e (ground arith)

pub trim_space_of_clean : (s : Bytes) → StartsClean s → EndsClean s → trim_space s ≡ s
unfolding trim_space trim_left
trim_space_of_clean [] h k = refl
trim_space_of_clean (b ∷ bs) h k = rw h (trim_right_of_EndsClean (b ∷ bs) k)
