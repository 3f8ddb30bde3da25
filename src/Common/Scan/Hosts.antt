-- ===== src/Common/Scan/Hosts.antt =====
-- Addresses written by `JoinHostPort` and split by `SplitHostPort`.
use Prim.Native.Nat.{suc, ◌+◌}
use mathlib.Core.Path.{◌≡◌, refl, ap, sym}
use mathlib.Core.Bool.{false}
use mathlib.Core.Logic.{inl, inr}
use mathlib.Core.Option.{some}
use mathlib.Core.List.{[], ◌∷◌, ◌++◌, append_assoc}
use native.Mathlib.Omega.{arith}
use grpc_template.Common.Tests.{if◌then◌else◌, Bool-cases}
use grpc_template.Common.Lists.{length, length-append, take, drop}
use grpc_template.Common.Text.{Bytes}
use grpc_template.Common.Scan.{
  index_byte, last_index_byte, has_byte, split_host, is_bracketed, plain_host, bracketed_host,
}
use grpc_template.Common.Scan.Laws.{
  has_byte-cons, has_byte-append, take-length_append, drop-length_append, index_byte-append,
  last_index_byte-append,
}

-- An address as `net.JoinHostPort` writes it.
abbrev pub join_host_port : Bytes → Bytes → Bytes
join_host_port h p = if has_byte h b':' then b'[' ∷ (h ++ (b']' ∷ (b':' ∷ p))) else h ++ (b':' ∷ p)

-- No brackets, and no colon in the port.
pub record IsHostPort (h p : Bytes) : Type 0 where
  pub no_open : has_byte h b'[' ≡ false
  pub no_close : has_byte h b']' ≡ false
  pub port_colon : has_byte p b':' ≡ false
  pub port_open : has_byte p b'[' ≡ false
  pub port_close : has_byte p b']' ≡ false

is_bracketed-append :
    (h p : Bytes) → has_byte h b'[' ≡ false → is_bracketed (h ++ (b':' ∷ p)) ≡ false
unfolding index_byte
is_bracketed-append [] p e = refl
is_bracketed-append (b ∷ h) p e = ground arith

plain_host-append :
    (h p : Bytes)
    → IsHostPort h p
    → has_byte h b':' ≡ false
    → plain_host (h ++ (b':' ∷ p)) (length h) ≡ some h
unfolding plain_host
plain_host-append h p ok c = rw take-length_append (
    ground (
      arith,
      has_byte-append h (b':' ∷ p) b'[',
      has_byte-append h (b':' ∷ p) b']',
      has_byte-cons b':' p b'[',
      has_byte-cons b':' p b']',
    ))

split_host-plain :
    (h p : Bytes) → IsHostPort h p → has_byte h b':' ≡ false → split_host (h ++ (b':' ∷ p)) ≡ some h
unfolding split_host
split_host-plain h p ok c =
    rw
      (
        split_host,
        last_index_byte-append h p b':' ok.port_colon,
        is_bracketed-append h p ok.no_open,
      )
      (plain_host-append h p ok c)

module _ (h p : Bytes) (ok : IsHostPort h p) where
  abbrev opened : Bytes
  opened = b'[' ∷ (h ++ (b']' ∷ []))

  abbrev address : Bytes
  address = b'[' ∷ (h ++ (b']' ∷ (b':' ∷ p)))

  address-eq : address ≡ opened ++ (b':' ∷ p)
  address-eq = ap (λ t. b'[' ∷ t) (sym (append_assoc h (b']' ∷ []) (b':' ∷ p)))

  length-opened : length opened ≡ suc (length h) + 1
  length-opened = omega (arith, length-append h (b']' ∷ []))

  last_colon : last_index_byte address b':' ≡ some (suc (length h) + 1)
  last_colon = rw (address-eq, ← length-opened) (last_index_byte-append opened p b':' ok.port_colon)

  first_close : index_byte address b']' ≡ some (suc (length h))
  first_close =
      index_byte-append (b'[' ∷ h) (b':' ∷ p) b']' (ground (arith, has_byte-cons b'[' h b']'))

  behind_close : drop (suc (length h) + 1) address ≡ b':' ∷ p
  behind_close = rw (address-eq, ← length-opened) (drop-length_append opened (b':' ∷ p))

  before_close : take (suc (length h)) address ≡ b'[' ∷ h
  before_close = take-length_append (b'[' ∷ h) (b']' ∷ (b':' ∷ p))

  bracketed_host-address : bracketed_host address (suc (length h) + 1) (suc (length h)) ≡ some h
  unfolding bracketed_host
  bracketed_host-address =
      rw (behind_close, before_close)
        (ground (
          arith,
          length-append h (b']' ∷ (b':' ∷ p)),
          has_byte-append h (b']' ∷ (b':' ∷ p)) b'[',
          has_byte-cons b']' (b':' ∷ p) b'[',
          has_byte-cons b':' p b'[',
          has_byte-cons b':' p b']',
        ))

split_host-bracketed :
    (h p : Bytes) → IsHostPort h p → split_host (b'[' ∷ (h ++ (b']' ∷ (b':' ∷ p)))) ≡ some h
unfolding split_host
split_host-bracketed h p ok =
    rw (split_host, last_colon h p ok, first_close h p ok) (bracketed_host-address h p ok)

-- An address that `net.JoinHostPort` writes, for a host without brackets and a port without
-- brackets and colons, is split into its host.
pub split_host-join : (h p : Bytes) → IsHostPort h p → split_host (join_host_port h p) ≡ some h
split_host-join h p ok = elim (Bool-cases (has_byte h b':')) [
  | inl c ↦ rw c (split_host-bracketed h p ok)
  | inr c ↦ rw c (split_host-plain h p ok c)
]
