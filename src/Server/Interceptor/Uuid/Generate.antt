-- ===== src/Server/Interceptor/Uuid/Generate.antt =====
-- generateUUID (requestid.go): the digits of a generated UUID.
use grpc_template.Common.{
  ℕ, ◌+◌, ◌*◌, ◌/◌, ◌≤◌, ◌<◌, ◌≡◌, refl, ap, ◌∙◌, ◌⊎◌, true, Option, some, [], ◌∷◌, ◌++◌, Bytes,
  length, drop, arith, get_elem?,
}
use grpc_template.Server.Interceptor.Uuid.{
  hex_digit, hex, modify, version_bits, variant_bits, slice, stamp, format, generate_uuid,
  match_uuid,
}
use grpc_template.Server.Interceptor.Uuid.Pattern.{IsHexRun, match_uuid_iff}
use grpc_template.Server.Interceptor.Uuid.Format.{
  AreBytes, version_bits-div, variant_bits-div, length-modify, modify-AreBytes, drop-cons,
  drop-modify, format-IsUuid, length-stamp, stamp-AreBytes, get_elem?-behind, slice-IsHexRun,
}

-- RFC 9562: the first bits of the fourth group of a UUID are 10.
abbrev pub IsVariant : Option ℕ → Type 0
IsVariant c = (c ≡ some b'8') ⊎ (c ≡ some b'9') ⊎ (c ≡ some b'a') ⊎ (c ≡ some b'b')

get_elem?-front : (xs ys : Bytes) → 0 < length xs → get_elem? (xs ++ ys) 0 ≡ get_elem? xs 0
get_elem?-front [] ys h = absurd (omega arith)
get_elem?-front (x ∷ xs) ys h = refl

IsVariant-digit : (b : ℕ) → b < 256 → IsVariant (some (hex_digit (variant_bits b / 16)))
IsVariant-digit b p = let (lo, hi) = variant_bits-div b p in ground arith

module _ (r : Bytes) (len : length r ≡ 16) (small : AreBytes r) where
  version_group : get_elem? (hex (slice 6 8 (stamp r))) 0 ≡ some b'4'
  unfolding stamp hex
  version_group =
      let (b, t, e, p) = drop-cons 6 r (omega arith) small in
      let dropped : drop 6 (modify 8 variant_bits (modify 6 version_bits r))
          ≡ modify 2 variant_bits (version_bits b ∷ t) =
        drop-modify 6 8 variant_bits _ (omega arith)
        ∙ ap (modify 2 variant_bits)
            (drop-modify 6 6 version_bits r (omega arith) ∙ ap (modify 0 version_bits) e) in
      rw (dropped, version_bits-div b p)

  IsVariant-group : IsVariant (get_elem? (hex (slice 8 10 (stamp r))) 0)
  unfolding stamp hex
  IsVariant-group =
      let s = modify 6 version_bits r in
      let (b, t, e, p) =
        drop-cons 8 s (omega (arith, length-modify 6 version_bits r))
          (modify-AreBytes 6 version_bits r (λ b p. omega (arith, version_bits-div b p)) small) in
      let dropped : drop 8 (modify 8 variant_bits s) ≡ variant_bits b ∷ t =
        drop-modify 8 8 variant_bits s (omega arith) ∙ ap (modify 0 variant_bits) e in
      rw dropped (IsVariant-digit b p)

  run : (i j n : ℕ) → i + n ≡ j → j ≤ 16 → IsHexRun (n * 2) (hex (slice i j (stamp r)))
  run i j n e h =
      slice-IsHexRun i j n (stamp r) e (omega (arith, length-stamp r)) (stamp-AreBytes r small)

  third : get_elem? (format (stamp r)) 14 ≡ get_elem? (hex (slice 6 8 (stamp r))) 0
  unfolding format
  third =
      let (a, _) = run 0 4 4 refl (omega arith) in
      let (b, _) = run 4 6 2 refl (omega arith) in
      let (c, _) = run 6 8 2 refl (omega arith) in
      get_elem?-behind (hex (slice 0 4 (stamp r))) _ 14 6 (omega arith)
      ∙ get_elem?-behind (hex (slice 4 6 (stamp r))) _ 5 1 (omega arith)
      ∙ get_elem?-front (hex (slice 6 8 (stamp r))) _ (omega arith)

  fourth : get_elem? (format (stamp r)) 19 ≡ get_elem? (hex (slice 8 10 (stamp r))) 0
  unfolding format
  fourth =
      let (a, _) = run 0 4 4 refl (omega arith) in
      let (b, _) = run 4 6 2 refl (omega arith) in
      let (c, _) = run 6 8 2 refl (omega arith) in
      let (d, _) = run 8 10 2 refl (omega arith) in
      get_elem?-behind (hex (slice 0 4 (stamp r))) _ 19 11 (omega arith)
      ∙ get_elem?-behind (hex (slice 4 6 (stamp r))) _ 10 6 (omega arith)
      ∙ get_elem?-behind (hex (slice 6 8 (stamp r))) _ 5 1 (omega arith)
      ∙ get_elem?-front (hex (slice 8 10 (stamp r))) _ (omega arith)

  -- From 16 random bytes `generateUUID` makes a text that `uuidPattern` accepts, with the version
  -- digit 4 and a variant digit 8, 9, a or b.
  pub generate_uuid_v4 :
      (match_uuid (generate_uuid r) ≡ true)
      × (get_elem? (generate_uuid r) 14 ≡ some b'4')
      × IsVariant (get_elem? (generate_uuid r) 19)
  unfolding generate_uuid
  generate_uuid_v4 = (
    (match_uuid_iff _).1 (format-IsUuid (stamp r) (length-stamp r ∙ len) (stamp-AreBytes r small)),
    third ∙ version_group,
    rw fourth IsVariant-group,
  )
