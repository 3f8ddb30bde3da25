-- ===== src/Server/Interceptor/Auth/Bearer.antt =====
-- The token that is read from an "authorization" header.
use grpc_template.Common.{
  ℕ, zero, suc, ◌≡◌, refl, ap, sym, subst, ◌∙◌, ◌↔◌, ◌≢◌, ◌⊎◌, inl, inr, true, Bool-cases,
  List-cases, Option, none, some, List, [], ◌∷◌, ◌++◌, Bytes, codes, bytes_eq_iff, take, drop,
  length, map, ◌≤◌, arith,
}
use grpc_template.Rpc.{Rpc, Context}
use grpc_template.Server.Interceptor.Auth.{
  lower_byte, has_bearer, strip_bearer, found, header_token, extract_bearer_token,
}

-- "bearer " in upper and lower case letters.
abbrev pub Spelled : Bytes → Type 0
Spelled p = map lower_byte p ≡ codes "bearer "

-- What a header's value stands for: what follows the scheme, or without a scheme the whole value.
abbrev pub Means : Bytes → Bytes → Type 0
Means v t =
    ((p : Bytes) × (v ≡ p ++ t) × Spelled p)
    ⊎ (((p u : Bytes) → v ≡ p ++ u → ¬ (Spelled p)) × (t ≡ v))

length-map : (f : ℕ → ℕ) (xs : Bytes) → length (map f xs) ≡ length xs
length-map f [] = refl
length-map f (x ∷ xs) = ap suc (length-map f xs)

take-append : (xs ys : Bytes) → take (length xs) (xs ++ ys) ≡ xs
take-append [] ys = refl
take-append (x ∷ xs) ys = ap (λ zs. x ∷ zs) (take-append xs ys)

drop-append : (xs ys : Bytes) → drop (length xs) (xs ++ ys) ≡ ys
drop-append [] ys = refl
drop-append (x ∷ xs) ys = drop-append xs ys

length-append_le : (xs ys : Bytes) → length xs ≤ length (xs ++ ys)
length-append_le [] ys = omega arith
length-append_le (x ∷ xs) ys = omega (arith, length-append_le xs ys)

take-drop : (n : ℕ) (xs : Bytes) → xs ≡ take n xs ++ drop n xs
take-drop zero xs = refl
take-drop (suc n) [] = refl
take-drop (suc n) (x ∷ xs) = ap (λ zs. x ∷ zs) (take-drop n xs)

length-Spelled : (p : Bytes) → Spelled p → length p ≡ 7
length-Spelled p h = sym (length-map lower_byte p) ∙ ap length h

has_bearer-append : (p t : Bytes) → Spelled p → has_bearer (p ++ t) ≡ true
unfolding has_bearer
has_bearer-append p t h =
    let n = length-Spelled p h in
    let front : take 7 (p ++ t) ≡ p = rw (← n) (take-append p t) in
    ground (
      arith,
      length-append_le p t,
      bytes_eq_iff (map lower_byte (take 7 (p ++ t))) (codes "bearer "),
    )

has_bearer-Spelled : (v : Bytes) → has_bearer v ≡ true → Spelled (take 7 v)
unfolding has_bearer
has_bearer-Spelled v h = ground (arith, bytes_eq_iff (map lower_byte (take 7 v)) (codes "bearer "))

strip_bearer-Means : (v : Bytes) → Means v (strip_bearer v)
unfolding strip_bearer
strip_bearer-Means v = elim (Bool-cases (has_bearer v)) [
  | inl e ↦ inl (take 7 v, rw e (take-drop 7 v), has_bearer-Spelled v e)
  | inr e ↦ inr (
    (λ p u split spelled.
        let has : has_bearer v ≡ true = rw split (has_bearer-append p u spelled) in ground arith),
    rw e,
  )
]

strip_bearer_unique : (v t : Bytes) → Means v t → strip_bearer v ≡ t
unfolding strip_bearer
strip_bearer_unique v t (inl (p, split, spelled)) =
    let n = length-Spelled p spelled in
    rw (split, has_bearer-append p t spelled, ← n) (drop-append p t)
strip_bearer_unique v t (inr (plain, e)) = elim (Bool-cases (has_bearer v)) [
  | inl h ↦ absurd (plain (take 7 v) (drop 7 v) (take-drop 7 v) (has_bearer-Spelled v h))
  | inr h ↦ rw (h, e)
]

module _ {G : Rpc} where
  header_token-found :
      (v : Bytes) (vs : List Bytes) (t : Bytes)
      → v ≢ []
      → strip_bearer v ≡ t
      → t ≢ []
      → header_token G (v ∷ vs) ≡ found t
  unfolding header_token
  header_token-found [] vs t h e k = absurd (h refl)
  header_token-found (b ∷ bs) vs [] h e k = absurd (k refl)
  header_token-found (b ∷ bs) vs (c ∷ cs) h e k = rw e

  header_token-origin :
      (vs : List Bytes) (t : Bytes)
      → header_token G vs ≡ found t
      → (v : Bytes) × (rest : List Bytes) × (vs ≡ v ∷ rest)
        × (v ≢ [])
        × (strip_bearer v ≡ t)
        × (t ≢ [])
  unfolding header_token
  header_token-origin [] t e = cc
  header_token-origin ([] ∷ vs) t e = cc
  header_token-origin ((b ∷ bs) ∷ vs) t e = elim (List-cases (strip_bearer (b ∷ bs))) [
    | inl h ↦ ground arith
    | inr (c, cs, h) ↦
        let same : t ≡ c ∷ cs = ground arith in (b ∷ bs, vs, refl, (λ z. cc), h ∙ sym same, λ z. cc)
  ]

  token_origin :
      (ctx : Context G) (t : Bytes) (o : Option (Rpc.Md G))
      → ctx.incoming ≡ o
      → extract_bearer_token G ctx ≡ found t
      → (md : Rpc.Md G) × (v : Bytes) × (rest : List Bytes) × (ctx.incoming ≡ some md)
        × (Rpc.md_get G md "authorization" ≡ v ∷ rest)
        × (v ≢ [])
        × Means v t
        × (t ≢ [])
  unfolding extract_bearer_token
  token_origin ctx t none e h = ground arith
  token_origin ctx t (some md) e h =
      let (v, rest, first, full, stripped, some_token) =
        header_token-origin (Rpc.md_get G md "authorization") t (ground arith) in
      (md, v, rest, e, first, full, subst (Means v) stripped (strip_bearer-Means v), some_token)

  -- The token is found to be `t` exactly if the first "authorization" value is not empty and stands
  -- for `t`, which is not empty: `t` follows a "bearer " in any case, or is the whole value where no
  -- such scheme begins it.
  pub extract_bearer_token_iff :
      (ctx : Context G) (t : Bytes)
      → (extract_bearer_token G ctx ≡ found t) ↔ (
          (md : Rpc.Md G) × (v : Bytes) × (rest : List Bytes) × (ctx.incoming ≡ some md)
          × (Rpc.md_get G md "authorization" ≡ v ∷ rest)
          × (v ≢ [])
          × Means v t
          × (t ≢ []))
  unfolding extract_bearer_token
  extract_bearer_token_iff ctx t = (
    token_origin ctx t ctx.incoming refl,
    λ (md, v, rest, e, first, full, means, some_token).
        rw (e, first) (header_token-found v rest t full (strip_bearer_unique v t means) some_token),
  )
