-- ===== src/Server/Interceptor/Uuid/Pattern.antt =====
-- uuidPattern (requestid.go) and an independent description of its texts.
use grpc_template.Common.{
  ℕ, zero, suc, ◌≡◌, refl, ap, sym, ◌∙◌, ◌↔◌, true, false, Option, none, some, [], ◌∷◌, ◌++◌, Bytes,
  All, length, arith, is_empty, Bool-cases, Option-cases, inl, inr,
}
use mathlib.Core.List.{append-nil}
use grpc_template.Server.Interceptor.Uuid.{
  is_hex, skip_hex, skip_dash, ◌>>=◌, skip_uuid, match_uuid,
}

-- `n` hexadecimal digits.
abbrev pub IsHexRun : ℕ → Bytes → Type 0
IsHexRun n a = (length a ≡ n) × All (λ c. is_hex c ≡ true) a

-- Five runs of 8, 4, 4, 4 and 12 digits, joined by dashes.
pub record IsUuid (s : Bytes) : Type 0 where
  pub a : Bytes
  pub b : Bytes
  pub c : Bytes
  pub d : Bytes
  pub e : Bytes
  pub run_a : IsHexRun 8 a
  pub run_b : IsHexRun 4 b
  pub run_c : IsHexRun 4 c
  pub run_d : IsHexRun 4 d
  pub run_e : IsHexRun 12 e
  pub joined : s ≡ a ++ (b'-' ∷ (b ++ (b'-' ∷ (c ++ (b'-' ∷ (d ++ (b'-' ∷ e)))))))

skip_hex_sound :
    (n : ℕ) (s : Bytes) {t : Bytes}
    → skip_hex n s ≡ some t
    → (a : Bytes) × IsHexRun n a × (s ≡ a ++ t)
unfolding skip_hex
skip_hex_sound zero s h = ([], (refl, tt), cc)
skip_hex_sound (suc n) [] h = cc
skip_hex_sound (suc n) (c ∷ s) {t} h = elim (Bool-cases (is_hex c)) [
  | inl digit ↦
      let (a, run, e) = skip_hex_sound n s {t = t} (rw digit at h) in
      (c ∷ a, (ap suc run.0, (digit, run.1)), ap (λ r. c ∷ r) e)
  | inr other ↦ absurd (let no_match : none ≡ some t = rw other at h in cc)
]

skip_dash_sound : (s : Bytes) {t : Bytes} → skip_dash s ≡ some t → s ≡ b'-' ∷ t
unfolding skip_dash
skip_dash_sound [] h = cc
skip_dash_sound (c ∷ s) h = ground arith

pub skip_hex_complete :
    (a t : Bytes) → All (λ c. is_hex c ≡ true) a → skip_hex (length a) (a ++ t) ≡ some t
unfolding skip_hex
skip_hex_complete [] t h = refl
skip_hex_complete (c ∷ a) t (digit, h) = rw digit (skip_hex_complete a t h)

bind-some :
    {A B : Type 0} (m : Option A) (k : A → Option B) {b : B}
    → (m >>= k) ≡ some b
    → (a : A) × (m ≡ some a) × (k a ≡ some b)
bind-some none k h = cc
bind-some (some a) k h = (a, refl, h)

join_parts :
    (a b c d e : Bytes) {s t s1 s2 s3 s4 s5 s6 s7 s8 : Bytes}
    → s ≡ a ++ s1
    → s1 ≡ b'-' ∷ s2
    → s2 ≡ b ++ s3
    → s3 ≡ b'-' ∷ s4
    → s4 ≡ c ++ s5
    → s5 ≡ b'-' ∷ s6
    → s6 ≡ d ++ s7
    → s7 ≡ b'-' ∷ s8
    → s8 ≡ e ++ t
    → t ≡ []
    → s ≡ a ++ (b'-' ∷ (b ++ (b'-' ∷ (c ++ (b'-' ∷ (d ++ (b'-' ∷ e)))))))
join_parts a b c d e e0 e1 e2 e3 e4 e5 e6 e7 e8 e9 = cc (append-nil e)

skip_uuid_sound : (s : Bytes) {t : Bytes} → skip_uuid s ≡ some t → t ≡ [] → IsUuid s
unfolding skip_uuid
skip_uuid_sound s h empty =
    let (s1, h1, k1) = bind-some (skip_hex 8 s) _ h in
    let (s2, h2, k2) = bind-some (skip_dash s1) _ k1 in
    let (s3, h3, k3) = bind-some (skip_hex 4 s2) _ k2 in
    let (s4, h4, k4) = bind-some (skip_dash s3) _ k3 in
    let (s5, h5, k5) = bind-some (skip_hex 4 s4) _ k4 in
    let (s6, h6, k6) = bind-some (skip_dash s5) _ k5 in
    let (s7, h7, k7) = bind-some (skip_hex 4 s6) _ k6 in
    let (s8, h8, k8) = bind-some (skip_dash s7) _ k7 in
    let (a, ra, ea) = skip_hex_sound 8 s {t = s1} h1 in
    let (b, rb, eb) = skip_hex_sound 4 s2 {t = s3} h3 in
    let (c, rc, ec) = skip_hex_sound 4 s4 {t = s5} h5 in
    let (d, rd, ed) = skip_hex_sound 4 s6 {t = s7} h7 in
    let (e, re, ee) = skip_hex_sound 12 s8 k8 in
    record {
      a = a;
      b = b;
      c = c;
      d = d;
      e = e;
      run_a = ra;
      run_b = rb;
      run_c = rc;
      run_d = rd;
      run_e = re;
      joined =
          join_parts a b c d e ea (skip_dash_sound s1 h2) eb (skip_dash_sound s3 h4) ec
            (skip_dash_sound s5 h6) ed (skip_dash_sound s7 h8) ee empty;
    }

pub skip_hex_run : (n : ℕ) (a t : Bytes) → IsHexRun n a → skip_hex n (a ++ t) ≡ some t
skip_hex_run n a t run = rw (← run.0) (skip_hex_complete a t run.1)

skip_hex_end : (n : ℕ) (a : Bytes) → IsHexRun n a → skip_hex n a ≡ some []
skip_hex_end n a run = ap (skip_hex n) (sym (append-nil a)) ∙ skip_hex_run n a [] run

skip_uuid_complete : {s : Bytes} → IsUuid s → skip_uuid s ≡ some []
unfolding skip_uuid skip_dash
skip_uuid_complete {s} u =
    rw (u.joined, skip_uuid, skip_hex_run 8 u.a _ u.run_a, skip_hex_run 4 u.b _ u.run_b)
      (rw (skip_hex_run 4 u.c _ u.run_c, skip_hex_run 4 u.d _ u.run_d)
        (skip_hex_end 12 u.e u.run_e))

match_uuid_of_skip : (s t : Bytes) → skip_uuid s ≡ some t → match_uuid s ≡ is_empty t
unfolding match_uuid
match_uuid_of_skip s t h = rw (match_uuid, h)

match_uuid-none : (s : Bytes) → skip_uuid s ≡ none → match_uuid s ≡ false
unfolding match_uuid
match_uuid-none s h = rw (match_uuid, h)

empty_of_is_empty : (t : Bytes) → is_empty t ≡ true → t ≡ []
empty_of_is_empty [] h = refl
empty_of_is_empty (c ∷ t) h = cc

-- The request-ID check accepts exactly the texts that are five runs of 8, 4, 4, 4 and 12
-- hexadecimal digits joined by dashes, with nothing before or behind them.
pub match_uuid_iff : (s : Bytes) → (match_uuid s ≡ true) ↔ IsUuid s
match_uuid_iff s = (sound, λ u. match_uuid_of_skip s [] (skip_uuid_complete u))
  where
    sound : match_uuid s ≡ true → IsUuid s
    sound h = elim (Option-cases (skip_uuid s)) [
      | inl e ↦ absurd (let no_match : true ≡ false = sym h ∙ match_uuid-none s e in cc)
      | inr (t, e) ↦
          skip_uuid_sound s {t = t} e (empty_of_is_empty t (sym (match_uuid_of_skip s t e) ∙ h))
    ]
