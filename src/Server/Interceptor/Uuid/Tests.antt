-- ===== src/Server/Interceptor/Uuid/Tests.antt =====
-- UUIDs made and matched.
use grpc_template.Common.{◌≡◌, refl, ◌↔◌, true, false, [], ◌∷◌, Bytes, codes}
use grpc_template.Server.Interceptor.Uuid.{generate_uuid, match_uuid}
use grpc_template.Server.Interceptor.Uuid.Pattern.{IsUuid, match_uuid_iff}

-- What the random source has given.
abbrev pub random : Bytes
random = 0 ∷ 1 ∷ 254 ∷ 255 ∷ 16 ∷ 17 ∷ 18 ∷ 19 ∷ 250 ∷ 21 ∷ 22 ∷ 23 ∷ 24 ∷ 25 ∷ 26 ∷ 27 ∷ []

generated : generate_uuid random ≡ codes "0001feff-1011-4213-ba15-161718191a1b"
unfolding generate_uuid
generated = refl

match_uuid_iff_example :
    (match_uuid (codes "0001FEFF-1011-4213-ba15-161718191a1b") ≡ true)
    ↔ IsUuid (codes "0001FEFF-1011-4213-ba15-161718191a1b")
match_uuid_iff_example = match_uuid_iff (codes "0001FEFF-1011-4213-ba15-161718191a1b")

too_long : match_uuid (codes "0001feff-1011-4213-ba15-161718191a1b0") ≡ false
unfolding match_uuid
too_long = refl
