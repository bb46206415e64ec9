-- ===== src/Tokens/Api/Tests.antt =====
-- A token that is rotated, for nodejs/models/api_token.js.
use theta_directory.Base.{
  Bool, true, false, [], ◌∷◌, none, some, find, Text, codes, ◌==◌, ◌≡◌, refl,
}
use theta_directory.Tokens.Api.{ApiRow, is_hex, is_expired, raw_token, rotate, authenticate}
use theta_directory.Tokens.Api.Rotate.{IsHex, rotate-authenticate}

abbrev an_id : Text
an_id = codes "0123456789abcdef01234567"

abbrev a_secret : Text
a_secret = codes "0123456789abcdef0123456789abcdef0123456789abcdef"

abbrev old_secret : Text
old_secret = codes "ffff456789abcdef0123456789abcdef0123456789abcdef"

an_id-IsHex : IsHex 24 an_id
unfolding is_hex
an_id-IsHex = (refl, refl)

a_secret-IsHex : IsHex 48 a_secret
unfolding is_hex
a_secret-IsHex = (refl, refl)

abbrev row : ApiRow
row = record {
  id = an_id;
  secret_hash = old_secret;
  created_by = codes "ann";
  is_valid = true;
  expires_at = 0;
  last_used_on = 0;
}

abbrev hashed : Text
hashed = codes "$2b$10$new"

-- A hash that fits one secret.
abbrev fits : Text → Text → Bool
fits secret hash = secret == a_secret

is_found : find (λ r. r.id == an_id) (row ∷ []) ≡ some row
unfolding ◌==◌
is_found = refl

lasts : is_expired 9 row ≡ false
unfolding is_expired
lasts = refl

fits_new : fits a_secret hashed ≡ true
unfolding ◌==◌
fits_new = refl

rotate-authenticate_example :
    ((authenticate fits 9 (rotate an_id hashed (row ∷ [])) (raw_token an_id a_secret)).0
      ≡ some (record row { secret_hash = hashed; last_used_on = 9 }))
    × ((old : Text)
        → IsHex 48 old
        → fits old hashed ≡ false
        → (authenticate fits 9 (rotate an_id hashed (row ∷ [])) (raw_token an_id old)).0 ≡ none)
rotate-authenticate_example =
    rotate-authenticate fits 9 (row ∷ []) an_id a_secret hashed row an_id-IsHex a_secret-IsHex
      is_found refl lasts fits_new
