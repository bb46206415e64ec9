-- ===== src/Tokens.antt =====
-- nodejs/models/token.js: the codes that a user proves an address with.
pub mod Single
pub mod Api
mod Tests
use theta_directory.Base.{
  ℕ, ◌+◌, Bool, true, false, not, ◌&&◌, List, [], ◌∷◌, ◌++◌, map, find, Option, none, some, ltb,
  if◌then◌else◌, Text, ◌==◌,
}

-- A row of `OtpToken`.
pub record Otp : Type 0 where
  pub token : Text
  pub uid : Text
  pub code : Text
  pub method : Text
  pub is_valid : Bool
  pub expires_at : ℕ

-- The loop of `issue` over the user's rows.
unfoldable pub retire : Text → List Otp → List Otp
retire uid rows =
    map (λ t. if t.uid == uid && t.is_valid then record t { is_valid = false } else t) rows

-- `token` and `code` are the random values.
unfoldable pub issue : ℕ → Text → Text → Text → Text → List Otp → List Otp
issue now token code uid method rows =
    retire uid rows
    ++ record {
      token = token;
      uid = uid;
      code = code;
      method = method;
      is_valid = true;
      expires_at = now + 600000;
    }
      ∷ []

unfoldable pub is_expired : ℕ → Otp → Bool
is_expired now t = ltb t.expires_at now

unfoldable pub is_match : ℕ → Text → Text → Otp → Bool
is_match now uid code t = t.uid == uid && t.is_valid && not (is_expired now t) && t.code == code

-- `match.update({ is_valid: false })`
unfoldable pub spend : Text → List Otp → List Otp
spend token rows = map (λ t. if t.token == token then record t { is_valid = false } else t) rows

unfoldable pub verify : ℕ → Text → Text → List Otp → Option Otp × List Otp
verify now uid code rows = elim (find (is_match now uid code) rows) [
  | none ↦ (none, rows)
  | some t ↦ (some t, spend t.token rows)
]
