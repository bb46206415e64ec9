-- ===== src/Tokens/Api.antt =====
-- nodejs/models/api_token.js: the tokens that a user makes for a program.
pub mod Rotate
mod Tests
use theta_directory.Base.{
  ℕ, zero, suc, Bool, true, false, not, ◌&&◌, ◌||◌, List, [], ◌∷◌, ◌++◌, map, find, Option, none,
  some, ltb, leb, eqb, if◌then◌else◌, Text, codes, ◌==◌, is_empty, is_digit, to_lower,
}

-- A row; no expiry is 0.
pub record ApiRow : Type 0 where
  pub id : Text
  pub secret_hash : Text
  pub created_by : Text
  pub is_valid : Bool
  pub expires_at : ℕ
  pub last_used_on : ℕ

-- `[0-9a-f]` of an expression that ignores case.
unfoldable pub is_hex : ℕ → Bool
is_hex c = is_digit c || (leb b'a' c && leb c b'f') || (leb b'A' c && leb c b'F')

-- The rest behind a prefix in small letters, in any case.
unfoldable pub strip_nocase : Text → Text → Option Text
strip_nocase [] t = some t
strip_nocase (p ∷ ps) [] = none
strip_nocase (p ∷ ps) (c ∷ t) =
    let rest = strip_nocase ps t in if to_lower (c ∷ []) == p ∷ [] then rest else none

-- `[0-9a-f]{n}`, and what is behind.
unfoldable pub split_hex : ℕ → Text → Option (Text × Text)
split_hex zero t = some ([], t)
split_hex (suc n) [] = none
split_hex (suc n) (c ∷ t) =
    let rest = split_hex n t in
    elim rest [ none ↦ none | some s ↦ if is_hex c then some (c ∷ s.0, s.1) else none ]

-- The secret of 48 digits, with nothing behind.
unfoldable pub read_secret : Text → Option Text
read_secret t = elim (split_hex 48 t) [
  | none ↦ none
  | some s ↦ if is_empty s.1 then some s.0 else none
]

-- `/^sso_([0-9a-f]{24})_([0-9a-f]{48})$/i`
unfoldable pub read_token : Text → Option (Text × Text)
read_token raw = elim (strip_nocase (codes "sso_") raw) [
  | none ↦ none
  | some t ↦ elim (split_hex 24 t) [
    | none ↦ none
    | some s ↦ elim (strip_nocase (codes "_") s.1) [
      | none ↦ none
      | some u ↦ elim (read_secret u) [ none ↦ none | some secret ↦ some (s.0, secret) ]
    ]
  ]
]

-- The text that is shown once.
unfoldable pub raw_token : Text → Text → Text
raw_token id secret = codes "sso_" ++ (id ++ (codes "_" ++ secret))

unfoldable pub is_expired : ℕ → ApiRow → Bool
is_expired now t = ltb 0 t.expires_at && ltb t.expires_at now

-- `token.update` of the row with an id.
unfoldable pub update_row : Text → (ApiRow → ApiRow) → List ApiRow → List ApiRow
update_row id change rows = map (λ r. if r.id == id then change r else r) rows

-- `hashed` is the bcrypt hash of the new secret.
unfoldable pub rotate : Text → Text → List ApiRow → List ApiRow
rotate id hashed rows = update_row id (λ r. record r { secret_hash = hashed }) rows

-- `compare` is that of bcrypt. Each failure is the same error.
module _ (compare : Text → Text → Bool) where
  unfoldable pub authenticate : ℕ → List ApiRow → Text → Option ApiRow × List ApiRow
  authenticate now rows raw = elim (read_token raw) [
    | none ↦ (none, rows)
    | some m ↦ elim (find (λ r. r.id == m.0) rows) [
      | none ↦ (none, rows)
      | some t ↦
          if not (compare m.1 t.secret_hash) || not t.is_valid || is_expired now t
          then (none, rows)
          else (
            some (record t { last_used_on = now }),
            update_row t.id (λ r. record r { last_used_on = now }) rows,
          )
    ]
  ]
