-- ===== src/Tokens/Api/Rotate.antt =====
-- A token is read as it was shown, and a rotation replaces its secret: nodejs/models/api_token.js.
use theta_directory.Base.{
  ℕ, Bool, true, false, not, ◌||◌, List, [], ◌∷◌, ◌++◌, append-nil, length, every, find, none, some,
  if◌then◌else◌, Text, codes, ◌==◌, is_empty, to_lower, ◌≡◌, refl, sym, ap, ◌∙◌, inl, inr, arith,
  Bool-cases, subst, none≢some, some-injective,
}
use theta_directory.Tokens.Api.{
  ApiRow, is_hex, strip_nocase, split_hex, read_secret, read_token, raw_token, is_expired,
  update_row, rotate, authenticate,
}

-- So many hexadecimal digits.
abbrev pub IsHex : ℕ → Text → Type 0
IsHex n t = (length t ≡ n) × (every is_hex t ≡ true)

split_hex-append :
    (t rest : Text) → every is_hex t ≡ true → split_hex (length t) (t ++ rest) ≡ some (t, rest)
unfolding split_hex
split_hex-append [] rest h = refl
split_hex-append (c ∷ t) rest h =
    rw (split_hex-append t rest (ground (arith, h)), split_hex) (ground (arith, h))

read_secret_self : (secret : Text) → IsHex 48 secret → read_secret secret ≡ some secret
unfolding read_secret is_empty
read_secret_self secret (long, hex) =
    let parts : split_hex 48 secret ≡ some (secret, []) =
      subst (λ n. split_hex n secret ≡ some (secret, [])) long
        (subst (λ t. split_hex (length secret) t ≡ some (secret, [])) (append-nil secret)
          (split_hex-append secret [] hex)) in
    rw (parts, read_secret) refl

-- A token is read back as the id and the secret that it was made of.
pub read_token-raw_token :
    (id secret : Text)
    → IsHex 24 id
    → IsHex 48 secret
    → read_token (raw_token id secret) ≡ some (id, secret)
unfolding raw_token read_token strip_nocase to_lower ◌==◌
read_token-raw_token id secret (long, hex) secret_hex =
    let parts : split_hex 24 (id ++ (codes "_" ++ secret)) ≡ some (id, codes "_" ++ secret) =
      subst (λ n. split_hex n (id ++ (codes "_" ++ secret)) ≡ some (id, codes "_" ++ secret)) long
        (split_hex-append id (codes "_" ++ secret) hex) in
    rw (parts, read_secret_self secret secret_hex, read_token) refl

find_first :
    (p : ApiRow → Bool) (r : ApiRow) (rows : List ApiRow) → p r ≡ true → find p (r ∷ rows) ≡ some r
find_first p r rows hit = rw (hit, find) refl

find-rotate :
    (id hashed : Text) (rows : List ApiRow) (row : ApiRow)
    → find (λ r. r.id == id) rows ≡ some row
    → find (λ r. r.id == id) (rotate id hashed rows) ≡ some (record row { secret_hash = hashed })
unfolding rotate update_row
find-rotate id hashed [] row h = absurd (none≢some h)
find-rotate id hashed (r ∷ rows) row h = elim (Bool-cases (r.id == id)) [
  | inl hit ↦
      let same : r ≡ row = some-injective (rw (hit, find) at h) in
      let hashed_row : ApiRow → ApiRow = λ x. record x { secret_hash = hashed } in
      let changed : (if r.id == id then hashed_row r else r) ≡ hashed_row r =
        subst (λ b. (if b then hashed_row r else r) ≡ hashed_row r) (sym hit) refl in
      find_first (λ x. x.id == id) _ _ (subst (λ x. (x.id == id) ≡ true) (sym changed) hit)
      ∙ ap some changed
      ∙ ap (λ x. some (hashed_row x)) same
  | inr miss ↦ rw miss (rw (miss, find) (find-rotate id hashed rows row (rw (miss, find) at h)))
]

module _ (compare : Text → Text → Bool) (now : ℕ) (rows : List ApiRow) where
  -- Behind the reading of the token.
  authenticate-read :
      (id secret : Text) (row : ApiRow)
      → IsHex 24 id
      → IsHex 48 secret
      → find (λ r. r.id == id) rows ≡ some row
      → (authenticate compare now rows (raw_token id secret)).0 ≡ (
          if not (compare secret row.secret_hash) || not row.is_valid || is_expired now row
          then none
          else some (record row { last_used_on = now }))
  unfolding authenticate
  authenticate-read id secret row id_hex secret_hex found =
      elim (Bool-cases
        (not (compare secret row.secret_hash) || not row.is_valid || is_expired now row)) [
          | inl bad ↦
              rw (read_token-raw_token id secret id_hex secret_hex, found, bad, authenticate) refl
          | inr good ↦
              rw (read_token-raw_token id secret id_hex secret_hex, found, good, authenticate) refl
        ]

module _ (compare : Text → Text → Bool) (now : ℕ) (rows : List ApiRow) where
  -- After a rotation the new secret lets its owner in, if the token is valid and not expired, and a
  -- secret that does not fit the new hash lets nobody in.
  pub rotate-authenticate :
      (id secret hashed : Text) (row : ApiRow)
      → IsHex 24 id
      → IsHex 48 secret
      → find (λ r. r.id == id) rows ≡ some row
      → row.is_valid ≡ true
      → is_expired now row ≡ false
      → compare secret hashed ≡ true
      → ((authenticate compare now (rotate id hashed rows) (raw_token id secret)).0
          ≡ some (record row { secret_hash = hashed; last_used_on = now }))
        × ((old : Text)
            → IsHex 48 old
            → compare old hashed ≡ false
            → (authenticate compare now (rotate id hashed rows) (raw_token id old)).0 ≡ none)
  unfolding is_expired
  rotate-authenticate id secret hashed row id_hex secret_hex found valid lasts fits =
      let read = authenticate-read compare now (rotate id hashed rows) id in
      let new : ApiRow = record row { secret_hash = hashed } in
      let after = find-rotate id hashed rows row found in
      (
        read secret new id_hex secret_hex after ∙ rw (fits, valid, lasts) refl,
        λ old old_hex misfit. read old new id_hex old_hex after ∙ rw misfit refl,
      )
