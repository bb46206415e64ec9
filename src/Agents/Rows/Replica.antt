-- ===== src/Agents/Rows/Replica.antt =====
-- The limit on a join key's uses does not reach the copies at the other sites, which
-- nodejs/routes/api_site.js makes.
use theta_directory.Base.{
  ℕ, Bool, true, false, ◌||◌, ◌∷◌, [], none, some, Text, eq_iff, is_empty, find, ◌≡◌, refl, ap, ◌∙◌,
  arith, if◌then◌else◌, Option,
}
use theta_directory.Agents.Rows.{JoinKey, is_expired, is_used_up, authenticate_key, adopted_key}

choose : (b c : Bool) (x y : Option JoinKey) → b ≡ c → (if b then x else y) ≡ (if c then x else y)
choose b c x y same = ap (λ d. if d then x else y) same

authenticate_key-one :
    (hash : Text → Text) (now : ℕ) (k : JoinKey) (raw : Text)
    → is_empty raw ≡ false
    → k.key_hash ≡ hash raw
    → authenticate_key hash now (k ∷ []) raw
      ≡ (if k.revoked || is_expired now k || is_used_up k then none else some k)
unfolding authenticate_key
authenticate_key-one hash now k raw full same =
    rw (full, (eq_iff k.key_hash (hash raw)).1 same, find, authenticate_key) refl

adopted_key-is_expired : (now : ℕ) (k : JoinKey) → is_expired now (adopted_key k) ≡ is_expired now k
unfolding adopted_key is_expired
adopted_key-is_expired now k = refl

-- A key that is used up at its own site, and neither revoked nor expired, still lets an agent join at
-- a site that took it over.
pub adopted_key-unlimited :
    (hash : Text → Text) (now : ℕ) (k : JoinKey) (raw : Text)
    → is_empty raw ≡ false
    → k.key_hash ≡ hash raw
    → k.revoked ≡ false
    → is_expired now k ≡ false
    → is_used_up k ≡ true
    → (authenticate_key hash now (k ∷ []) raw ≡ none)
      × (authenticate_key hash now (adopted_key k ∷ []) raw ≡ some (adopted_key k))
unfolding adopted_key is_used_up
adopted_key-unlimited hash now k raw full same valid current used =
    let copy = adopted_key k in
    (
      authenticate_key-one hash now k raw full same
          ∙ choose (k.revoked || is_expired now k || is_used_up k) true none (some k)
              (ground (arith, used)),
      authenticate_key-one hash now copy raw full same
          ∙ choose (k.revoked || is_expired now copy || is_used_up copy) false none (some copy)
              (ground (arith, valid, adopted_key-is_expired now k, current)),
    )
