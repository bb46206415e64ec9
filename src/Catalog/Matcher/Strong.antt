-- ===== src/Catalog/Matcher/Strong.antt =====
-- What a match rests on in nodejs/services/resource_matcher.js.
use theta_directory.Base.{
  find-In, Bool, true, false, not, ◌&&◌, ◌||◌, List, [], ◌∷◌, Option, none, some, ◌≡◌, ◌⊎◌, inl,
  inr, arith, Text, ◌==◌, eq_sound, is_empty, In, Bool-cases, none≢some, ltb, length, nil_of_length,
}
use theta_directory.Catalog.{Resource}
use theta_directory.Catalog.Matcher.{
  macs_of, ips_of, has_strong_identity, shares_mac, match_by_mac, Scope, in_scope, shares_ip,
  is_ip_candidate, match_by_ip, shares_name, is_name_candidate, match_by_name_or_slug,
  match_by_guess, or_else, find_existing_match,
}

-- What a tier may answer: a resource of the pool which the tier's own test accepts.
abbrev pub Tier : Resource → List Resource → Scope → Resource → Type 0
Tier incoming pool scope r =
    (r.id ≡ incoming.id)
    ⊎ (shares_mac (macs_of incoming.metadata) r ≡ true)
    ⊎ ((has_strong_identity r ≡ false)
        × (in_scope scope r ≡ true)
        × ((shares_ip (ips_of incoming.metadata) r ≡ true)
            ⊎ ((macs_of incoming.metadata ≡ [])
                × (ips_of incoming.metadata ≡ [])
                × (shares_name incoming.name incoming.slug r ≡ true))))

match_by_mac-In :
    (macs : List Text) (pool : List Resource) (r : Resource)
    → match_by_mac macs pool ≡ some r
    → In r pool × (shares_mac macs r ≡ true)
unfolding match_by_mac
match_by_mac-In [] pool r h = ground arith
match_by_mac-In (mac ∷ macs) pool r h = find-In (shares_mac (mac ∷ macs)) pool r h

and₃ : (a b c : Bool) → (not a && b && c) ≡ true → (a ≡ false) × (b ≡ true) × (c ≡ true)
and₃ a b c h = ground arith

match_by_ip-In :
    (ips : List Text) (pool : List Resource) (scope : Scope) (r : Resource)
    → match_by_ip ips pool scope ≡ some r
    → In r pool
      × (has_strong_identity r ≡ false)
      × (in_scope scope r ≡ true)
      × (shares_ip ips r ≡ true)
unfolding match_by_ip is_ip_candidate
match_by_ip-In [] pool scope r h = ground arith
match_by_ip-In (ip ∷ ips) pool scope r h =
    let (m, y) = find-In (is_ip_candidate scope (ip ∷ ips)) pool r h in
    let (a, b, c) = and₃ (has_strong_identity r) (in_scope scope r) (shares_ip (ip ∷ ips) r) y in
    (m, a, b, c)

match_by_name-In :
    (name slug : Text) (pool : List Resource) (scope : Scope) (r : Resource)
    → match_by_name_or_slug name slug pool scope ≡ some r
    → In r pool
      × (has_strong_identity r ≡ false)
      × (in_scope scope r ≡ true)
      × (shares_name name slug r ≡ true)
unfolding match_by_name_or_slug is_name_candidate
match_by_name-In name slug pool scope r h = elim (Bool-cases (is_empty name && is_empty slug)) [
  | inl empty ↦ absurd (none≢some (rw empty at h))
  | inr given ↦
      let (m, y) = find-In (is_name_candidate scope name slug) pool r (rw given at h) in
      let (a, b, c) = and₃ (has_strong_identity r) (in_scope scope r) (shares_name name slug r) y in
      (m, a, b, c)
]

or_else-cases :
    (a b : Option Resource) (r : Resource) → or_else a b ≡ some r → (a ≡ some r) ⊎ (b ≡ some r)
unfolding or_else
or_else-cases none b r h = inr h
or_else-cases (some a) b r h = inl h

match_by_guess-In :
    (incoming : Resource) (pool : List Resource) (scope : Scope) (r : Resource)
    → match_by_guess incoming pool scope ≡ some r
    → In r pool × Tier incoming pool scope r
unfolding match_by_guess
match_by_guess-In incoming pool scope r h =
    let macs = macs_of incoming.metadata in
    let ips = ips_of incoming.metadata in
    elim (Bool-cases (ltb 0 (length macs) || ltb 0 (length ips))) [
      | inl found ↦ absurd (none≢some (rw found at h))
      | inr neither ↦
          let (m, weak, site, name) =
            match_by_name-In incoming.name incoming.slug pool scope r (rw neither at h) in
          let no_mac : macs ≡ [] = nil_of_length macs (ground arith) in
          let no_ip : ips ≡ [] = nil_of_length ips (ground arith) in
          (m, inr (inr (weak, site, inr (no_mac, no_ip, name))))
    ]

-- A match is a resource of the pool that has the incoming id, or shares a MAC address with the
-- incoming description, or has no MAC address of its own, is not outside the given site, and
-- shares an IP address; a name decides only where the description has neither a MAC nor an IP.
pub find_existing_match-Tier :
    (incoming : Resource) (pool : List Resource) (scope : Scope) (r : Resource)
    → find_existing_match incoming pool scope ≡ some r
    → In r pool × Tier incoming pool scope r
unfolding find_existing_match
find_existing_match-Tier incoming pool scope r h = elim (or_else-cases _ _ r h) [
  | inl by_id ↦ elim (Bool-cases (is_empty incoming.id)) [
    | inl empty ↦ absurd (none≢some (rw empty at by_id))
    | inr given ↦
        let (m, same) = find-In (λ q. q.id == incoming.id) pool r (rw given at by_id) in
        (m, inl (eq_sound r.id incoming.id same))
  ]
  | inr later ↦ elim (or_else-cases _ _ r later) [
    | inl by_mac ↦
        let (m, shared) = match_by_mac-In (macs_of incoming.metadata) pool r by_mac in
        (m, inr (inl shared))
    | inr weaker ↦ elim (or_else-cases _ _ r weaker) [
      | inl by_ip ↦
          let (m, weak, site, shared) =
            match_by_ip-In (ips_of incoming.metadata) pool scope r by_ip in
          (m, inr (inr (weak, site, inl shared)))
      | inr guess ↦ match_by_guess-In incoming pool scope r guess
    ]
  ]
]
