-- ===== src/Ldap/Delta/Sync.antt =====
-- When nodejs/utils/ldap_runtime_config.js has nothing to do, and that it gets there.
use theta_directory.Base.{
  ℕ, Bool, true, false, not, ◌||◌, List, [], ◌∷◌, ◌++◌, any, none, some, eqb, eqb_iff,
  if◌then◌else◌, if_cases, Text, decimal, eq_iff, eq_refl, is_empty, ◌≡◌, ◌≢◌, ◌↔◌, refl, sym, ◌∙◌,
  inl, inr, arith, Bool-cases, Option-cases, none≢some,
}
use theta_directory.Ldap.{Peer, Desired}
use theta_directory.Ldap.Delta.{
  Providers, Live, provider_of, put_provider, rid_for, want_from, wanted, is_provider, is_listed,
  syncrepl_changed, Modification, has_id, has_peer, server_id_mods, syncrepl_mods, mirror_mods,
  database_mods, plan,
}

-- A map holds a rid once.
abbrev pub IsMap : Providers → Type 0
IsMap [] = Unit
IsMap ((r, p) ∷ m) = (provider_of m r ≡ none) × IsMap m

provider_of-put_provider :
    (m : Providers) (rid r : ℕ) (p : Text)
    → provider_of (put_provider m rid p) r ≡ (if eqb rid r then some p else provider_of m r)
unfolding provider_of put_provider
provider_of-put_provider [] rid r p = refl
provider_of-put_provider ((s, q) ∷ m) rid r p =
    ground (arith, eqb_iff s rid, eqb_iff s r, eqb_iff rid r, provider_of-put_provider m rid r p)

put_provider-IsMap : (m : Providers) (rid : ℕ) (p : Text) → IsMap m → IsMap (put_provider m rid p)
unfolding provider_of put_provider
put_provider-IsMap [] rid p h = (refl, tt)
put_provider-IsMap ((s, q) ∷ m) rid p (fresh, h) = elim (Bool-cases (eqb s rid)) [
  | inl same ↦ rw same (fresh, h)
  | inr other ↦ rw other (
    ground (arith, fresh, other, provider_of-put_provider m rid s p, eqb_iff s rid, eqb_iff rid s),
    put_provider-IsMap m rid p h,
  )
]

pub want_from-IsMap : (peers : List Peer) (m : Providers) → IsMap m → IsMap (want_from m peers)
unfolding want_from
want_from-IsMap [] m h = h
want_from-IsMap (p ∷ ps) m h = want_from-IsMap ps _ (
    if_cases IsMap (eqb p.server_id 0 || is_empty p.ldap_host) _ _ h
      (put_provider-IsMap m (rid_for p.server_id) p.ldap_host h))

-- Both lists name the same provider for every rid.
abbrev pub IsSame : Providers → Providers → Type 0
IsSame m n = (rid : ℕ) → provider_of m rid ≡ provider_of n rid

module _ (m : Providers) where
  -- Every entry of `want` is in `m`.
  missing_none :
      (want : Providers)
      → any (λ w. not (is_provider (provider_of m w.0) w.1)) want ≡ false
      → (rid : ℕ) (p : Text) → provider_of want rid ≡ some p
      → provider_of m rid ≡ some p
  unfolding provider_of is_provider
  missing_none [] h rid p found = absurd (none≢some found)
  missing_none ((s, q) ∷ want) h rid p found = elim (Option-cases (provider_of m s)) [
    | inl lacks ↦ absurd (ground (arith, h, lacks))
    | inr (q', has) ↦ ground (
      arith,
      h,
      has,
      found,
      eq_iff q' q,
      eqb_iff s rid,
      missing_none want (ground (arith, h)) rid p,
    )
  ]

  none-missing :
      (want : Providers)
      → IsMap want
      → ((rid : ℕ) (p : Text) → provider_of want rid ≡ some p → provider_of m rid ≡ some p)
      → any (λ w. not (is_provider (provider_of m w.0) w.1)) want ≡ false
  unfolding provider_of is_provider
  none-missing [] h each = refl
  none-missing ((s, q) ∷ want) (fresh, h) each =
      let here : provider_of m s ≡ some q = each s q (ground arith) in
      rw (here, is_provider, eq_refl q)
        (none-missing want h
          (λ rid p found. each rid p (ground (arith, found, fresh, eqb_iff s rid))))

  -- Every rid of `current` is in `m`.
  extra_none :
      (current : Providers)
      → any (λ h. not (is_listed (provider_of m h.0))) current ≡ false
      → (rid : ℕ) → provider_of m rid ≡ none
      → provider_of current rid ≡ none
  unfolding provider_of is_listed
  extra_none [] h rid lacks = refl
  extra_none ((s, q) ∷ current) h rid lacks = elim (Bool-cases (eqb s rid)) [
    | inl same ↦ absurd (ground (arith, h, lacks, (eqb_iff s rid).0 same))
    | inr other ↦ rw other (extra_none current (ground (arith, h)) rid lacks)
  ]

  none-extra :
      (current : Providers)
      → ((rid : ℕ) → provider_of m rid ≡ none → provider_of current rid ≡ none)
      → any (λ h. not (is_listed (provider_of m h.0))) current ≡ false
  unfolding provider_of is_listed
  none-extra [] each = refl
  none-extra ((s, q) ∷ current) each = elim (Option-cases (provider_of m s)) [
    | inl lacks ↦ absurd (ground (arith, each s lacks))
    | inr (p, has) ↦
        rw (has, is_listed) (none-extra current (λ rid lacks. (ground (arith, each rid lacks))))
  ]

-- The syncrepl values differ exactly if some provider does.
pub unchanged_iff :
    (current want : Providers)
    → IsMap want
    → (syncrepl_changed current want ≡ false) ↔ IsSame current want
unfolding syncrepl_changed
unchanged_iff current want h = (
  λ same rid. elim (Option-cases (provider_of want rid)) [
    | inl lacks ↦ extra_none want current (ground (arith, same)) rid lacks ∙ sym lacks
    | inr (p, found) ↦ missing_none current want (ground (arith, same)) rid p found ∙ sym found
  ],
  λ same.
      rw
        (
          none-missing current want h (λ rid p found. same rid ∙ found),
          none-extra want current (λ rid lacks. same rid ∙ lacks),
        )
        refl,
)

-- What the running server has to be for nothing to be done.
abbrev pub IsInSync : Live → Desired → Type 0
IsInSync live desired =
    (desired.server_id ≢ 0 → live.server_ids ≡ decimal desired.server_id ∷ [])
    × IsSame live.providers (wanted desired.peers)
    × (live.mirror_mode ≡ has_peer (wanted desired.peers))

has_id_iff : (ids : List Text) (id : Text) → (has_id ids id ≡ true) ↔ (ids ≡ id ∷ [])
unfolding has_id
has_id_iff [] id = ground arith
has_id_iff (s ∷ []) id = ground (arith, eq_iff s id)
has_id_iff (s ∷ t ∷ ts) id = ground arith

pub server_id_mods_iff :
    (ids : List Text) (id : ℕ) → (server_id_mods ids id ≡ []) ↔ (id ≢ 0 → ids ≡ decimal id ∷ [])
unfolding server_id_mods
server_id_mods_iff ids id = ground (arith, eqb_iff id 0, has_id_iff ids (decimal id))

pub mirror_mods_iff : (current want : Bool) → (mirror_mods current want ≡ []) ↔ (current ≡ want)
unfolding mirror_mods
mirror_mods_iff true true = ground arith
mirror_mods_iff true false = ground arith
mirror_mods_iff false true = ground arith
mirror_mods_iff false false = ground arith

syncrepl_mods_iff :
    (current want : Providers)
    → (syncrepl_mods current want ≡ []) ↔ (syncrepl_changed current want ≡ false)
unfolding syncrepl_mods
syncrepl_mods_iff current want = ground arith

append_nil_iff : (xs ys : List Modification) → (xs ++ ys ≡ []) ↔ ((xs ≡ []) × (ys ≡ []))
append_nil_iff [] ys = ground arith
append_nil_iff (x ∷ xs) ys = ground arith

database_mods_iff :
    (live : Live) (want : Providers)
    → (database_mods live want ≡ []) ↔ (
        (syncrepl_mods live.providers want ≡ [])
        × (mirror_mods live.mirror_mode (has_peer want) ≡ []))
unfolding database_mods
database_mods_iff live want =
    let p = syncrepl_mods live.providers want in
    let m = mirror_mods live.mirror_mode (has_peer want) in
    ground (arith, append_nil_iff p m, append_nil_iff m p)

-- Nothing is written exactly if the running server has the id, where the cluster gave one, the same
-- provider for every rid, and the mirror mode on just where there is a peer.
pub plan_nil_iff :
    (live : Live) (desired : Desired) → (plan live desired ≡ []) ↔ IsInSync live desired
unfolding plan
plan_nil_iff live desired =
    let want = wanted desired.peers in
    ground (
      arith,
      append_nil_iff (server_id_mods live.server_ids desired.server_id) (database_mods live want),
      server_id_mods_iff live.server_ids desired.server_id,
      database_mods_iff live want,
      syncrepl_mods_iff live.providers want,
      mirror_mods_iff live.mirror_mode (has_peer want),
      unchanged_iff live.providers want (want_from-IsMap desired.peers [] tt),
    )
