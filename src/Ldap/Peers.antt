-- ===== src/Ldap/Peers.antt =====
-- What nodejs/utils/ldap_reconcile.js makes of a site's settings and of the registered spokes.
use theta_directory.Base.{
  ℕ, true, false, ◌&&◌, ◌||◌, List, [], ◌∷◌, ◌++◌, Option, none, some, is_some, eqb, eqb_iff,
  if◌then◌else◌, Text, codes, decimal, is_empty, or_text, In, ◌≡◌, ◌≢◌, ◌↔◌, refl, sym, ap, ◌∙◌,
  inl, inr, arith, Bool-cases, Option-cases, none≢some, some-injective,
}
use theta_directory.Promotion.{Spoke}
use theta_directory.Ldap.{
  Peer, Desired, Site, ldap_mesh_host, ldap_host_for_spoke, peers_of, desired_config, strip_slashes,
  may_persist, same_id, persist,
}

abbrev pub mesh_url : ℕ → Text
mesh_url id = codes "ldap://10." ++ (decimal id ++ codes ".0.1:389")

-- The peer that a spoke is.
abbrev pub peer_of : Spoke → Peer
peer_of s = record { server_id = s.server_id; ldap_host = mesh_url s.server_id }

module _ (hostname_of : Text → Option Text) where
  peers_of-cons :
      (s : Spoke) (ss : List Spoke)
      → peers_of hostname_of (s ∷ ss) ≡ (
          if eqb s.server_id 0
          then peers_of hostname_of ss
          else peer_of s ∷ peers_of hostname_of ss)
  unfolding peers_of ldap_host_for_spoke ldap_mesh_host is_empty
  peers_of-cons s ss = elim (Bool-cases (eqb s.server_id 0)) [
    | inl lacks ↦ rw lacks refl
    | inr has ↦ rw has refl
  ]

  -- The peers are the registered spokes that have an id, each at its address in the mesh and never
  -- at its public one.
  pub peers_of_iff :
      (spokes : List Spoke) (p : Peer)
      → In p (peers_of hostname_of spokes)
        ↔ ((s : Spoke) × In s spokes × (s.server_id ≢ 0) × (p ≡ peer_of s))
  unfolding peers_of
  peers_of_iff [] p = (λ h. absurd h, λ h. absurd h.1)
  peers_of_iff (s ∷ ss) p = elim (Bool-cases (eqb s.server_id 0)) [
    | inl lacks ↦
        rw (peers_of-cons s ss, lacks)
          (
            λ h. let r = (peers_of_iff ss p).0 h in (r.0, inr r.1, r.2, r.3),
            λ h. elim h.1 [
              | inl here ↦
                  absurd (h.2 (ap (λ x. x.server_id) here ∙ (eqb_iff s.server_id 0).0 lacks))
              | inr deep ↦ (peers_of_iff ss p).1 (h.0, deep, h.2, h.3)
            ],
          )
    | inr has ↦
        rw (peers_of-cons s ss, has)
          (
            λ h. elim h [
              | inl here ↦ (s, inl refl, λ zero_id. absurd (ground (arith, has, zero_id)), here)
              | inr deep ↦ let r = (peers_of_iff ss p).0 deep in (r.0, inr r.1, r.2, r.3)
            ],
            λ h. elim h.1 [
              | inl here ↦ inl (h.3 ∙ ap peer_of here)
              | inr deep ↦ inr ((peers_of_iff ss p).1 (h.0, deep, h.2, h.3))
            ],
          )
  ]

same_id_iff : (o : Option ℕ) (id : ℕ) → (same_id o id ≡ true) ↔ (o ≡ some id)
unfolding same_id
same_id_iff none id = ground arith
same_id_iff (some own) id = ground (arith, eqb_iff own id)

-- The write that is due: the id is on file afterwards.
persist-id :
    (d : Desired) (cfg : Site)
    → may_persist cfg ≡ true
    → d.server_id ≢ 0
    → (persist d cfg).server_id ≡ some d.server_id
unfolding persist
persist-id d cfg may given =
    let not_zero : eqb d.server_id 0 ≡ false = ground (arith, given) in
    elim (Bool-cases (same_id cfg.server_id d.server_id)) [
      | inl same ↦
          rw (same, may, not_zero, persist) ((same_id_iff cfg.server_id d.server_id).0 same)
      | inr other ↦ rw (other, may, not_zero, persist) refl
    ]

persist-refused : (d : Desired) (cfg : Site) → may_persist cfg ≡ false → persist d cfg ≡ cfg
unfolding persist
persist-refused d cfg refused = rw (refused, persist) refl

module _ (hostname_of : Text → Option Text) (encode : Text → Text)
    (ask : Text → Text → Option Desired) where
  -- What a site was told comes with an id.
  desired_config-id :
      (cfg : Site) (spokes : List Spoke) (d : Desired)
      → desired_config hostname_of encode ask cfg spokes ≡ some d
      → d.server_id ≢ 0
  unfolding desired_config
  desired_config-id cfg spokes d e = elim (Bool-cases cfg.is_master) [
    | inl master ↦
        let one : 1 ≡ d.server_id =
          ap (λ x. x.server_id) (some-injective (rw (master, desired_config) at e)) in
        λ zero_id. absurd (ground (arith, one, zero_id))
    | inr spoke ↦
        let url : Text =
          strip_slashes cfg.master_url
          ++ (codes "/api/site/ldap-peers?endpoint=" ++ encode cfg.self_url) in
        let token : Text = or_text cfg.push_token cfg.master_join_key in
        elim (Bool-cases (
          is_empty cfg.master_url
          || (is_empty cfg.master_join_key && is_empty cfg.push_token)
          || is_empty cfg.self_url)) [
            | inl silent ↦ absurd (none≢some (rw (spoke, silent, desired_config) at e))
            | inr asks ↦ elim (Option-cases (ask url token)) [
              | inl failed ↦ absurd (none≢some (rw (spoke, asks, failed, desired_config) at e))
              | inr (body, answer) ↦ elim (Bool-cases (eqb body.server_id 0)) [
                | inl lacks ↦
                    absurd (none≢some (rw (spoke, asks, answer, lacks, desired_config) at e))
                | inr has ↦
                    let same : body ≡ d =
                      some-injective (rw (spoke, asks, answer, has, desired_config) at e) in
                    λ zero_id. absurd (ground (arith, has, ap (λ x. x.server_id) same, zero_id))
              ]
            ]
          ]
  ]

  -- A site that never joined anything writes no file; a master with an id on file is set to 1, and a
  -- spoke to the id that its master gave it.
  pub persist-IsRole :
      (cfg : Site) (spokes : List Spoke) (d : Desired)
      → desired_config hostname_of encode ask cfg spokes ≡ some d
      → (cfg.is_master ≡ true → cfg.has_file ≡ false → persist d cfg ≡ cfg)
        × (cfg.is_master ≡ true
            → cfg.has_file ≡ true
            → is_some cfg.server_id ≡ true
            → (persist d cfg).server_id ≡ some 1)
        × (cfg.is_master ≡ false → (persist d cfg).server_id ≡ some d.server_id)
  unfolding may_persist desired_config
  persist-IsRole cfg spokes d e = (
    λ master absent. persist-refused d cfg (rw (master, absent, may_persist) refl),
    λ master present known.
        let one : 1 ≡ d.server_id =
          ap (λ x. x.server_id) (some-injective (rw (master, desired_config) at e)) in
        persist-id d cfg (rw (master, present, known, may_persist) refl)
          (desired_config-id cfg spokes d e)
        ∙ ap some (sym one),
    λ spoke. persist-id d cfg (rw (spoke, may_persist) refl) (desired_config-id cfg spokes d e),
  )
