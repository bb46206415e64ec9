-- ===== src/Ldap/Delta/Converge.antt =====
-- nodejs/utils/ldap_runtime_config.js brings the running server to where there is nothing to do.
use theta_directory.Base.{
  ℕ, Bool, true, false, ◌||◌, List, [], ◌∷◌, ◌++◌, some, eqb, eqb_iff, if◌then◌else◌, Text, decimal,
  ◌≡◌, ◌≢◌, refl, sym, ap, ◌∙◌, inl, inr, arith, Bool-cases, subst,
}
use theta_directory.Ldap.{Desired}
use theta_directory.Ldap.Delta.{
  Providers, Live, provider_of, wanted, syncrepl_changed, Modification, set_server_id, set_syncrepl,
  set_mirror_mode, insert_rid, sort_rids, has_id, has_peer, server_id_mods, syncrepl_mods,
  mirror_mods, database_mods, plan,
}
use theta_directory.Ldap.Delta.Sync.{
  IsSame, IsInSync, unchanged_iff, want_from-IsMap, server_id_mods_iff, plan_nil_iff,
}

provider_of-insert_rid :
    (w : ℕ × Text) (m : Providers) (rid : ℕ)
    → provider_of (insert_rid w m) rid ≡ (if eqb w.0 rid then some w.1 else provider_of m rid)
unfolding provider_of insert_rid
provider_of-insert_rid w [] rid = refl
provider_of-insert_rid (r, p) ((s, q) ∷ m) rid =
    ground (arith, eqb_iff r rid, eqb_iff s rid, provider_of-insert_rid (r, p) m rid)

provider_of-sort_rids : (m : Providers) → IsSame (sort_rids m) m
unfolding provider_of sort_rids
provider_of-sort_rids [] rid = refl
provider_of-sort_rids ((s, q) ∷ m) rid =
    ground (arith, provider_of-insert_rid (s, q) (sort_rids m) rid, provider_of-sort_rids m rid)

-- A modification replaces its attribute and no other. The server may order the peers as it likes.
pub record IsReplace (run : Modification → Live → Live) : Type 0 where
  pub server_id :
      (id : Text) (l : Live) → run (set_server_id id) l ≡ record l { server_ids = id ∷ [] }
  pub syncrepl :
      (peers : Providers) (l : Live)
      → (m : Providers) × (run (set_syncrepl peers) l ≡ record l { providers = m }) × IsSame m peers
  pub mirror_mode :
      (on : Bool) (l : Live) → run (set_mirror_mode on) l ≡ record l { mirror_mode = on }

-- The server takes the modifications one by one.
unfoldable pub perform : (Modification → Live → Live) → Live → List Modification → Live
perform run l [] = l
perform run l (m ∷ ms) = perform run (run m l) ms

module _ (run : Modification → Live → Live) (replaces : IsReplace run) where
  perform-append :
      (l : Live) (ms ns : List Modification)
      → perform run l (ms ++ ns) ≡ perform run (perform run l ms) ns
  unfolding perform
  perform-append l [] ns = refl
  perform-append l (m ∷ ms) ns = perform-append (run m l) ms ns

  after_server_id :
      (ids : List Text) (id : ℕ) (l : Live)
      → l.server_ids ≡ ids
      → (new : List Text) × (perform run l (server_id_mods ids id) ≡ record l { server_ids = new })
        × (id ≢ 0 → new ≡ decimal id ∷ [])
  unfolding perform server_id_mods
  after_server_id ids id l at = elim (Bool-cases (eqb id 0 || has_id ids (decimal id))) [
    | inl keep ↦ (
      ids,
      rw (keep, server_id_mods) (ap (λ c. record l { server_ids = c }) at),
      (server_id_mods_iff ids id).0 (rw (keep, server_id_mods) refl),
    )
    | inr other ↦ (
      decimal id ∷ [],
      rw (other, server_id_mods) (replaces.server_id (decimal id) l),
      λ given. refl,
    )
  ]

  after_syncrepl :
      (want : Providers) (l : Live) (current : Providers)
      → l.providers ≡ current
      → (syncrepl_changed current want ≡ false → IsSame current want)
      → (m : Providers) × (perform run l (syncrepl_mods current want) ≡ record l { providers = m })
        × IsSame m want
  unfolding perform syncrepl_mods
  after_syncrepl want l current at quiet = elim (Bool-cases (syncrepl_changed current want)) [
    | inr same ↦
        (current, rw (same, syncrepl_mods) (ap (λ c. record l { providers = c }) at), quiet same)
    | inl differs ↦
        let r = replaces.syncrepl (sort_rids want) l in
        (r.0, rw (differs, syncrepl_mods) r.1, λ rid. r.2 rid ∙ provider_of-sort_rids want rid)
  ]

  after_mirror_mode :
      (current want : Bool) (l : Live)
      → l.mirror_mode ≡ current
      → perform run l (mirror_mods current want) ≡ record l { mirror_mode = want }
  unfolding perform mirror_mods
  after_mirror_mode true true l at = ap (λ c. record l { mirror_mode = c }) at
  after_mirror_mode true false l at = replaces.mirror_mode false l
  after_mirror_mode false true l at = replaces.mirror_mode true l
  after_mirror_mode false false l at = ap (λ c. record l { mirror_mode = c }) at

  after_database :
      (live l : Live) (want : Providers)
      → l.providers ≡ live.providers
      → l.mirror_mode ≡ live.mirror_mode
      → (syncrepl_changed live.providers want ≡ false → IsSame live.providers want)
      → (m : Providers) × (perform run l (database_mods live want)
          ≡ record l { providers = m; mirror_mode = has_peer want })
        × IsSame m want
  unfolding database_mods
  after_database live l want at_peers at_mirror quiet = elim (Bool-cases (has_peer want)) [
    | inl some_peer ↦
        let p = after_syncrepl want l live.providers at_peers quiet in
        (
          p.0,
          rw (some_peer, database_mods)
              (perform-append l (syncrepl_mods live.providers want)
                  (mirror_mods live.mirror_mode true)
                ∙ ap (λ k. perform run k (mirror_mods live.mirror_mode true)) p.1
                ∙ after_mirror_mode live.mirror_mode true (record l { providers = p.0 }) at_mirror),
          p.2,
        )
    | inr no_peer ↦
        let on : Live = record l { mirror_mode = false } in
        let p = after_syncrepl want on live.providers at_peers quiet in
        (
          p.0,
          rw (no_peer, database_mods)
              (perform-append l (mirror_mods live.mirror_mode false)
                  (syncrepl_mods live.providers want)
                ∙ ap (λ k. perform run k (syncrepl_mods live.providers want))
                    (after_mirror_mode live.mirror_mode false l at_mirror)
                ∙ p.1),
          p.2,
        )
  ]

  -- Where the server replaces an attribute by what it is given, the running configuration is in sync
  -- after the modifications, so that the next pass has nothing to write.
  pub perform-plan :
      (live : Live) (desired : Desired)
      → IsInSync (perform run live (plan live desired)) desired
        × (plan (perform run live (plan live desired)) desired ≡ [])
  unfolding plan
  perform-plan live desired =
      let want : Providers = wanted desired.peers in
      let s = after_server_id live.server_ids desired.server_id live refl in
      let d =
        after_database live (record live { server_ids = s.0 }) want refl refl
          (unchanged_iff live.providers want (want_from-IsMap desired.peers [] tt)).0 in
      let end : Live = record { server_ids = s.0; providers = d.0; mirror_mode = has_peer want } in
      let done : IsInSync end desired = (s.2, d.2, refl) in
      let path : perform run live (plan live desired) ≡ end =
        perform-append live (server_id_mods live.server_ids desired.server_id)
          (database_mods live want)
        ∙ ap (λ k. perform run k (database_mods live want)) s.1
        ∙ d.1 in
      subst (λ l. IsInSync l desired × (plan l desired ≡ [])) (sym path)
        (done, (plan_nil_iff end desired).1 done)
