-- ===== src/Mesh/Client/Exit.antt =====
-- Which exits nodejs/utils/mesh_clients.js lets a device use.
use theta_directory.Base.{
  ℕ, Bool, true, false, ◌&&◌, ◌||◌, List, [], ◌∷◌, ◌++◌, map, ◌≡◌, refl, inl, inr, some, arith, any,
  find, filter, eqb, Text, ◌==◌, ok, Option-cases,
}
use theta_directory.Mesh.Addressing.{assert_site_id}
use theta_directory.Mesh.Roster.{MeshSite}
use theta_directory.Mesh.Client.{
  MeshClient, ExitGrant, Store, allowed_exits, set_exit, uses_exit, leave_exit, revoke_exit,
  is_grant,
}

abbrev pub has_number : List ℕ → ℕ → Bool
has_number ns n = any (λ m. eqb m n) ns

-- A user who is no administrator gets an exit only if a site offers it or it was granted to them.
pub set_exit_allowed :
    (s t : Store) (c : MeshClient) (target : ℕ)
    → set_exit s c (some target) false ≡ ok t
    → has_number (allowed_exits s c.uid) target ≡ true
unfolding set_exit assert_site_id
set_exit_allowed s t c target h = ground arith

any-append :
    (ns ms : List ℕ) (n : ℕ) → has_number (ns ++ ms) n ≡ (has_number ns n || has_number ms n)
any-append [] ms n = refl
any-append (m ∷ ns) ms n = ground (arith, any-append ns ms n)

abbrev pub offers : List MeshSite → ℕ → Bool
offers sites n = any (λ m. m.exit_open && eqb m.site_id n) sites

offered :
    (sites : List MeshSite) (n : ℕ)
    → has_number (map (λ m. m.site_id) (filter (λ m. m.exit_open) sites)) n ≡ offers sites n
offered [] n = refl
offered (m ∷ sites) n = ground (arith, offered sites n)

granted :
    (grants : List ExitGrant) (uid : Text) (n : ℕ)
    → has_number (map (λ g. g.site_id) (filter (λ g. g.uid == uid) grants)) n
      ≡ any (is_grant uid n) grants
granted [] uid n = refl
granted (g ∷ grants) uid n = ground (arith, granted grants uid n)

-- The exits of a user are the sites that offer one, with or without a grant, and the sites granted.
pub allowed_exits_iff :
    (s : Store) (uid : Text) (n : ℕ)
    → has_number (allowed_exits s uid) n ≡ (offers s.sites n || any (is_grant uid n) s.grants)
unfolding allowed_exits
allowed_exits_iff s uid n = ground (
  arith,
  any-append (map (λ m. m.site_id) (filter (λ m. m.exit_open) s.sites))
      (map (λ g. g.site_id) (filter (λ g. g.uid == uid) s.grants)) n,
  offered s.sites n,
  granted s.grants uid n,
)

leave_exit_none :
    (uid : Text) (site : ℕ) (cs : List MeshClient)
    → any (uses_exit uid site) (leave_exit uid site cs) ≡ false
unfolding leave_exit
leave_exit_none uid site [] = refl
leave_exit_none uid site (c ∷ cs) = ground (arith, leave_exit_none uid site cs)

-- After a grant is revoked no device of the user uses the exit.
pub revoke_exit_clears :
    (s : Store) (uid : Text) (site : ℕ)
    → (revoke_exit s uid site).1 ≡ true
    → any (uses_exit uid site) (revoke_exit s uid site).0.clients ≡ false
unfolding revoke_exit
revoke_exit_clears s uid site h = elim (Option-cases (find (is_grant uid site) s.grants)) [
  | inl missing ↦ absurd (ground (arith, missing))
  | inr (g, found) ↦ ground (arith, found, leave_exit_none uid site s.clients)
]
