-- ===== src/Promotion/Ids.antt =====
-- No two spokes get one server id from nodejs/utils/site_promote.js.
use theta_directory.Base.{
  ℕ, zero, suc, ◌≤◌, Bool, true, false, not, ◌&&◌, ◌||◌, List, [], ◌∷◌, ◌++◌, length, find, eqb,
  leb, if◌then◌else◌, if_cases, Text, ◌==◌, is_empty, ◌≡◌, refl, ◌⊎◌, inl, inr, arith, Bool-cases,
  Option-cases,
}
use theta_directory.WriteProxy.{trim_slash}
use theta_directory.Promotion.{
  Spoke, has_id, server_ids, next_free_server_id, step_past, past_used, choose_server_id,
  update_first, Fresh, patched, Adoption, adopt_at, adopt_spoke, adopt_all, adopt_rows,
}

-- The ids in use from one on.
from_on : ℕ → List ℕ → ℕ
from_on id [] = 0
from_on id (n ∷ ns) = let rest = from_on id ns in if leb id n then suc rest else rest

from_on_le : (id : ℕ) (used : List ℕ) → from_on id used ≤ length used
unfolding from_on
from_on_le id [] = omega arith
from_on_le id (n ∷ ns) = ground (arith, from_on_le id ns)

from_on-suc_le : (id : ℕ) (used : List ℕ) → from_on (suc id) used ≤ from_on id used
unfolding from_on
from_on-suc_le id [] = omega arith
from_on-suc_le id (n ∷ ns) = ground (arith, from_on-suc_le id ns)

from_on-suc_lt :
    (id : ℕ) (used : List ℕ) → has_id used id ≡ true → suc (from_on (suc id) used) ≤ from_on id used
unfolding from_on
from_on-suc_lt id [] h = absurd (ground arith)
from_on-suc_lt id (n ∷ ns) h = ground (arith, from_on-suc_lt id ns, from_on-suc_le id ns)

from_on_zero : (id : ℕ) (used : List ℕ) → from_on id used ≤ 0 → has_id used id ≡ false
unfolding from_on
from_on_zero id [] h = refl
from_on_zero id (n ∷ ns) h = ground (arith, from_on_zero id ns)

step_past_free :
    (fuel : ℕ) (used : List ℕ) (id : ℕ)
    → from_on id used ≤ fuel
    → has_id used (step_past fuel used id) ≡ false
unfolding step_past
step_past_free zero used id h = from_on_zero id used h
step_past_free (suc fuel) used id h =
    ground (arith, step_past_free fuel used (suc id), from_on-suc_lt id used)

-- The id chosen is 0, which stands for none, or in use by nobody.
choose_server_id_free :
    (used : List ℕ) (spokes : List Spoke) (inherited : ℕ)
    → (choose_server_id used spokes inherited ≡ 0)
      ⊎ (has_id used (choose_server_id used spokes inherited) ≡ false)
unfolding choose_server_id past_used
choose_server_id_free used spokes inherited =
    elim (Bool-cases (not (eqb inherited 0) && not (has_id used inherited))) [
      | inl free ↦ rw free (inr (ground arith))
      | inr other ↦ elim (Option-cases (next_free_server_id spokes)) [
        | inl full ↦ rw (other, full) (inl refl)
        | inr (id, found) ↦
            rw (other, found) (inr (step_past_free (length used) used id (from_on_le id used)))
      ]
    ]

-- No id but 0 stands twice.
abbrev pub are_apart : List ℕ → Bool
are_apart [] = true
are_apart (n ∷ ns) = (eqb n 0 || not (has_id ns n)) && are_apart ns

IsFresh : List Spoke → ℕ → Type 0
IsFresh spokes x = (x ≡ 0) ⊎ (has_id (server_ids spokes) x ≡ false)

module _ (f : Spoke → Spoke) (x : ℕ) (sets : (s : Spoke) → (f s).server_id ≡ x) where
  has-update :
      (ss : List Spoke) (id : Text) (n : ℕ)
      → has_id (server_ids (update_first ss id f)) n ≡ true
      → (x ≡ n) ⊎ (has_id (server_ids ss) n ≡ true)
  unfolding update_first
  has-update [] id n h = absurd (ground arith)
  has-update (s ∷ ss) id n h = ground (arith, sets s, has-update ss id n)

  apart-update :
      (ss : List Spoke) (id : Text)
      → IsFresh ss x
      → are_apart (server_ids ss) ≡ true
      → are_apart (server_ids (update_first ss id f)) ≡ true
  unfolding update_first IsFresh
  apart-update [] id fresh h = refl
  apart-update (s ∷ ss) id fresh h =
      ground (arith, sets s, has-update ss id s.server_id, apart-update ss id)

has-last :
    (ss : List Spoke) (s : Spoke) (n : ℕ)
    → has_id (server_ids (ss ++ s ∷ [])) n ≡ (has_id (server_ids ss) n || eqb s.server_id n)
has-last [] s n = ground arith
has-last (t ∷ ss) s n = ground (arith, has-last ss s n)

apart-last :
    (ss : List Spoke) (s : Spoke)
    → IsFresh ss s.server_id
    → are_apart (server_ids ss) ≡ true
    → are_apart (server_ids (ss ++ s ∷ [])) ≡ true
unfolding IsFresh
apart-last [] s fresh h = ground arith
apart-last (t ∷ ss) s fresh h = ground (arith, has-last ss s t.server_id, apart-last ss s)

-- The ids of the rows differ, and each is known to be in use.
record IsApart (a : Adoption) : Type 0 where
  apart : are_apart (server_ids a.spokes) ≡ true
  known : (n : ℕ) → has_id (server_ids a.spokes) n ≡ true → has_id a.used n ≡ true

module _ (fresh : Fresh) (local : List Spoke) (a : Adoption) (inherited : Spoke)
    (endpoint : Text) where
  adopt_at-IsApart : IsApart a → IsApart (adopt_at fresh local a inherited endpoint)
  unfolding adopt_at patched IsFresh
  adopt_at-IsApart h =
      let x = choose_server_id a.used a.spokes inherited.server_id in
      let g = patched fresh inherited endpoint x in
      let is_fresh : IsFresh a.spokes x =
        ground (arith, choose_server_id_free a.used a.spokes inherited.server_id, h.known x) in
      elim (Option-cases (find (λ s. trim_slash s.endpoint == endpoint) local)) [
        | inl new ↦ rw new (record {
          apart = apart-last a.spokes _ is_fresh h.apart;
          known = λ n m. ground (
            arith,
            has-last a.spokes
                (g (record inherited { id = fresh.new_id endpoint; endpoint = endpoint })) n,
            h.known n,
          );
        })
        | inr (row, old) ↦ rw old (record {
          apart = apart-update g x (λ s. refl) a.spokes row.id is_fresh h.apart;
          known = λ n m. ground (arith, has-update g x (λ s. refl) a.spokes row.id n m, h.known n);
        })
      ]

adopt_all-IsApart :
    (fresh : Fresh) (self : Text) (local : List Spoke) (a : Adoption) (ss : List Spoke)
    → IsApart a
    → IsApart (adopt_all fresh self local a ss)
unfolding adopt_all adopt_spoke
adopt_all-IsApart fresh self local a [] h = h
adopt_all-IsApart fresh self local a (s ∷ ss) h =
    let endpoint = trim_slash s.endpoint in
    adopt_all-IsApart fresh self local (adopt_spoke fresh self local a s) ss (
      if_cases IsApart (is_empty endpoint || not (is_empty self) && endpoint == self) a
        (adopt_at fresh local a s endpoint) h (adopt_at-IsApart fresh local a s endpoint h))

-- If no two spokes of a site share a server id, none do after it took over those of the site that
-- it replaces, whatever ids these had.
pub adopt_rows-apart :
    (fresh : Fresh) (self_url : Text) (local inherited : List Spoke)
    → are_apart (server_ids local) ≡ true
    → are_apart (server_ids (adopt_rows fresh self_url local inherited).spokes) ≡ true
unfolding adopt_rows
adopt_rows-apart fresh self_url local inherited h =
    (adopt_all-IsApart fresh (trim_slash self_url) local _ inherited
      (record { apart = h; known = λ n m. ground arith })).apart
