-- ===== src/Agents/Iam/Sorted.antt =====
-- What the set and the sorted list of nodejs/utils/agent_iam.js hold.
use theta_directory.Base.{
  Bool, false, not, ◌&&◌, ◌||◌, List, [], ◌∷◌, ◌++◌, filter, if◌then◌else◌, Text, ◌==◌, eq_iff,
  includes, is_empty, ◌≡◌, refl, arith,
}
use theta_directory.Inheritance.{Edge, Levels}
use theta_directory.Catalog.Rollup.{add_tags}
use theta_directory.Agents.Iam.{insert_text, sort_texts, may_log_in, add_granted}

includes-insert_text :
    (t : Text) (us : List Text) (g : Text)
    → includes (insert_text t us) g ≡ (t == g || includes us g)
unfolding insert_text includes
includes-insert_text t [] g = refl
includes-insert_text t (u ∷ us) g = ground (arith, includes-insert_text t us g)

pub includes-sort_texts : (ts : List Text) (g : Text) → includes (sort_texts ts) g ≡ includes ts g
unfolding sort_texts includes
includes-sort_texts [] g = refl
includes-sort_texts (t ∷ ts) g =
    ground (arith, includes-insert_text t (sort_texts ts) g, includes-sort_texts ts g)

pub includes-filter :
    (ts : List Text) (g : Text)
    → includes (filter (λ cn. not (is_empty cn)) ts) g ≡ (not (is_empty g) && includes ts g)
unfolding includes
includes-filter [] g = ground arith
includes-filter (t ∷ ts) g = ground (arith, eq_iff t g, includes-filter ts g)

includes-append :
    (xs ys : List Text) (g : Text) → includes (xs ++ ys) g ≡ (includes xs g || includes ys g)
unfolding includes
includes-append [] ys g = refl
includes-append (x ∷ xs) ys g = ground (arith, includes-append xs ys g)

pub includes-add_tags :
    (tags more : List Text) (g : Text)
    → includes (add_tags tags more) g ≡ (includes tags g || includes more g)
unfolding includes add_tags
includes-add_tags tags [] g = ground arith
includes-add_tags tags (t ∷ more) g = ground (
  arith,
  eq_iff t g,
  includes-add_tags (if includes tags t then tags else tags ++ t ∷ []) more g,
  includes-append tags (t ∷ []) g,
)

-- Some entry of the map lets the group in.
unfoldable pub is_granted_login : List Edge → Text → List (Text × Levels) → Text → Bool
is_granted_login edges id [] g = false
is_granted_login edges id ((cn, direct) ∷ more) g =
    (cn == g && may_log_in edges id (cn, direct)) || is_granted_login edges id more g

pub includes-add_granted :
    (edges : List Edge) (id : Text) (cns : List Text) (index : List (Text × Levels)) (g : Text)
    → includes (add_granted edges id cns index) g
      ≡ (includes cns g || is_granted_login edges id index g)
unfolding add_granted is_granted_login includes
includes-add_granted edges id cns [] g = ground arith
includes-add_granted edges id cns ((cn, direct) ∷ more) g = ground (
  arith,
  includes-add_granted edges id
      (if may_log_in edges id (cn, direct) then add_tags cns (cn ∷ []) else cns) more g,
  includes-add_tags cns (cn ∷ []) g,
)
