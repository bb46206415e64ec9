-- ===== src/Agents/Iam/Grants.antt =====
-- The grants that let a group log in, for nodejs/utils/agent_iam.js.
use theta_directory.Base.{
  ◌≤◌, Bool, true, false, not, ◌&&◌, ◌||◌, List, [], ◌∷◌, none, some, leb, if◌then◌else◌, if_cases,
  Text, ◌==◌, eq_iff, is_empty, to_lower, get, has, put, get_or, get-put, Distinct, Distinct-put,
  In, ◌≡◌, refl, sym, ap, inl, inr, arith, Bool-cases, Option-cases,
}
use theta_directory.Groups.{access, is_meta_group}
use theta_directory.Inheritance.{
  Edge, Levels, Level, rank_of, rank_text, level_of, effective_grants,
}
use theta_directory.Inheritance.Index.{Below}
use theta_directory.Inheritance.Final.{effective_grants_sound, effective_grants_complete}
use theta_directory.Agents.Iam.{GrantRow, by_group_from, may_log_in}
use theta_directory.Agents.Iam.Sorted.{is_granted_login}

-- What the rows give one group: for each resource the level of its last row.
pub direct_from : Levels → List GrantRow → Text → Levels
direct_from m [] g = m
direct_from m (r ∷ rs) g =
    direct_from
      (if r.group_cn == g && not (is_empty r.group_cn || is_empty r.resource_id)
        then put m r.resource_id r.access_level
        else m)
      rs g

pub by_group_from-get :
    (index : List (Text × Levels)) (rows : List GrantRow) (g : Text)
    → get_or (get (by_group_from index rows) g) [] ≡ direct_from (get_or (get index g) []) rows g
unfolding by_group_from direct_from
by_group_from-get index [] g = refl
by_group_from-get index (r ∷ rs) g =
    elim (Bool-cases (is_empty r.group_cn || is_empty r.resource_id)) [
      | inl skipped ↦ rw skipped (ground (arith, by_group_from-get index rs g))
      | inr kept ↦
          let levels = put (get_or (get index r.group_cn) []) r.resource_id r.access_level in
          rw kept (
            ground (
              arith,
              by_group_from-get (put index r.group_cn levels) rs g,
              get-put index r.group_cn g levels,
              eq_iff r.group_cn g,
            ))
    ]

pub direct_from-Distinct :
    (m : Levels) (rows : List GrantRow) (g : Text) → Distinct m → Distinct (direct_from m rows g)
unfolding direct_from
direct_from-Distinct m [] g h = h
direct_from-Distinct m (r ∷ rs) g h =
    direct_from-Distinct
      (if r.group_cn == g && not (is_empty r.group_cn || is_empty r.resource_id)
        then put m r.resource_id r.access_level
        else m)
      rs g
      (if_cases Distinct (r.group_cn == g && not (is_empty r.group_cn || is_empty r.resource_id)) _
        m (Distinct-put m r.resource_id r.access_level h) h)

pub by_group_from-Distinct :
    (index : List (Text × Levels)) (rows : List GrantRow)
    → Distinct index
    → Distinct (by_group_from index rows)
unfolding by_group_from
by_group_from-Distinct index [] h = h
by_group_from-Distinct index (r ∷ rs) h =
    by_group_from-Distinct
      (if is_empty r.group_cn || is_empty r.resource_id
        then index
        else put index r.group_cn
            (put (get_or (get index r.group_cn) []) r.resource_id r.access_level))
      rs
      (if_cases Distinct (is_empty r.group_cn || is_empty r.resource_id) index _ h
        (Distinct-put index r.group_cn _ h))

-- Without grants there is no level.
pub level_of-nothing :
    (edges : List Edge) (id : Text) → level_of (effective_grants [] edges []) id ≡ none
level_of-nothing edges id = elim (Option-cases (level_of (effective_grants [] edges []) id)) [
  | inl missing ↦ missing
  | inr (t, held) ↦ elim (effective_grants_sound [] edges [] id t held) [
    | inl granted ↦ absurd granted.given
    | inr own ↦ absurd own
  ]
]

pub rank_nothing : (b : Bool) → (not b && leb (rank_of (some access)) (rank_of none)) ≡ false
unfolding rank_of rank_text to_lower ◌==◌
rank_nothing true = refl
rank_nothing false = refl

pub may_log_in-nothing : (edges : List Edge) (id g : Text) → may_log_in edges id (g, []) ≡ false
unfolding may_log_in
may_log_in-nothing edges id g = rw (level_of-nothing edges id) (rank_nothing (is_meta_group g))

pub is_granted_login-fresh :
    (edges : List Edge) (id : Text) (index : List (Text × Levels)) (g : Text)
    → has index g ≡ false
    → is_granted_login edges id index g ≡ false
unfolding is_granted_login has
is_granted_login-fresh edges id [] g h = refl
is_granted_login-fresh edges id ((cn, direct) ∷ more) g h =
    ground (arith, is_granted_login-fresh edges id more g)

pub is_granted_login-get :
    (edges : List Edge) (id : Text) (index : List (Text × Levels)) (g : Text)
    → Distinct index
    → is_granted_login edges id index g ≡ may_log_in edges id (g, get_or (get index g) [])
unfolding is_granted_login get
is_granted_login-get edges id [] g h = sym (may_log_in-nothing edges id g)
is_granted_login-get edges id ((cn, direct) ∷ more) g (fresh, h) = elim (Bool-cases (cn == g)) [
  | inl same ↦
      let e : cn ≡ g = (eq_iff cn g).0 same in
      rw same (
        ground (
          arith,
          ap (λ x. may_log_in edges id (x, direct)) e,
          ap (is_granted_login edges id more) e,
          is_granted_login-fresh edges id more cn fresh,
        ))
  | inr other ↦ rw other (is_granted_login-get edges id more g h)
]

-- A row gives the group a level that allows a login, on the host or above it.
abbrev pub HasGrant : List Edge → List GrantRow → Text → Text → Type 0
HasGrant edges rows id g =
    (is_meta_group g ≡ false)
    × ((root : Text) × (l : Level) × In (root, l) (direct_from [] rows g)
        × Below edges root id
        × (rank_of (some access) ≤ rank_of l))

pub may_log_in-HasGrant :
    (edges : List Edge) (rows : List GrantRow) (id g : Text)
    → may_log_in edges id (g, direct_from [] rows g) ≡ true
    → HasGrant edges rows id g
unfolding may_log_in
may_log_in-HasGrant edges rows id g h =
    let direct = direct_from [] rows g in
    elim (Option-cases (level_of (effective_grants direct edges []) id)) [
      | inl missing ↦ absurd (ground (arith, h, ap rank_of missing, rank_nothing (is_meta_group g)))
      | inr (t, held) ↦ elim (effective_grants_sound direct edges [] id t held) [
        | inr own ↦ absurd own
        | inl granted ↦ (
          ground (arith, h),
          (granted.root, some t, granted.given, granted.below, ground (arith, h, ap rank_of held)),
        )
      ]
    ]

pub HasGrant-may_log_in :
    (edges : List Edge) (rows : List GrantRow) (id g : Text)
    → HasGrant edges rows id g
    → may_log_in edges id (g, direct_from [] rows g) ≡ true
unfolding may_log_in
HasGrant-may_log_in edges rows id g (plain, (root, l, given, below, high)) = ground (
  arith,
  plain,
  high,
  effective_grants_complete (direct_from [] rows g) edges [] root id l
      (direct_from-Distinct [] rows g tt) given below,
)
