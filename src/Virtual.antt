-- ===== src/Virtual.antt =====
-- nodejs/utils/virtual_groups.js: LDAP groups that exist by their name alone.
pub mod Parse
pub mod Filter
mod Tests
use theta_directory.Base.{
  Bool, not, ◌&&◌, ◌||◌, List, [], ◌∷◌, ◌++◌, map, Option, none, some, if◌then◌else◌, Text, codes,
  ◌==◌, includes, to_lower, is_empty, strip_prefix, split_last, Result, ok, err, ◌>>=◌, any, get_or,
  filter, eqb,
}
use theta_directory.Groups.{admin, host, app, underscore, Fault, Target, has_permission}

abbrev pub site : Text
site = codes "site"

pub record Parsed : Type 0 where
  pub site : Text
  pub kind : Text
  pub slug : Option Text
  pub level : Text

-- One place of the match of `/_(host|app|hosts|apps|super)_/`: the kind and what follows.
unfoldable pub kind_at : List Text → Text → Option (Text × Text)
kind_at [] s = none
kind_at (k ∷ ks) s = elim (strip_prefix (underscore ∷ (k ++ underscore ∷ [])) s) [
  | some rest ↦ some (k, rest)
  | none ↦ kind_at ks s
]

abbrev pub kinds : List Text
kinds = codes "host" ∷ codes "app" ∷ codes "hosts" ∷ codes "apps" ∷ codes "super" ∷ []

-- The leftmost match: what stands before it, the kind and what follows.
unfoldable pub find_kind : Text → Option (Text × Text × Text)
find_kind [] = none
find_kind (c ∷ s) = elim (kind_at kinds (c ∷ s)) [
  | some (k, rest) ↦ some ([], k, rest)
  | none ↦ elim (find_kind s) [ some (before, k, rest) ↦ some (c ∷ before, k, rest) | none ↦ none ]
]

-- `rest.substring(0, i)` and `rest.substring(i + 1)`, as a slug and a level.
abbrev pub cut : Text → Text → Text × Text → Parsed
cut site kind (before, from) = record {
  site = site;
  kind = kind;
  slug = some before;
  level = elim from [ [] ↦ [] | _ ∷ level ↦ level ];
}

-- The branch for one resource.
unfoldable pub parse_resource : Text → Text → Text → Option Parsed
parse_resource site kind rest = elim (split_last (codes "_access") rest) [
  | some at ↦ some (cut site kind at)
  | none ↦ elim (split_last (codes "_admin") rest) [
    | some at ↦ some (cut site kind at)
    | none ↦ elim (split_last (codes "_") rest) [ some at ↦ some (cut site kind at) | none ↦ none ]
  ]
]

abbrev pub site_wide : Text → Text → Text → Parsed
site_wide at kind level = record { site = at; kind = kind; slug = none; level = level }

unfoldable pub parse_found : Text → Text → Text → Option Parsed
parse_found before kind rest =
    if kind == codes "super" && rest == admin
    then some (site_wide before site admin)
    else if kind == codes "hosts" || kind == codes "apps"
    then some (site_wide before (if kind == codes "hosts" then host else app) rest)
    else if kind == host || kind == app
    then parse_resource before kind rest
    else none

unfoldable pub parse_group_cn : Text → Option Parsed
parse_group_cn cn = elim (find_kind cn) [
  | some (before, kind, rest) ↦ parse_found before kind rest
  | none ↦ none
]

-- A multi-valued LDAP attribute as the client library hands it over.
pub data Values : Type 0 where
  missing : Values
  single : Text → Values
  many : List Text → Values

-- `Array.isArray(v) ? v : [v]`, of `v || []`.
unfoldable pub values : Values → List Text
values missing = []
values (single v) = if is_empty v then [] else v ∷ []
values (many vs) = vs

pub record Entry : Type 0 where
  pub dn : Text
  pub object_class : List Text
  pub cn : Text
  pub member : List Text
  pub member_of : Values

pub record VirtualGroup : Type 0 where
  pub cn : Text
  pub parsed : Parsed
  pub attribute : Text
  pub original_value : Text

unfoldable pub until_comma : Text → Text
until_comma [] = []
until_comma (c ∷ s) = let rest = until_comma s in if eqb c b',' then [] else c ∷ rest

-- `/^cn=([^,]+)/i.exec(dn)`, its group or else the whole text.
unfoldable pub cn_of : Text → Text
cn_of (c ∷ n ∷ e ∷ rest) =
    if to_lower (c ∷ n ∷ e ∷ []) == codes "cn=" && not (is_empty (until_comma rest))
    then until_comma rest
    else c ∷ n ∷ e ∷ rest
cn_of dn = dn

-- `resource` of the check; a slug that is null reads as the empty text.
unfoldable pub target : Parsed → Target
target p = record { site = p.site; kind = p.kind; slug = get_or p.slug [] }

abbrev pub synthetic : Text → Entry
synthetic name = record {
  dn = codes "cn=" ++ name ++ codes ",ou=groups,dc=virtual";
  object_class = codes "top" ∷ codes "groupOfNames" ∷ [];
  cn = name;
  member = codes "cn=dummy" ∷ [];
  member_of = missing;
}

unfoldable pub is_cn : VirtualGroup → Bool
is_cn vg = vg.attribute == codes "cn"

-- The first loop: an entry for each group asked for by its name that the search did not return.
unfoldable pub synthesize : List Entry → List VirtualGroup → List Entry
synthesize entries [] = entries
synthesize entries (vg ∷ vgs) =
    synthesize
      (if any (λ e. e.cn == vg.cn) entries then entries else entries ++ synthetic vg.cn ∷ []) vgs

-- The group's name is added to what the entry says of itself.
unfoldable pub inject : Text → Entry → Entry
inject value entry =
    if includes (values entry.member_of) value
    then record entry { member_of = many (values entry.member_of) }
    else record entry { member_of = many (values entry.member_of ++ value ∷ []) }

-- One group of the inner loop: `none` drops the entry.
unfoldable pub check_group : VirtualGroup → Entry → Result Fault (Option Entry)
check_group vg entry =
    if vg.attribute == codes "memberof"
    then (has_permission (map cn_of (values entry.member_of)) (target vg.parsed) vg.parsed.level
        >>= λ has. ok (if has then some (inject vg.original_value entry) else none))
    else ok (some entry)

unfoldable pub check_groups : List VirtualGroup → Entry → Result Fault (Option Entry)
check_groups [] entry = ok (some entry)
check_groups (vg ∷ vgs) entry = check_group vg entry >>= λ next. elim next [
  | none ↦ ok none
  | some entry' ↦ check_groups vgs entry'
]

-- The filter's test of an entry.
unfoldable pub check_entry : List VirtualGroup → Entry → Result Fault (Option Entry)
check_entry vgs entry =
    if any (λ vg. vg.cn == entry.cn) (filter is_cn vgs)
    then ok (some entry)
    else check_groups vgs entry

unfoldable pub filter_entries : List VirtualGroup → List Entry → Result Fault (List Entry)
filter_entries vgs [] = ok []
filter_entries vgs (e ∷ es) = do
  kept ← check_entry vgs e
  rest ← filter_entries vgs es
  ok (elim kept [ none ↦ rest | some e' ↦ e' ∷ rest ])

unfoldable pub post_filter_entries : List Entry → List VirtualGroup → Result Fault (List Entry)
post_filter_entries entries [] = ok entries
post_filter_entries entries (vg ∷ vgs) =
    filter_entries (vg ∷ vgs) (synthesize entries (filter is_cn (vg ∷ vgs)))
