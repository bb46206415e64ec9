-- ===== src/WriteProxy.antt =====
-- nodejs/middleware/spoke_write_proxy.js: which writes a spoke sends to its master, and as whom.
pub mod Owned
pub mod Identity
pub mod Redirect
pub mod Signature
mod Tests
use theta_directory.Base.{
  ℕ, Bool, true, false, not, ◌&&◌, ◌||◌, List, [], ◌∷◌, ◌++◌, filter, Option, none, some, any,
  length, ltb, leb, eqb, if◌then◌else◌, Text, codes, ◌==◌, includes, is_empty, or_text, to_lower,
  trim, starts_with, strip_prefix, split_first, get, put, get_or, Result, ok, err,
}

-- `/^prefix(\/|$)/`
unfoldable pub is_under : Text → Text → Bool
is_under prefix path = elim (strip_prefix prefix path) [
  | none ↦ false
  | some rest ↦ is_empty rest || starts_with rest (codes "/")
]

-- `/^[^\/]+\/name(\/|$)/`
unfoldable pub is_under_segment : Text → Text → Bool
is_under_segment name path = elim (split_first 47 path) [
  | none ↦ false
  | some (segment, rest) ↦ not (is_empty segment) && is_under name rest
]

-- `/^\/api\/user\/([^\/]+\/)?password(\/|$)/`
unfoldable pub is_password : Text → Bool
is_password path = elim (strip_prefix (codes "/api/user/") path) [
  | none ↦ false
  | some rest ↦ is_under (codes "password") rest || is_under_segment (codes "password") rest
]

-- `/^\/api\/agent\/nodes\/[^/]+\/command(\/|$)/`
unfoldable pub is_node_command : Text → Bool
is_node_command path = elim (strip_prefix (codes "/api/agent/nodes/") path) [
  | none ↦ false
  | some rest ↦ is_under_segment (codes "command") rest
]

abbrev pub forward_prefixes : List Text
forward_prefixes =
    codes "/api/tos"
    ∷ codes "/api/user/accept-tos"
    ∷ codes "/api/directory-admin"
    ∷ codes "/api/agent/enroll"
    ∷ codes "/api/agent/nodes"
    ∷ codes "/api/agent/join-keys"
    ∷ codes "/api/api-token"
    ∷ codes "/api/mesh/clients"
    ∷ codes "/api/mesh/exit-grants"
    ∷ codes "/api/mesh/sites"
    ∷ codes "/api/mesh/hub"
    ∷ codes "/api/v1/agent/mesh"
    ∷ []

unfoldable pub is_forward_path : Text → Bool
is_forward_path path = any (λ prefix. is_under prefix path) forward_prefixes || is_password path

unfoldable pub is_never_forwarded : Text → Bool
is_never_forwarded path =
    is_under (codes "/api/directory-admin/site-promote") path || is_node_command path

unfoldable pub should_forward : Text → Bool
should_forward path = if is_never_forwarded path then false else is_forward_path path

abbrev pub mutating : List Text
mutating = codes "POST" ∷ codes "PUT" ∷ codes "PATCH" ∷ codes "DELETE" ∷ []

abbrev pub Headers : Type 0
Headers = List (Text × Text)

pub data Body : Type 0 where
  no_body : Body
  json : Text → Body
  plain : Text → Body

pub record Request : Type 0 where
  pub method : Text
  pub url : Text
  pub user : Option Text
  pub ip : Text
  pub protocol : Text
  pub headers : Headers
  pub body : Body

unfoldable pub absolute_path : Request → Text
absolute_path req = elim (split_first 63 req.url) [ none ↦ req.url | some (path, query) ↦ path ]

pub record SiteConfig : Type 0 where
  pub is_master : Bool
  pub master_url : Text
  pub push_token : Text
  pub site_slug : Text

-- `.replace(/\/+$/, '')`
unfoldable pub trim_slash : Text → Text
trim_slash [] = []
trim_slash (c ∷ s) = let rest = trim_slash s in if eqb c 47 && is_empty rest then [] else c ∷ rest

unfoldable pub slice_7 : Text → Text × Text
slice_7 (a ∷ b ∷ c ∷ d ∷ e ∷ f ∷ g ∷ rest) = (a ∷ b ∷ c ∷ d ∷ e ∷ f ∷ g ∷ [], rest)
slice_7 short = (short, [])

-- The credential stores: the uid behind a token, if there is a valid one.
pub record Stores : Type 0 where
  pub check_api_token : Text → Option Text
  pub service_token : Text → Option Text
  pub check_token : Text → Option Text

unfoldable pub present : Option Text → Option Text
present none = none
present (some uid) = if is_empty uid then none else some uid

-- The answer of the first credential that has one.
unfoldable pub first_of : Option Text → Option Text → Option Text
first_of none next = next
first_of (some uid) next = some uid

unfoldable pub bearer_caller : Stores → Text → Option Text
bearer_caller stores authorization =
    let (scheme, rest) = slice_7 authorization in
    let token = trim rest in
    if not (to_lower scheme == codes "bearer ")
    then none
    else if starts_with token (codes "sso_")
    then present (stores.check_api_token token)
    else stores.service_token token

unfoldable pub session_caller : Stores → Text → Option Text
session_caller stores token = if is_empty token then none else present (stores.check_token token)

-- The uid of the caller; `req.user` or a machine may have an empty one.
unfoldable pub resolve_caller : Stores → Request → Option Text
resolve_caller stores req =
    let header : Text → Text = λ name. get_or (get req.headers name) [] in
    let by_token =
      first_of (bearer_caller stores (header (codes "authorization")))
        (session_caller stores (header (codes "auth-token"))) in
    first_of req.user by_token

abbrev pub dropped_headers : List Text
dropped_headers =
    codes "host"
    ∷ codes "content-length"
    ∷ codes "transfer-encoding"
    ∷ codes "connection"
    ∷ codes "authorization"
    ∷ codes "auth-token"
    ∷ codes "cookie"
    ∷ []

unfoldable pub copy_headers : Headers → Headers → Headers
copy_headers out [] = out
copy_headers out ((k, v) ∷ more) =
    let key = to_lower k in
    copy_headers (if includes dropped_headers key then out else put out key v) more

unfoldable pub with_body : Body → Headers → Headers
with_body (json text) headers = put headers (codes "content-type") (codes "application/json")
with_body body headers = headers

unfoldable pub body_text : Body → Text
body_text no_body = []
body_text (json text) = text
body_text (plain text) = text

pub data Decision : Type 0 where
  pass_on : Decision
  no_master : Decision
  unregistered : Decision
  forward : Text → Text → Headers → Text → Decision

-- `sign` is utils/forwarded_auth_hmac.js, an HMAC; `ts` is the clock as a text.
module _ (sign : Text → Text → Text → Text → Text) where
  unfoldable pub forward_headers : SiteConfig → Request → Text → Text → Headers
  forward_headers cfg req uid ts =
      let h0 = copy_headers [] req.headers in
      let h1 = put h0 (codes "authorization") (codes "Bearer " ++ cfg.push_token) in
      let h2 = put h1 (codes "x-forwarded-user") uid in
      let h3 = put h2 (codes "x-forwarded-spoke") (or_text cfg.site_slug (codes "spoke")) in
      let h4 =
        put h3 (codes "x-forwarded-for")
          (or_text req.ip (get_or (get req.headers (codes "x-forwarded-for")) [])) in
      let h5 = put h4 (codes "x-forwarded-proto") (or_text req.protocol (codes "http")) in
      let h6 = put h5 (codes "x-forwarded-ts") ts in
      let h7 = put h6 (codes "x-forwarded-mac") (sign cfg.push_token uid ts (absolute_path req)) in
      with_body req.body h7

  -- `spokeWriteProxy` until the master is called.
  unfoldable pub decide : SiteConfig → Stores → Request → Text → Decision
  decide cfg stores req ts =
      let master_url = trim_slash cfg.master_url in
      let as_caller : Decision = elim (present (resolve_caller stores req)) [
        | none ↦ pass_on
        | some uid ↦
            forward req.method (master_url ++ req.url) (forward_headers cfg req uid ts)
              (body_text req.body)
      ] in
      if cfg.is_master
      then pass_on
      else if not (includes mutating req.method)
      then pass_on
      else if not (should_forward (absolute_path req))
      then pass_on
      else if is_empty master_url
      then no_master
      else if is_empty cfg.push_token
      then unregistered
      else as_caller
