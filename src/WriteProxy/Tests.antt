-- ===== src/WriteProxy/Tests.antt =====
-- A write on a spoke, for nodejs/middleware/spoke_write_proxy.js.
use theta_directory.Base.{
  ℕ, ◌≤◌, ◌*◌, true, false, List, [], ◌∷◌, ◌++◌, All, length, Option, none, some, Text, codes, ◌==◌,
  includes, is_empty, starts_with, strip_prefix, split_first, get, ◌≡◌, ◌↔◌, refl, Result, ok,
}
use theta_directory.WriteProxy.{
  Request, SiteConfig, Stores, json, should_forward, forward_headers, forward, decide,
  absolute_path, trim_slash, is_never_forwarded, is_forward_path, is_under, is_node_command,
  resolve_caller, first_of, present, body_text,
}
use theta_directory.WriteProxy.Identity.{
  IsForwarding, forward_headers-identity, decide-IsForwarding,
}
use theta_directory.WriteProxy.Redirect.{
  Response, Failure, IsAtHost, fetch_with_auth_redirect, fetch_with_auth_redirect-confined,
}
use theta_directory.WriteProxy.Signature.{sign, verify, verify-bound, distance, is_fresh}

abbrev cfg : SiteConfig
cfg = record {
  is_master = false;
  master_url = codes "https://hub/";
  push_token = codes "push";
  site_slug = codes "site-b";
}

abbrev stores : Stores
stores = record { check_api_token = λ t. none; service_token = λ t. none; check_token = λ t. none }

-- The client names another caller.
abbrev req : Request
req = record {
  method = codes "PUT";
  url = codes "/api/tos?x=1";
  user = some (codes "ada");
  ip = codes "10.2.128.1";
  protocol = codes "https";
  headers = (codes "X-Forwarded-User", codes "root") ∷ (codes "cookie", codes "sid=1") ∷ [];
  body = json (codes "{}");
}

abbrev mac : Text → Text → Text → Text → Text
mac token uid ts path = token ++ uid ++ ts ++ path

forward_headers-identity_example :
    (get (forward_headers mac cfg req (codes "ada") (codes "7")) (codes "authorization")
      ≡ some (codes "Bearer " ++ cfg.push_token))
    × (get (forward_headers mac cfg req (codes "ada") (codes "7")) (codes "x-forwarded-user")
        ≡ some (codes "ada"))
    × (get (forward_headers mac cfg req (codes "ada") (codes "7")) (codes "x-forwarded-mac")
        ≡ some (mac cfg.push_token (codes "ada") (codes "7") (absolute_path req)))
    × (get (forward_headers mac cfg req (codes "ada") (codes "7")) (codes "cookie") ≡ none)
    × (get (forward_headers mac cfg req (codes "ada") (codes "7")) (codes "auth-token") ≡ none)
forward_headers-identity_example = forward_headers-identity mac cfg req (codes "ada") (codes "7")

forwarded :
    decide mac cfg stores req (codes "7")
    ≡ forward
        (codes "PUT")
        (codes "https://hub/api/tos?x=1")
        (forward_headers mac cfg req (codes "ada") (codes "7"))
        (codes "{}")
unfolding decide includes ◌==◌ absolute_path split_first should_forward is_never_forwarded is_under
    strip_prefix is_node_command is_forward_path is_empty starts_with trim_slash resolve_caller
    first_of present body_text
forwarded = refl

decide-IsForwarding_example :
    (decide mac cfg stores req (codes "7")
      ≡ forward
          (codes "PUT")
          (codes "https://hub/api/tos?x=1")
          (forward_headers mac cfg req (codes "ada") (codes "7"))
          (codes "{}"))
    ↔ IsForwarding mac cfg stores req
        (codes "7")
        (codes "PUT")
        (codes "https://hub/api/tos?x=1")
        (forward_headers mac cfg req (codes "ada") (codes "7"))
        (codes "{}")
decide-IsForwarding_example =
    decide-IsForwarding mac cfg stores req (codes "7") (codes "PUT")
      (codes "https://hub/api/tos?x=1") (forward_headers mac cfg req (codes "ada") (codes "7"))
      (codes "{}")

-- A server that sends every request on to the same host.
abbrev fetch : Text → Result Failure Response
fetch url = ok (record { status = 301; location = codes "/next" })

abbrev resolve : Text → Text → Option Text
resolve location base = some (codes "hub" ++ location)

abbrev host : Text → Text
host url = codes "hub"

fetch_with_auth_redirect-confined_example :
    All
      (IsAtHost fetch resolve host (codes "hub/"))
      (fetch_with_auth_redirect fetch resolve host (codes "hub/")).sent
    × (length (fetch_with_auth_redirect fetch resolve host (codes "hub/")).sent ≤ 4)
fetch_with_auth_redirect-confined_example =
    fetch_with_auth_redirect-confined fetch resolve host (codes "hub/")

abbrev hmac : Text → Text → Text
hmac key message = message

abbrev bytes : Text → List ℕ
bytes t = t

abbrev number : Text → Option ℕ
number t = some 7

accepted :
    verify hmac bytes number 9
      (codes "push")
      (codes "ada")
      (codes "7")
      (codes "/api/tos")
      (sign hmac bytes number (codes "push") (codes "ada") (codes "7") (codes "/api/tos"))
    ≡ true
unfolding verify sign is_fresh is_empty distance ◌==◌
accepted = refl

verify-bound_example :
    (codes "ada" ≡ codes "ada")
    × (codes "7" ≡ codes "7")
    × (codes "/api/tos" ≡ codes "/api/tos")
    × (distance 9 7 ≤ 5 * 60 * 1000)
verify-bound_example =
    verify-bound hmac bytes number 9 7 (codes "push") (codes "ada") (codes "ada") (codes "7")
      (codes "7") (codes "/api/tos") (codes "/api/tos") (λ m m' e. e) refl refl refl refl refl
      accepted
