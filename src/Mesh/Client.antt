-- ===== src/Mesh/Client.antt =====
-- nodejs/utils/mesh_clients.js: enrolling devices, and the exits that they use.
pub mod Enroll
pub mod Exit
mod Tests
use theta_directory.Base.{
  ℕ, zero, suc, Bool, true, false, not, ◌&&◌, ◌||◌, List, [], ◌∷◌, ◌++◌, map, Option, none, some,
  any, find, filter, if◌then◌else◌, ltb, leb, eqb, Text, codes, ◌==◌, includes, is_empty, or_text,
  trim, every, length, first_from, is_digit, Result, ok, err, ◌>>=◌, head?, get_or,
}
use theta_directory.Mesh.Addressing.{Fault, assert_site_id, client_ip, max_index}
use theta_directory.Mesh.Roster.{MeshSite}

-- Rows of nodejs/models/mesh_client.js; an exit or an agent that is null is `none`.
pub record MeshClient : Type 0 where
  pub id : Text
  pub uid : Text
  pub name : Text
  pub site_id : ℕ
  pub assigned_ip : Text
  pub public_key : Text
  pub exit_site_id : Option ℕ
  pub source : Text
  pub agent_id : Option Text
  pub created_at : ℕ
  pub last_seen_at : ℕ

pub record ExitGrant : Type 0 where
  pub id : Text
  pub uid : Text
  pub site_id : ℕ
  pub granted_by : Text
  pub created_at : ℕ

pub record Store : Type 0 where
  pub clients : List MeshClient
  pub grants : List ExitGrant
  pub sites : List MeshSite

pub data Refusal : Type 0 where
  address : Fault → Refusal
  no_uid no_name bad_key already_enrolled : Refusal
  exhausted not_permitted : ℕ → Refusal

abbrev pub addressed : {A : Type 0} → Result Fault A → Result Refusal A
addressed (ok a) = ok a
addressed (err e) = err (address e)

-- The addresses in use at a site.
unfoldable pub taken_at : List MeshClient → ℕ → List Text
taken_at cs site = map (λ c. c.assigned_ip) (filter (λ c. eqb c.site_id site) cs)

unfoldable pub is_free : List MeshClient → ℕ → ℕ → Bool
is_free cs site index = elim (client_ip site index) [
  | ok ip ↦ not (includes (taken_at cs site) ip)
  | err e ↦ false
]

unfoldable pub next_free_ip : List MeshClient → ℕ → Result Refusal Text
next_free_ip cs site = do
  id ← addressed (assert_site_id site)
  elim (first_from (is_free cs site) max_index 1) [
    | some index ↦ addressed (client_ip site index)
    | none ↦ err (exhausted site)
  ]

abbrev pub is_base64 : ℕ → Bool
is_base64 c =
    (leb b'A' c && leb c b'Z')
    || (leb b'a' c && leb c b'z')
    || is_digit c
    || eqb c b'+'
    || eqb c b'/'

-- `/^[A-Za-z0-9+/]{42}[A-Za-z0-9+/=]{2}$/`; the number is that of the characters before the last two.
unfoldable pub is_key_from : ℕ → Text → Bool
is_key_from zero s = every (λ c. is_base64 c || eqb c b'=') s && eqb (length s) 2
is_key_from (suc n) [] = false
is_key_from (suc n) (c ∷ s) = is_base64 c && is_key_from n s

pub record KeyPair : Type 0 where
  pub public_key : Text
  pub private_key : Text

-- The argument of `enroll`.
pub record Enrolment : Type 0 where
  pub uid : Text
  pub name : Text
  pub site_id : ℕ
  pub public_key : Text
  pub source : Text
  pub agent_id : Option Text

-- What a call takes from outside: a new id, a new pair of keys, the time.
pub record Fresh : Type 0 where
  pub id : Text
  pub keys : KeyPair
  pub now : ℕ

-- The public key to store, and the private one that goes back to the caller.
unfoldable pub choose_key : Enrolment → Fresh → Result Refusal (Text × Option Text)
choose_key e fresh =
    let key = trim e.public_key in
    if is_empty key
    then ok (fresh.keys.public_key, some fresh.keys.private_key)
    else if is_key_from 42 key
    then ok (key, none)
    else err bad_key

abbrev pub default_source : Option Text → Text
default_source none = codes "agent"
default_source (some key) = codes "manual"

-- The section under the lock.
unfoldable pub enroll_locked :
    Store → Enrolment → Fresh → Text → Option Text → Result Refusal (Store × MeshClient)
enroll_locked s e fresh key private =
    if any (λ c. c.public_key == key) s.clients then err already_enrolled else do
      ip ← next_free_ip s.clients e.site_id
      let client : MeshClient = record {
        id = fresh.id;
        uid = e.uid;
        name = e.name;
        site_id = e.site_id;
        assigned_ip = ip;
        public_key = key;
        exit_site_id = none;
        source = or_text e.source (default_source private);
        agent_id = e.agent_id;
        created_at = fresh.now;
        last_seen_at = 0;
      }
      ok (record s { clients = s.clients ++ client ∷ [] }, client)

unfoldable pub enroll :
    Store → Enrolment → Fresh → Result Refusal (Store × MeshClient × Option Text)
enroll s e fresh =
    if is_empty e.uid then err no_uid else if is_empty e.name then err no_name else do
      id ← addressed (assert_site_id e.site_id)
      chosen ← choose_key e fresh
      done ← enroll_locked s e fresh chosen.0 chosen.1
      ok (done.0, done.1, chosen.1)

unfoldable pub allowed_exits : Store → Text → List ℕ
allowed_exits s uid =
    map (λ m. m.site_id) (filter (λ m. m.exit_open) s.sites)
    ++ map (λ g. g.site_id) (filter (λ g. g.uid == uid) s.grants)

-- `client.update(...)`, on the row with the client's id.
unfoldable pub update_exit : List MeshClient → Text → Option ℕ → List MeshClient
update_exit [] id exit = []
update_exit (c ∷ cs) id exit =
    (if c.id == id then record c { exit_site_id = exit } else c) ∷ update_exit cs id exit

-- `none` is null, undefined or the empty text.
unfoldable pub set_exit : Store → MeshClient → Option ℕ → Bool → Result Refusal Store
set_exit s client none is_admin = ok (record s { clients = update_exit s.clients client.id none })
set_exit s client (some target) is_admin = do
  id ← addressed (assert_site_id target)
  if not is_admin && not (any (λ n. eqb n target) (allowed_exits s client.uid))
      then err (not_permitted target)
      else ok (record s { clients = update_exit s.clients client.id (some target) })

abbrev pub is_grant : Text → ℕ → ExitGrant → Bool
is_grant uid site g = g.uid == uid && eqb g.site_id site

unfoldable pub grant_exit : Store → Text → ℕ → Text → Fresh → Result Refusal (Store × ExitGrant)
grant_exit s uid site by fresh = do
  id ← addressed (assert_site_id site)
  elim (find (is_grant uid site) s.grants) [
    | some existing ↦ ok (s, existing)
    | none ↦
        let grant : ExitGrant = record {
          id = fresh.id;
          uid = uid;
          site_id = site;
          granted_by = by;
          created_at = fresh.now;
        } in
        ok (record s { grants = s.grants ++ grant ∷ [] }, grant)
  ]

-- `where: { uid, exitSiteId }`
abbrev pub uses_exit : Text → ℕ → MeshClient → Bool
uses_exit uid site c = c.uid == uid && (elim c.exit_site_id [ none ↦ false | some n ↦ eqb n site ])

unfoldable pub leave_exit : Text → ℕ → List MeshClient → List MeshClient
leave_exit uid site [] = []
leave_exit uid site (c ∷ cs) =
    (if uses_exit uid site c then record c { exit_site_id = none } else c) ∷ leave_exit uid site cs

unfoldable pub revoke_exit : Store → Text → ℕ → Store × Bool
revoke_exit s uid site = elim (find (is_grant uid site) s.grants) [
  | none ↦ (s, false)
  | some existing ↦ (
    record s {
      clients = leave_exit uid site s.clients;
      grants = filter (λ g. not (g.id == existing.id)) s.grants;
    },
    true,
  )
]
