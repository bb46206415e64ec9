-- ===== src/Mesh/Client/Enroll.antt =====
-- Enrolment in nodejs/utils/mesh_clients.js gives each device an address and a key of its own.
use theta_directory.Base.{
  ℕ, false, List, [], ◌∷◌, ◌++◌, ◌≡◌, subst, ◌≢◌, ◌⊎◌, inl, inr, Option, arith, any, Text, ◌==◌,
  eq_iff, includes, first_from, first_from_found, first_from-none, ◌≤◌, ok, err, All, All-append,
  Bool-cases, Option-cases, Result-cases,
}
use theta_directory.Mesh.Addressing.{assert_site_id, client_ip, max_index, ten}
use theta_directory.Mesh.Addressing.Pool.{client_ip_injective, client_ip_range}
use theta_directory.Mesh.Client.{
  MeshClient, Store, Refusal, exhausted, taken_at, is_free, next_free_ip, Enrolment, Fresh,
  choose_key, enroll_locked, enroll,
}

-- The device's address is one of its site's pool.
abbrev pub IsPooled : MeshClient → Type 0
IsPooled c = (n : ℕ) × (client_ip c.site_id n ≡ ok c.assigned_ip)

-- Two devices share neither an address nor a key.
pub record Differ (c d : MeshClient) : Type 0 where
  pub ip : c.assigned_ip ≢ d.assigned_ip
  pub key : c.public_key ≢ d.public_key

abbrev pub Apart : List MeshClient → Type 0
Apart [] = Unit
Apart (c ∷ cs) = All (Differ c) cs × Apart cs

pub record IsValid (s : Store) : Type 0 where
  pub pooled : All IsPooled s.clients
  pub apart : Apart s.clients

Apart-append :
    (cs : List MeshClient) (d : MeshClient)
    → Apart cs
    → All (λ c. Differ c d) cs
    → Apart (cs ++ d ∷ [])
Apart-append [] d h k = (tt, tt)
Apart-append (c ∷ cs) d (h, hs) (k, ks) =
    (All-append (Differ c) cs (d ∷ []) h (k, tt), Apart-append cs d hs ks)

-- The address found is in the site's pool, and no device of the site has it.
pub next_free_ip_sound :
    (cs : List MeshClient) (site : ℕ) (ip : Text)
    → next_free_ip cs site ≡ ok ip
    → ((n : ℕ) × (client_ip site n ≡ ok ip)) × (includes (taken_at cs site) ip ≡ false)
unfolding next_free_ip assert_site_id
next_free_ip_sound cs site ip h = elim (Option-cases (first_from (is_free cs site) max_index 1)) [
  | inl missing ↦ absurd (ground (arith, missing))
  | inr (n, found) ↦
      let (free, low, high, least) = first_from_found (is_free cs site) max_index 1 n found in
      let address : client_ip site n ≡ ok ip = ground (arith, found) in
      ((n, address), unfold is_free in ground (arith, free, address))
]

-- The search for an address at a site ends: with an address, or with the refusal that the pool is
-- exhausted, and then no index of the pool is free.
pub next_free_ip_total :
    (cs : List MeshClient) (site n : ℕ)
    → 1 ≤ site
    → site ≤ 254
    → 1 ≤ n
    → n ≤ max_index
    → ((ip : Text) × (next_free_ip cs site ≡ ok ip))
      ⊎ ((next_free_ip cs site ≡ err (exhausted site)) × (is_free cs site n ≡ false))
unfolding next_free_ip assert_site_id
next_free_ip_total cs site n s0 s1 n0 n1 =
    elim (Option-cases (first_from (is_free cs site) max_index 1)) [
      | inl missing ↦ inr (
        ground (arith, missing),
        first_from-none (is_free cs site) max_index 1 missing n n0 (omega arith),
      )
      | inr (k, found) ↦
          let (free, low, high, least) = first_from_found (is_free cs site) max_index 1 k found in
          let (third, fourth, address, t0, t1, f0, f1) =
            client_ip_range site k s0 s1 low (omega arith) in
          inl (ten site third fourth, ground (arith, found, address))
    ]

taken-ne :
    (cs : List MeshClient) (site : ℕ) (ip : Text)
    → includes (taken_at cs site) ip ≡ false
    → All (λ c. c.site_id ≡ site → c.assigned_ip ≢ ip) cs
unfolding taken_at includes
taken-ne [] site ip h = tt
taken-ne (c ∷ cs) site ip h =
    (λ at same. ground (arith, eq_iff c.assigned_ip ip), taken-ne cs site ip (ground arith))

next_cases :
    (cs : List MeshClient) (site : ℕ)
    → ((ip : Text) × (next_free_ip cs site ≡ ok ip))
      ⊎ ((r : Refusal) × (next_free_ip cs site ≡ err r))
next_cases cs site = Result-cases (next_free_ip cs site)

fresh_keys :
    (cs : List MeshClient) (key : Text)
    → any (λ c. c.public_key == key) cs ≡ false
    → All (λ c. c.public_key ≢ key) cs
fresh_keys [] key h = tt
fresh_keys (c ∷ cs) key h =
    (ground (arith, eq_iff c.public_key key), fresh_keys cs key (ground arith))

new-Differ :
    (cs : List MeshClient) (d : MeshClient)
    → IsPooled d
    → All IsPooled cs
    → All (λ c. c.site_id ≡ d.site_id → c.assigned_ip ≢ d.assigned_ip) cs
    → All (λ c. c.public_key ≢ d.public_key) cs
    → All (λ c. Differ c d) cs
new-Differ [] d p ps a k = tt
new-Differ (c ∷ cs) d (n, e) ((m, f), ps) (a, as') (k, ks) = (
  record {
    ip = λ same.
        let own : client_ip c.site_id m ≡ ok d.assigned_ip = cc in
        a (client_ip_injective c.site_id d.site_id m n d.assigned_ip own e).0 same;
    key = k;
  },
  new-Differ cs d (n, e) ps as' ks,
)

-- An enrolment that succeeds keeps every device at an address of its site's pool and every two
-- devices, of whatever sites, apart in address and key.
pub enroll_locked-IsValid :
    (s : Store) (e : Enrolment) (fresh : Fresh) (key : Text) (private : Option Text) (t : Store)
    (c : MeshClient)
    → IsValid s
    → enroll_locked s e fresh key private ≡ ok (t, c)
    → IsValid t
unfolding enroll_locked
enroll_locked-IsValid s e fresh key private t c v h =
    elim (Bool-cases (any (λ d. d.public_key == key) s.clients)) [
      | inl clash ↦ absurd (ground (arith, clash))
      | inr unknown ↦ elim (next_cases s.clients e.site_id) [
        | inr (refusal, full) ↦ absurd (ground (arith, unknown, full))
        | inl (ip, found) ↦
            let (pool, free) = next_free_ip_sound s.clients e.site_id ip found in
            let stored : t.clients ≡ s.clients ++ c ∷ [] = ground (arith, unknown, found) in
            let at : c.site_id ≡ e.site_id = ground (arith, unknown, found) in
            let address : c.assigned_ip ≡ ip = ground (arith, unknown, found) in
            let named : c.public_key ≡ key = ground (arith, unknown, found) in
            let own : IsPooled c = (pool.0, cc (pool.1)) in
            let differ =
              new-Differ s.clients c own v.pooled
                (rw (at, address) (taken-ne s.clients e.site_id ip free))
                (rw named (fresh_keys s.clients key unknown)) in
            record {
              pooled = rw stored (All-append IsPooled s.clients (c ∷ []) v.pooled (own, tt));
              apart = rw stored (Apart-append s.clients c v.apart differ);
            }
      ]
    ]

-- An enrolment that succeeds leaves every device of a valid store, the new one included, at an
-- address of its site's pool, and every two devices apart in address and key.
pub enroll-IsValid :
    (s : Store) (e : Enrolment) (fresh : Fresh) (t : Store) (c : MeshClient) (private : Option Text)
    → IsValid s
    → enroll s e fresh ≡ ok (t, c, private)
    → IsValid t
unfolding enroll
enroll-IsValid s e fresh t c private v h = elim (Result-cases (choose_key e fresh)) [
  | inr (refusal, bad) ↦ absurd (ground (arith, bad))
  | inl ((key, secret), chosen) ↦ elim (Result-cases (enroll_locked s e fresh key secret)) [
    | inr (refusal, bad) ↦ absurd (ground (arith, chosen, bad))
    | inl ((t', c'), done) ↦
        let same : t' ≡ t = ground (arith, chosen, done) in
        subst IsValid same (enroll_locked-IsValid s e fresh key secret t' c' v done)
  ]
]
