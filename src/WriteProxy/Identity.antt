-- ===== src/WriteProxy/Identity.antt =====
-- In whose name nodejs/middleware/spoke_write_proxy.js forwards.
use theta_directory.Base.{
  true, false, List, [], ◌∷◌, ◌++◌, Option, none, some, Text, codes, ◌==◌, eq_sound, includes,
  is_empty, to_lower, get, put, get-put, get-put_self, ◌≡◌, ◌↔◌, ◌≢◌, refl, ap, ◌∙◌, sym, subst,
  inl, inr, arith, if◌then◌else◌, Bool-cases, Option-cases, none≢some, some-injective,
}
use mathlib.Core.Bool.{true≢false}
use theta_directory.WriteProxy.Owned.{IsOwned, should_forward_iff}
use theta_directory.WriteProxy.{
  Headers, Body, no_body, json, plain, Request, SiteConfig, Stores, present, resolve_caller,
  dropped_headers, copy_headers, with_body, body_text, absolute_path, should_forward, mutating,
  trim_slash, forward_headers, pass_on, no_master, unregistered, forward, decide,
}

get-put_apart :
    (m : Headers) (k j : Text) (v : Text) → (k == j) ≡ false → get (put m k v) j ≡ get m j
get-put_apart m k j v h = ground (arith, get-put m k j v)

copy_headers-dropped :
    (j : Text) (out headers : Headers)
    → includes dropped_headers j ≡ true
    → get out j ≡ none
    → get (copy_headers out headers) j ≡ none
unfolding copy_headers
copy_headers-dropped j out [] d h = h
copy_headers-dropped j out ((k, v) ∷ more) d h =
    copy_headers-dropped j
      (if includes dropped_headers (to_lower k) then out else put out (to_lower k) v) more d
      (elim (Bool-cases (includes dropped_headers (to_lower k))) [
        | inl gone ↦ rw gone h
        | inr kept ↦ elim (Bool-cases (to_lower k == j)) [
          | inl same ↦
              let kept_j : includes dropped_headers j ≡ false =
                subst (λ t. includes dropped_headers t ≡ false) (eq_sound (to_lower k) j same)
                  kept in
              absurd (true≢false (sym d ∙ kept_j))
          | inr apart ↦ rw kept (get-put_apart out (to_lower k) j v apart ∙ h)
        ]
      ])

pass_on≢forward :
    {method url body : Text} {headers : Headers} → pass_on ≢ forward method url headers body
pass_on≢forward h = ground arith

no_master≢forward :
    {method url body : Text} {headers : Headers} → no_master ≢ forward method url headers body
no_master≢forward h = ground arith

unregistered≢forward :
    {method url body : Text} {headers : Headers} → unregistered ≢ forward method url headers body
unregistered≢forward h = ground arith

-- The keys that are set after the client's headers were copied.
abbrev own_headers : List Text
own_headers =
    codes "authorization"
    ∷ codes "x-forwarded-user"
    ∷ codes "x-forwarded-spoke"
    ∷ codes "x-forwarded-for"
    ∷ codes "x-forwarded-proto"
    ∷ codes "x-forwarded-ts"
    ∷ codes "x-forwarded-mac"
    ∷ codes "content-type"
    ∷ []

module _ (sign : Text → Text → Text → Text → Text) where
  get-with_body :
      (b : Body) (h : Headers) (j : Text)
      → (codes "content-type" == j) ≡ false
      → get (with_body b h) j ≡ get h j
  unfolding with_body
  get-with_body no_body h j e = refl
  get-with_body (json t) h j e = get-put_apart h (codes "content-type") j _ e
  get-with_body (plain t) h j e = refl

  kept_from_client :
      (cfg : SiteConfig) (req : Request) (uid ts j : Text)
      → includes own_headers j ≡ false
      → get (forward_headers sign cfg req uid ts) j ≡ get (copy_headers [] req.headers) j
  unfolding forward_headers includes
  kept_from_client cfg req uid ts j h =
      get-with_body req.body _ j (ground arith)
      ∙ get-put_apart _ _ j _ (ground arith)
      ∙ get-put_apart _ _ j _ (ground arith)
      ∙ get-put_apart _ _ j _ (ground arith)
      ∙ get-put_apart _ _ j _ (ground arith)
      ∙ get-put_apart _ _ j _ (ground arith)
      ∙ get-put_apart _ _ j _ (ground arith)
      ∙ get-put_apart _ _ j _ (ground arith)

  -- Whatever headers a client sends, the request that is forwarded carries the spoke's own token,
  -- the resolved caller and a signature over both, and neither the client's cookie nor its session.
  pub forward_headers-identity :
      (cfg : SiteConfig) (req : Request) (uid ts : Text)
      → (get (forward_headers sign cfg req uid ts) (codes "authorization")
          ≡ some (codes "Bearer " ++ cfg.push_token))
        × (get (forward_headers sign cfg req uid ts) (codes "x-forwarded-user") ≡ some uid)
        × (get (forward_headers sign cfg req uid ts) (codes "x-forwarded-mac")
            ≡ some (sign cfg.push_token uid ts (absolute_path req)))
        × (get (forward_headers sign cfg req uid ts) (codes "cookie") ≡ none)
        × (get (forward_headers sign cfg req uid ts) (codes "auth-token") ≡ none)
  unfolding forward_headers ◌==◌ includes get
  forward_headers-identity cfg req uid ts = (
    get-with_body req.body _ _ refl
        ∙ get-put_apart _ _ _ _ refl
        ∙ get-put_apart _ _ _ _ refl
        ∙ get-put_apart _ _ _ _ refl
        ∙ get-put_apart _ _ _ _ refl
        ∙ get-put_apart _ _ _ _ refl
        ∙ get-put_apart _ _ _ _ refl
        ∙ get-put_self _ _ _,
    get-with_body req.body _ _ refl
        ∙ get-put_apart _ _ _ _ refl
        ∙ get-put_apart _ _ _ _ refl
        ∙ get-put_apart _ _ _ _ refl
        ∙ get-put_apart _ _ _ _ refl
        ∙ get-put_apart _ _ _ _ refl
        ∙ get-put_self _ _ _,
    get-with_body req.body _ _ refl ∙ get-put_self _ _ _,
    kept_from_client cfg req uid ts (codes "cookie") refl
        ∙ copy_headers-dropped _ [] req.headers refl refl,
    kept_from_client cfg req uid ts (codes "auth-token") refl
        ∙ copy_headers-dropped _ [] req.headers refl refl,
  )

  present-some :
      (o : Option Text) (uid : Text)
      → present o ≡ some uid
      → (o ≡ some uid) × (is_empty uid ≡ false)
  unfolding present
  present-some none uid h = absurd (none≢some h)
  present-some (some caller) uid h = elim (Bool-cases (is_empty caller)) [
    | inl empty ↦ absurd (none≢some (rw empty at h))
    | inr given ↦
        let same : caller ≡ uid = some-injective (rw given at h) in
        (ap some same, subst (λ c. is_empty c ≡ false) same given)
  ]

  -- What a request that is forwarded has passed, and what it says.
  pub record IsForwarding (cfg : SiteConfig) (stores : Stores) (req : Request)
      (ts method url : Text) (headers : Headers) (body : Text) : Type 0 where
    pub on_spoke : cfg.is_master ≡ false
    pub is_write : includes mutating req.method ≡ true
    pub is_owned_by_master : IsOwned (absolute_path req)
    pub has_master : is_empty (trim_slash cfg.master_url) ≡ false
    pub is_registered : is_empty cfg.push_token ≡ false
    pub to_master : url ≡ trim_slash cfg.master_url ++ req.url
    pub caller : Text
    pub is_caller : resolve_caller stores req ≡ some caller
    pub is_named : is_empty caller ≡ false
    pub same_method : method ≡ req.method
    pub says : headers ≡ forward_headers sign cfg req caller ts
    pub same_body : body ≡ body_text req.body

  decide_sound :
      (cfg : SiteConfig) (stores : Stores) (req : Request) (ts method url : Text)
      (headers : Headers) (body : Text)
      → decide sign cfg stores req ts ≡ forward method url headers body
      → IsForwarding cfg stores req ts method url headers body
  unfolding decide
  decide_sound cfg stores req ts method url headers body h = elim (Bool-cases cfg.is_master) [
    | inl master ↦ absurd (pass_on≢forward (rw master at h))
    | inr spoke ↦ elim (Bool-cases (includes mutating req.method)) [
      | inr read ↦ absurd (pass_on≢forward (rw (spoke, read) at h))
      | inl write ↦ elim (Bool-cases (should_forward (absolute_path req))) [
        | inr own ↦ absurd (pass_on≢forward (rw (spoke, write, own) at h))
        | inl owned ↦ elim (Bool-cases (is_empty (trim_slash cfg.master_url))) [
          | inl lost ↦ absurd (no_master≢forward (rw (spoke, write, owned, lost) at h))
          | inr known ↦ elim (Bool-cases (is_empty cfg.push_token)) [
            | inl stranger ↦
                absurd (unregistered≢forward (rw (spoke, write, owned, known, stranger) at h))
            | inr registered ↦ elim (Option-cases (present (resolve_caller stores req))) [
              | inl nobody ↦
                  absurd
                    (pass_on≢forward (rw (spoke, write, owned, known, registered, nobody) at h))
              | inr (uid, found) ↦
                  let answer = rw (spoke, write, owned, known, registered, found) at h in
                  let (is_caller, is_named) = present-some (resolve_caller stores req) uid found in
                  record {
                    on_spoke = spoke;
                    is_write = write;
                    is_owned_by_master = (should_forward_iff (absolute_path req)).0 owned;
                    has_master = known;
                    is_registered = registered;
                    to_master = ground arith;
                    caller = uid;
                    is_caller = is_caller;
                    is_named = is_named;
                    same_method = ground arith;
                    says = ground arith;
                    same_body = ground arith;
                  }
            ]
          ]
        ]
      ]
    ]
  ]

  decide_complete :
      (cfg : SiteConfig) (stores : Stores) (req : Request) (ts method url : Text)
      (headers : Headers) (body : Text)
      → IsForwarding cfg stores req ts method url headers body
      → decide sign cfg stores req ts ≡ forward method url headers body
  unfolding decide present
  decide_complete cfg stores req ts method url headers body h =
      rw
        (
          h.on_spoke,
          h.is_write,
          (should_forward_iff (absolute_path req)).1 h.is_owned_by_master,
          h.has_master,
          h.is_registered,
          h.is_caller,
          h.is_named,
        )
        (rw (h.same_method, h.to_master, h.says, h.same_body) refl)

  -- A spoke forwards exactly the writes in the master's areas that are neither a promotion nor a
  -- command for an agent, when it knows the master, holds its own token and resolved the caller
  -- itself to a name that is not empty. It keeps the method, the query and the body, and signs as
  -- that caller.
  pub decide-IsForwarding :
      (cfg : SiteConfig) (stores : Stores) (req : Request) (ts method url : Text)
      (headers : Headers) (body : Text)
      → (decide sign cfg stores req ts ≡ forward method url headers body)
        ↔ IsForwarding cfg stores req ts method url headers body
  decide-IsForwarding cfg stores req ts method url headers body = (
    decide_sound cfg stores req ts method url headers body,
    decide_complete cfg stores req ts method url headers body,
  )
