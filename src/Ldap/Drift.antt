-- ===== src/Ldap/Drift.antt =====
-- `replicationDrift` of nodejs/utils/ldap_replication.js.
use theta_directory.Base.{
  ℕ, Bool, true, false, not, ◌||◌, List, [], ◌∷◌, map, filter, Option, none, some, eqb, eqb_iff,
  Text, eq_iff, includes, is_empty, In, ◌≡◌, ◌↔◌, refl, sym, inl, inr, arith, Bool-cases, none≢some,
  ◌∙◌, subst, some-injective,
}
use theta_directory.Ldap.{Peer}

abbrev no_texts : List Text → Bool
no_texts [] = true
no_texts (t ∷ ts) = false

-- A value that cannot be told is none.
pub record Drift : Type 0 where
  pub expected_peers : List Text
  pub server_id_stale : Option Bool
  pub peers_stale : Option Bool
  pub stale : Option Bool
  pub missing_peers : List Text
  pub extra_peers : List Text

unfoldable pub expected_hosts : List Peer → List Text
expected_hosts peers = filter (λ h. not (is_empty h)) (map (λ p. p.ldap_host) peers)

unfoldable pub without : List Text → List Text → List Text
without hosts set = filter (λ h. not (includes set h)) hosts

unfoldable pub id_stale : Option ℕ → Option ℕ → Option Bool
id_stale none advertised = none
id_stale (some own) none = none
id_stale (some own) (some id) = some (not (eqb own id))

-- `!!x`
abbrev pub is_true : Option Bool → Bool
is_true none = false
is_true (some b) = b

-- The advertised id and peers, and the id and the peers that slapd runs with.
unfoldable pub replication_drift : Option ℕ → List Peer → Option ℕ → Option (List Text) → Drift
replication_drift advertised peers own none = record {
  expected_peers = expected_hosts peers;
  server_id_stale = none;
  peers_stale = none;
  stale = none;
  missing_peers = [];
  extra_peers = [];
}
replication_drift advertised peers own (some running) =
    let missing = without (expected_hosts peers) running in
    let extra = without running (expected_hosts peers) in
    let peers_stale = not (no_texts missing) || not (no_texts extra) in
    record {
      expected_peers = expected_hosts peers;
      server_id_stale = id_stale own advertised;
      peers_stale = some peers_stale;
      stale = some (is_true (id_stale own advertised) || peers_stale);
      missing_peers = missing;
      extra_peers = extra;
    }

includes_iff : (ts : List Text) (t : Text) → (includes ts t ≡ true) ↔ In t ts
unfolding includes
includes_iff [] t = ground arith
includes_iff (s ∷ ts) t = ground (arith, eq_iff s t, includes_iff ts t)

without_nil_iff :
    (hosts set : List Text)
    → (no_texts (without hosts set) ≡ true) ↔ ((h : Text) → In h hosts → In h set)
unfolding without
without_nil_iff [] set = (λ e h none_left. absurd none_left, λ each. refl)
without_nil_iff (t ∷ ts) set = elim (Bool-cases (includes set t)) [
  | inl there ↦
      rw (there, no_texts)
        (
          λ e h has. elim has [
            | inl here ↦ subst (λ x. In x set) (sym here) ((includes_iff set t).0 there)
            | inr deep ↦ (without_nil_iff ts set).0 e h deep
          ],
          λ each. (without_nil_iff ts set).1 (λ h deep. each h (inr deep)),
        )
  | inr lacks ↦
      rw (lacks, no_texts)
        (
          λ e. absurd (ground (arith, e)),
          λ each. absurd (ground (arith, lacks, (includes_iff set t).1 (each t (inl refl)))),
        )
]

-- Ids differ only if both are known.
abbrev pub IsSameId : Option ℕ → Option ℕ → Type 0
IsSameId own advertised = (m n : ℕ) → own ≡ some m → advertised ≡ some n → m ≡ n

id_stale_iff :
    (own advertised : Option ℕ)
    → (is_true (id_stale own advertised) ≡ false) ↔ IsSameId own advertised
unfolding id_stale
id_stale_iff none advertised = (λ e m n k. absurd (none≢some k), λ h. refl)
id_stale_iff (some m) none = (λ e m' n k k'. absurd (none≢some k'), λ h. refl)
id_stale_iff (some m) (some n) = (
  λ e m' n' k k'. sym (some-injective k) ∙ ground (arith, e, eqb_iff m n) ∙ some-injective k',
  λ h. ground (arith, h m n refl refl, eqb_iff m n),
)

-- The report says that nothing is stale exactly if slapd's peers could be read, they are the
-- expected ones, and the ids do not differ as far as both are known.
pub replication_drift_iff :
    (advertised own : Option ℕ) (peers : List Peer) (running : Option (List Text))
    → ((replication_drift advertised peers own running).stale ≡ some false) ↔ (
        (hosts : List Text) × (running ≡ some hosts)
        × ((h : Text) → In h (expected_hosts peers) ↔ In h hosts)
        × IsSameId own advertised)
unfolding replication_drift
replication_drift_iff advertised own peers none =
    (λ e. absurd (none≢some e), λ h. absurd (none≢some h.1))
replication_drift_iff advertised own peers (some hosts) =
    let expected : List Text = expected_hosts peers in
    let missing = without_nil_iff expected hosts in
    let extra = without_nil_iff hosts expected in
    let ids = id_stale_iff own advertised in
    (
      λ e. (
        hosts,
        refl,
        λ h. (missing.0 (ground (arith, e)) h, extra.0 (ground (arith, e)) h),
        ids.0 (ground (arith, e)),
      ),
      λ h.
          let same : hosts ≡ h.0 = some-injective h.1 in
          let agrees : (t : Text) → In t expected ↔ In t hosts =
            λ t. subst (λ x. In t expected ↔ In t x) (sym same) (h.2 t) in
          ground (arith, ids.1 h.3, missing.1 (λ t. (agrees t).0), extra.1 (λ t. (agrees t).1)),
    )
