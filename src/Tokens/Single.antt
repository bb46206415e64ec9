-- ===== src/Tokens/Single.antt =====
-- One code of a user at a time, and once: `issue` and `verify` of nodejs/models/token.js.
use theta_directory.Base.{
  ℕ, ◌+◌, ◌≤◌, Bool, true, false, ◌&&◌, List, [], ◌∷◌, map, find, find-In, find-none, none, some,
  is_some, if◌then◌else◌, Text, ◌==◌, eq_iff, eq_refl, In, In-append, In-append_right, ◌≡◌, ◌≢◌,
  ◌↔◌, refl, sym, ap, ◌∙◌, ◌⊎◌, inl, inr, arith, Bool-cases, Option-cases, none≢some, subst,
}
use theta_directory.Tokens.{Otp, retire, issue, is_expired, is_match, spend, verify}

-- The rows that calls of `issue` and `verify` lead to, one call after the other.
pub data Reachable : List Otp → Type 0 where
  empty : Reachable []
  issued :
      (rows : List Otp) (now : ℕ) (token code uid method : Text)
      → Reachable rows
      → Reachable (issue now token code uid method rows)
  verified :
      (rows : List Otp) (now : ℕ) (uid code : Text)
      → Reachable rows
      → Reachable (verify now uid code rows).1

-- A user has one valid row at most.
abbrev pub IsSingle : List Otp → Type 0
IsSingle rows =
    (a b : Otp)
    → In a rows
    → In b rows
    → a.is_valid ≡ true
    → b.is_valid ≡ true
    → a.uid ≡ b.uid
    → a ≡ b

-- A row that is valid behind a step that clears the flag of some was so before, and is none of them.
map-valid :
    (hit : Otp → Bool) (rows : List Otp) (r : Otp)
    → In r (map (λ t. if hit t then record t { is_valid = false } else t) rows)
    → r.is_valid ≡ true
    → In r rows × (hit r ≡ false)
map-valid hit (t ∷ rows) r (inr deep) valid =
    let rest = map-valid hit rows r deep valid in (inr rest.0, rest.1)
map-valid hit (t ∷ rows) r (inl here) valid = elim (Bool-cases (hit t)) [
  | inl cleared ↦
      let off : r ≡ record t { is_valid = false } = rw cleared at here in
      absurd (ground (arith, valid, ap (λ x. x.is_valid) off))
  | inr kept ↦
      let same : r ≡ t = rw kept at here in (inl same, subst (λ x. hit x ≡ false) (sym same) kept)
]
map-valid hit [] r none_left valid = absurd none_left

module _ (now : ℕ) (uid code : Text) where
  -- Without a valid row the user's code is refused.
  refuses :
      (rows : List Otp)
      → ((r : Otp) → In r rows → r.uid ≡ uid → r.is_valid ≡ true → ⊥)
      → (verify now uid code rows).0 ≡ none
  unfolding verify is_match
  refuses rows h = elim (Option-cases (find (is_match now uid code) rows)) [
    | inl absent ↦ rw (absent, verify) refl
    | inr (t, found) ↦
        let hit = find-In (is_match now uid code) rows t found in
        absurd (h t hit.0 ((eq_iff t.uid uid).0 (ground (arith, hit.1))) (ground (arith, hit.1)))
  ]

retire-valid :
    (uid : Text) (rows : List Otp) (r : Otp)
    → In r (retire uid rows)
    → r.is_valid ≡ true
    → In r rows × (r.uid ≢ uid)
unfolding retire
retire-valid uid rows r h valid =
    let old = map-valid (λ t. t.uid == uid && t.is_valid) rows r h valid in
    (old.0, λ same. absurd (ground (arith, old.1, valid, (eq_iff r.uid uid).1 same)))

spend-valid :
    (token : Text) (rows : List Otp) (r : Otp)
    → In r (spend token rows)
    → r.is_valid ≡ true
    → In r rows × (r.token ≢ token)
unfolding spend
spend-valid token rows r h valid =
    let old = map-valid (λ t. t.token == token) rows r h valid in
    (old.0, λ same. absurd (ground (arith, old.1, (eq_iff r.token token).1 same)))

-- The row that `issue` adds.
abbrev new_row : ℕ → Text → Text → Text → Text → Otp
new_row now token code uid method = record {
  token = token;
  uid = uid;
  code = code;
  method = method;
  is_valid = true;
  expires_at = now + 600000;
}

module _ (now : ℕ) (token code uid method : Text) (rows : List Otp) where
  -- A valid row is the new one, or an old one of another user.
  issue-valid :
      (r : Otp)
      → In r (issue now token code uid method rows)
      → r.is_valid ≡ true
      → (r ≡ new_row now token code uid method) ⊎ (In r rows × (r.uid ≢ uid))
  unfolding issue
  issue-valid r h valid = elim (In-append r (retire uid rows) _ h) [
    | inl old ↦ inr (retire-valid uid rows r old valid)
    | inr last ↦ elim last [ inl here ↦ inl here | inr none_left ↦ absurd none_left ]
  ]

  issue-IsSingle : IsSingle rows → IsSingle (issue now token code uid method rows)
  issue-IsSingle h a b in_a in_b valid_a valid_b same = elim (issue-valid a in_a valid_a) [
    | inl a_new ↦ elim (issue-valid b in_b valid_b) [
      | inl b_new ↦ a_new ∙ sym b_new
      | inr b_old ↦ absurd (b_old.1 (sym same ∙ ap (λ x. x.uid) a_new))
    ]
    | inr a_old ↦ elim (issue-valid b in_b valid_b) [
      | inl b_new ↦ absurd (a_old.1 (same ∙ ap (λ x. x.uid) b_new))
      | inr b_old ↦ h a b a_old.0 b_old.0 valid_a valid_b same
    ]
  ]

verify-valid :
    (now : ℕ) (uid code : Text) (rows : List Otp) (r : Otp)
    → In r (verify now uid code rows).1
    → r.is_valid ≡ true
    → In r rows
unfolding verify
verify-valid now uid code rows r h valid = elim (Option-cases (find (is_match now uid code) rows)) [
  | inl absent ↦ rw (absent, verify) at h
  | inr (t, found) ↦ (spend-valid t.token rows r (rw (found, verify) at h) valid).0
]

-- However codes are issued and verified, one call after the other, a user has one valid code at
-- most.
pub reachable-IsSingle : (rows : List Otp) → Reachable rows → IsSingle rows
reachable-IsSingle rows empty = λ a b in_a. absurd in_a
reachable-IsSingle _ (issued rows now token code uid method before) =
    issue-IsSingle now token code uid method rows (reachable-IsSingle rows before)
reachable-IsSingle _ (verified rows now uid code before) = λ a b in_a in_b valid_a valid_b same.
    reachable-IsSingle rows before a b (verify-valid now uid code rows a in_a valid_a)
      (verify-valid now uid code rows b in_b valid_b) valid_a valid_b same

verify-found :
    (now : ℕ) (uid code : Text) (rows : List Otp) (m : Otp)
    → find (is_match now uid code) rows ≡ some m
    → verify now uid code rows ≡ (some m, spend m.token rows)
unfolding verify
verify-found now uid code rows m found = rw (found, verify) refl

-- No row of the user is valid.
abbrev IsSpent : Text → List Otp → Type 0
IsSpent uid rows = (r : Otp) → In r rows → r.uid ≡ uid → r.is_valid ≡ true → ⊥

-- What follows without a new code for the user: calls of `verify` for anyone, and codes that are
-- issued to others.
pub data Later (uid : Text) : List Otp → List Otp → Type 0 where
  at_once : (rows : List Otp) → Later uid rows rows
  then_verified :
      (rows after : List Otp) (now : ℕ) (other code : Text)
      → Later uid rows after
      → Later uid rows (verify now other code after).1
  then_issued :
      (rows after : List Otp) (now : ℕ) (token code other method : Text)
      → other ≢ uid
      → Later uid rows after
      → Later uid rows (issue now token code other method after)

Later-IsSpent :
    (uid : Text) (rows after : List Otp)
    → Later uid rows after
    → IsSpent uid rows
    → IsSpent uid after
Later-IsSpent uid rows _ (at_once _) h = h
Later-IsSpent uid rows _ (then_verified _ after now other code before) h = λ r here of_user valid.
    Later-IsSpent uid rows after before h r (verify-valid now other code after r here valid) of_user
      valid
Later-IsSpent uid rows _ (then_issued _ after now token code other method apart before) h =
    λ r here of_user valid. elim (issue-valid now token code other method after r here valid) [
      | inl new ↦ apart (ap (λ x. x.uid) (sym new) ∙ of_user)
      | inr old ↦ Later-IsSpent uid rows after before h r old.0 of_user valid
    ]

verify-IsSpent :
    (rows : List Otp)
    → Reachable rows
    → (now : ℕ) (uid code : Text) (t : Otp) → (verify now uid code rows).0 ≡ some t
    → IsSpent uid (verify now uid code rows).1
unfolding verify is_match
verify-IsSpent rows reachable now uid code t e =
    elim (Option-cases (find (is_match now uid code) rows)) [
      | inl absent ↦ absurd (none≢some (rw (absent, verify) at e))
      | inr (m, found) ↦
          let hit = find-In (is_match now uid code) rows m found in
          let owner : m.uid ≡ uid = (eq_iff m.uid uid).0 (ground (arith, hit.1)) in
          let valid : m.is_valid ≡ true = ground (arith, hit.1) in
          let gone : IsSpent uid (spend m.token rows) = λ r here of_user live.
            let old = spend-valid m.token rows r here live in
            old.1 (
              ap (λ x. x.token)
                (reachable-IsSingle rows reachable r m old.0 hit.0 live valid
                  (of_user ∙ sym owner))) in
          subst (IsSpent uid) (sym (ap (λ p. p.1) (verify-found now uid code rows m found))) gone
    ]

-- A code that was accepted is used up: whatever codes are tried after it, by anyone, and whatever
-- codes are issued to others, one call after the other, every code of the user is refused until a
-- new one is issued to them.
pub verify-once :
    (rows : List Otp)
    → Reachable rows
    → (now later : ℕ) (uid code other : Text) (t : Otp) (after : List Otp)
    → (verify now uid code rows).0 ≡ some t
    → Later uid (verify now uid code rows).1 after
    → (verify later uid other after).0 ≡ none
verify-once rows reachable now later uid code other t after e follows =
    refuses later uid other after
      (Later-IsSpent uid _ after follows (verify-IsSpent rows reachable now uid code t e))

-- Right after a code was issued it is the one code that the user is let in with, for ten minutes.
pub issue-verify :
    (rows : List Otp) (now later : ℕ) (token code uid method given : Text)
    → (is_some (verify later uid given (issue now token code uid method rows)).0 ≡ true)
      ↔ ((code ≡ given) × (later ≤ now + 600000))
unfolding verify is_match is_expired issue
issue-verify rows now later token code uid method given =
    let all : List Otp = issue now token code uid method rows in
    let fresh : Otp = new_row now token code uid method in
    let last : In fresh all = In-append_right fresh (retire uid rows) (fresh ∷ []) (inl refl) in
    elim (Option-cases (find (is_match later uid given) all)) [
      | inl absent ↦ (
        λ e. absurd (ground (arith, rw (absent, verify) at e)),
        λ h.
            let fails = find-none (is_match later uid given) all fresh absent last in
            absurd (ground (arith, fails, eq_refl uid, (eq_iff code given).1 h.0, h.1)),
      )
      | inr (m, found) ↦
          let hit = find-In (is_match later uid given) all m found in
          (
            λ e. elim (issue-valid now token code uid method rows m hit.0 (ground (arith, hit.1))) [
              | inl same ↦
                  let at_new : is_match later uid given fresh ≡ true =
                    subst (λ x. is_match later uid given x ≡ true) same hit.1 in
                  ((eq_iff code given).0 (ground (arith, at_new)), ground (arith, at_new))
              | inr old ↦ absurd (old.1 ((eq_iff m.uid uid).0 (ground (arith, hit.1))))
            ],
            λ h. rw (found, verify) refl,
          )
    ]
