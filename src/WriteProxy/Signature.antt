-- ===== src/WriteProxy/Signature.antt =====
-- nodejs/utils/forwarded_auth_hmac.js: the signature on a forwarded write.
use theta_directory.Base.{
  ℕ, ◌*◌, ◌-◌, ◌≤◌, Bool, true, false, not, ◌||◌, leb, leb→le, Option, none, some, List, ◌∷◌, ◌++◌,
  Text, ◌==◌, eq_iff, is_empty, ◌≡◌, arith, if◌then◌else◌, every, eqb, split_first,
  split_first-mark, some-injective, sym, ap, ◌∙◌,
}

abbrev pub window_ms : ℕ
window_ms = 5 * 60 * 1000

-- `Math.abs(now - t)`
unfoldable pub distance : ℕ → ℕ → ℕ
distance now t = if leb t now then now - t else t - now

-- `hmac` is the hexadecimal HMAC-SHA256 of a message under a key, `bytes` what
-- `Buffer.from(_, 'hex')` reads, and `number` is `Number`
-- on a text that holds a natural number of milliseconds, `none` on one that holds none.
module _ (hmac : Text → Text → Text) (bytes : Text → List ℕ) (number : Text → Option ℕ) where
  unfoldable pub sign : Text → Text → Text → Text → Text
  sign push_token uid ts path = hmac push_token (uid ++ 10 ∷ (ts ++ 10 ∷ path))

  unfoldable pub is_fresh : ℕ → Option ℕ → Bool
  is_fresh now none = false
  is_fresh now (some t) = leb (distance now t) window_ms

  unfoldable pub verify : ℕ → Text → Text → Text → Text → Text → Bool
  verify now push_token uid ts path mac =
      if is_empty push_token || is_empty uid || is_empty ts || is_empty mac
      then false
      else if not (is_fresh now (number ts))
      then false
      else bytes (sign push_token uid ts path) == bytes mac

  abbrev pub is_one_line : Text → Bool
  is_one_line t = every (λ c. not (eqb c 10)) t

  cut :
      (s t s' t' : Text)
      → is_one_line s ≡ true
      → is_one_line s' ≡ true
      → s ++ 10 ∷ t ≡ s' ++ 10 ∷ t'
      → (s ≡ s') × (t ≡ t')
  cut s t s' t' h h' e =
      let both = some-injective (
        sym (split_first-mark 10 s t h)
        ∙ ap (λ (x : Text). split_first 10 x) e
        ∙ split_first-mark 10 s' t' h') in
      (ap (λ p. p.0) both, ap (λ p. p.1) both)

  -- If no two messages share an HMAC under the spoke's token, and neither the callers nor the times,
  -- signed and shown, hold a line break, a signature is accepted for no other caller, time or path
  -- than those it was made for, and only while the clock is within five minutes of its time.
  pub verify-bound :
      (now t : ℕ) (push_token uid uid' ts ts' path path' : Text)
      → ((m m' : Text) → bytes (hmac push_token m) ≡ bytes (hmac push_token m') → m ≡ m')
      → is_one_line uid ≡ true
      → is_one_line uid' ≡ true
      → is_one_line ts ≡ true
      → is_one_line ts' ≡ true
      → number ts' ≡ some t
      → verify now push_token uid' ts' path' (sign push_token uid ts path) ≡ true
      → (uid ≡ uid') × (ts ≡ ts') × (path ≡ path') × (distance now t ≤ 5 * 60 * 1000)
  unfolding verify sign is_fresh
  verify-bound now t push_token uid uid' ts ts' path path' no_collision u u' s s' n h =
      let fresh : is_fresh now (number ts') ≡ true = ground arith in
      let same : bytes (sign push_token uid' ts' path') ≡ bytes (sign push_token uid ts path) =
        ground (
          arith,
          eq_iff (bytes (sign push_token uid' ts' path')) (bytes (sign push_token uid ts path)),
        ) in
      let (same_uid, rest) =
        cut uid (ts ++ 10 ∷ path) uid' (ts' ++ 10 ∷ path') u u' (no_collision _ _ (sym same)) in
      let (same_ts, same_path) = cut ts path ts' path' s s' rest in
      (same_uid, same_ts, same_path, leb→le (distance now t) window_ms (rw n at fresh))
