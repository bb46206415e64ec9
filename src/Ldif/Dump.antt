-- ===== src/Ldif/Dump.antt =====
-- A printed directory read back by nodejs/utils/ldif.js.
use theta_directory.Base.{
  ℕ, suc, split_first, Bool, true, false, ◌&&◌, ◌||◌, List, [], ◌∷◌, ◌++◌, map, all, any, length,
  ltb, starts_with, strip_prefix, to_lower, Text, codes, ◌==◌, eq_iff, eq_refl, get, has, put,
  Distinct, All, append_assoc, append-nil, none, some, Result, ok, ◌>>=◌, ◌≡◌, refl, ap, ◌∙◌, sym,
  arith, is_empty,
}
use theta_directory.Ldif.{
  Fault, Entry, Parse, push_value, finish, pair, take_pair, is_control, check_dns, is_skipped,
  is_version, parse_line, value_of, drop_blank, parse_step, parse_lines, parse_ldif,
}
use theta_directory.Ldif.Lines.{is_name, line_of, with_entry, parse_step-attribute}
use theta_directory.Ldif.Fold.{
  Folded, logical, physical, is_folded, join_with, IsBreak, unfold_lines-physical,
}

abbrev pub Attrs : Type 0
Attrs = List (Text × List Text)

abbrev pub print_attrs : Attrs → List Text
print_attrs [] = []
print_attrs ((name, values) ∷ attrs) = map (line_of name) values ++ print_attrs attrs

abbrev pub print_entry : Entry → List Text
print_entry e = line_of (codes "dn") e.dn ∷ (print_attrs e.attrs ++ [] ∷ [])

abbrev pub print_entries : List Entry → List Text
print_entries [] = []
print_entries (e ∷ es) = print_entry e ++ print_entries es

-- Each name stands once, with a value.
abbrev pub is_attr : Text × List Text → Bool
is_attr (name, values) = is_name name && ltb 0 (length values)

abbrev pub IsPlain : Entry → Type 0
IsPlain e = (all is_attr e.attrs ≡ true) × Distinct e.attrs × (any is_control e.dn ≡ false)

put_new : (m : Attrs) (k : Text) (vs : List Text) → has m k ≡ false → put m k vs ≡ m ++ (k, vs) ∷ []
unfolding put has
put_new [] k vs h = refl
put_new ((j, w) ∷ m) k vs h = ground (arith, put_new m k vs)

get_last :
    (m : Attrs) (k : Text) (vs : List Text) → has m k ≡ false → get (m ++ (k, vs) ∷ []) k ≡ some vs
unfolding get has
get_last [] k vs h = ground (arith, eq_refl k)
get_last ((j, w) ∷ m) k vs h = ground (arith, get_last m k vs)

get_new : (m : Attrs) (k : Text) → has m k ≡ false → get m k ≡ none
unfolding get has
get_new [] k h = refl
get_new ((j, w) ∷ m) k h = ground (arith, get_new m k)

put_last :
    (m : Attrs) (k : Text) (vs ws : List Text)
    → has m k ≡ false
    → put (m ++ (k, vs) ∷ []) k ws ≡ m ++ (k, ws) ∷ []
unfolding put has
put_last [] k vs ws h = ground (arith, eq_refl k)
put_last ((j, w) ∷ m) k vs ws h = ground (arith, put_last m k vs ws)

has_last :
    (m : Attrs) (k j : Text) (vs : List Text) → has (m ++ (k, vs) ∷ []) j ≡ (has m j || k == j)
unfolding has
has_last [] k j vs = ground arith
has_last ((i, w) ∷ m) k j vs = ground (arith, has_last m k j vs)

push_value_new :
    (m : Attrs) (k v : Text) → has m k ≡ false → push_value m k v ≡ m ++ (k, v ∷ []) ∷ []
unfolding push_value
push_value_new m k v h = rw (get_new m k h) (put_new m k (v ∷ []) h)

push_value_last :
    (m : Attrs) (k v : Text) (vs : List Text)
    → has m k ≡ false
    → push_value (m ++ (k, vs) ∷ []) k v ≡ m ++ (k, vs ++ v ∷ []) ∷ []
unfolding push_value
push_value_last m k v vs h = rw (get_last m k vs h) (put_last m k vs (vs ++ v ∷ []) h)

module _ (decode : Text → Text) (es : List Entry) (dn : Text) where
  abbrev inside : Attrs → ℕ → Parse
  inside m n = with_entry decode es (record { dn = dn; attrs = m }) n

  -- The lines that are left are parsed from the attributes that were read.
  Reads : Parse → List Text → Attrs → List Text → Type 0
  Reads p lines m rest =
      (n : ℕ) × (parse_lines decode p (lines ++ rest) ≡ parse_lines decode (inside m n) rest)

  values-Reads :
      (m : Attrs) (k : Text) (vs ws : List Text) (n : ℕ) (rest : List Text)
      → is_name k ≡ true
      → has m k ≡ false
      → Reads (inside (m ++ (k, vs) ∷ []) n) (map (line_of k) ws) (m ++ (k, vs ++ ws) ∷ []) rest
  unfolding Reads parse_lines
  values-Reads m k vs [] n rest h new =
      (n, ap (λ l. parse_lines decode (inside (m ++ (k, l) ∷ []) n) rest) (sym (append-nil vs)))
  values-Reads m k vs (w ∷ ws) n rest h new =
      let (last, tail) = values-Reads m k (vs ++ w ∷ []) ws (suc n) rest h new in
      (
        last,
        ap
              (λ (q : Result Fault Parse).
                q >>= λ p. parse_lines decode p (map (line_of k) ws ++ rest))
              (parse_step-attribute decode es (record { dn = dn; attrs = m ++ (k, vs) ∷ [] }) n k w
                  h
                ∙ ap (λ a. ok (inside a (suc n))) (push_value_last m k w vs new))
            ∙ tail
            ∙ ap (λ l. parse_lines decode (inside (m ++ (k, l) ∷ []) last) rest)
                (append_assoc vs (w ∷ []) ws),
      )

  attr-Reads :
      (m : Attrs) (k : Text) (vs : List Text) (n : ℕ) (rest : List Text)
      → is_attr (k, vs) ≡ true
      → has m k ≡ false
      → Reads (inside m n) (map (line_of k) vs) (m ++ (k, vs) ∷ []) rest
  unfolding Reads parse_lines
  attr-Reads m k [] n rest h new = absurd (ground arith)
  attr-Reads m k (v ∷ vs) n rest h new =
      let (last, tail) = values-Reads m k (v ∷ []) vs (suc n) rest (ground arith) new in
      (
        last,
        ap
              (λ (q : Result Fault Parse).
                q >>= λ p. parse_lines decode p (map (line_of k) vs ++ rest))
              (parse_step-attribute decode es (record { dn = dn; attrs = m }) n k v (ground arith)
                ∙ ap (λ a. ok (inside a (suc n))) (push_value_new m k v new))
            ∙ tail,
      )

  attrs-Reads :
      (m more_attrs : Attrs) (n : ℕ) (rest : List Text)
      → all is_attr more_attrs ≡ true
      → Distinct more_attrs
      → ((j : Text) → has more_attrs j ≡ true → has m j ≡ false)
      → Reads (inside m n) (print_attrs more_attrs) (m ++ more_attrs) rest
  unfolding Reads has
  attrs-Reads m [] n rest h d new =
      (n, ap (λ a. parse_lines decode (inside a n) rest) (sym (append-nil m)))
  attrs-Reads m ((k, vs) ∷ more_attrs) n rest h (fresh, d) new =
      let (middle, first) =
        attr-Reads m k vs n (print_attrs more_attrs ++ rest) (ground arith)
          (new k (ground (arith, eq_refl k))) in
      let (last, more) =
        attrs-Reads (m ++ (k, vs) ∷ []) more_attrs middle rest (ground arith) d
          (λ j g. ground (arith, has_last m k j vs, new j, eq_iff k j, fresh, g)) in
      (
        last,
        ap (λ l. parse_lines decode (inside m n) l)
              (append_assoc (map (line_of k) vs) (print_attrs more_attrs) rest)
            ∙ first
            ∙ more
            ∙ ap (λ a. parse_lines decode (inside a last) rest)
                (append_assoc m ((k, vs) ∷ []) more_attrs),
      )

-- `es` were read and no entry is begun.
abbrev between : List Entry → ℕ → Parse
between es n = record { entries = es; current = none; line_no = n }

check_dns-plain : (es : List Entry) → All IsPlain es → check_dns es ≡ ok es
unfolding check_dns
check_dns-plain [] h = refl
check_dns-plain (e ∷ es) ((names, keys, clean), h) =
    rw clean
      (ap (λ (q : Result Fault (List Entry)). q >>= λ rest. ok (e ∷ rest)) (check_dns-plain es h))

module _ (decode : Text → Text) where
  dn_step :
      (es : List Entry) (dn : Text) (n : ℕ)
      → parse_step decode (between es n) (line_of (codes "dn") dn)
        ≡ ok (with_entry decode es (record { dn = dn; attrs = [] }) (suc n))
  unfolding parse_step is_skipped starts_with ◌==◌ is_version strip_prefix to_lower is_empty
      take_pair parse_line split_first value_of drop_blank pair finish
  dn_step es dn n = refl

  blank_step :
      (es : List Entry) (e : Entry) (n : ℕ)
      → parse_step decode (with_entry decode es e n) [] ≡ ok (between (es ++ e ∷ []) (suc n))
  unfolding parse_step is_empty finish
  blank_step es e n = refl

  entry_reads :
      (es : List Entry) (e : Entry) (n : ℕ) (rest : List Text)
      → IsPlain e
      → (last : ℕ) × (parse_lines decode (between es n) (print_entry e ++ rest)
          ≡ parse_lines decode (between (es ++ e ∷ []) last) rest)
  unfolding parse_lines Reads has
  entry_reads es e n rest (names, keys, clean) =
      let (last, read) =
        attrs-Reads decode es e.dn [] e.attrs (suc n) ([] ∷ rest) names keys (λ j h. refl) in
      (
        suc last,
        ap
              (λ (q : Result Fault Parse).
                q >>= λ p. parse_lines decode p ((print_attrs e.attrs ++ [] ∷ []) ++ rest))
              (dn_step es e.dn n)
            ∙ ap
                (λ l.
                  parse_lines decode
                    (with_entry decode es (record { dn = e.dn; attrs = [] }) (suc n)) l)
                (append_assoc (print_attrs e.attrs) ([] ∷ []) rest)
            ∙ read
            ∙ ap (λ (q : Result Fault Parse). q >>= λ p. parse_lines decode p rest)
                (blank_step es e last),
      )

  entries_read :
      (es new : List Entry) (n : ℕ)
      → All IsPlain new
      → (last : ℕ) × (parse_lines decode (between es n) (print_entries new)
          ≡ ok (between (es ++ new) last))
  unfolding parse_lines
  entries_read es [] n h = (n, ap (λ l. ok (between l n)) (sym (append-nil es)))
  entries_read es (e ∷ new) n (plain, h) =
      let (middle, first) = entry_reads es e n (print_entries new) plain in
      let (last, more) = entries_read (es ++ e ∷ []) new middle h in
      (last, first ∙ more ∙ ap (λ l. ok (between l last)) (append_assoc es (e ∷ []) new))

  -- A directory whose attribute names are plain, and not `constructor`, which every object has, and
  -- whose DNs hold no control character comes back as it was, however its printed lines are folded
  -- and whichever of the three line ends is used.
  pub parse_ldif-print :
      (es : List Entry) (end : Text) (line : Folded) (lines : List Folded)
      → All IsPlain es
      → IsBreak end
      → all is_folded (line ∷ lines) ≡ true
      → map logical (line ∷ lines) ≡ print_entries es
      → parse_ldif decode (some (join_with end (physical (line ∷ lines)))) ≡ ok es
  unfolding parse_ldif finish
  parse_ldif-print es end line lines h b folded same =
      let (last, read) = entries_read [] es 0 h in
      ap
        (λ (ls : List Text).
          parse_lines decode (between [] 0) ls >>= λ p. check_dns (finish p).entries)
        (unfold_lines-physical end line lines b folded ∙ same)
      ∙ ap (λ (q : Result Fault Parse). q >>= λ p. check_dns (finish p).entries) read
      ∙ check_dns-plain es h
