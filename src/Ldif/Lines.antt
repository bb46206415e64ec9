-- ===== src/Ldif/Lines.antt =====
-- One line of a dump in nodejs/utils/ldif.js.
use theta_directory.Base.{
  ℕ, suc, split_first-mark, Bool, true, false, not, ◌&&◌, ◌||◌, List, [], ◌∷◌, ◌++◌, eqb, leb, Text,
  codes, ◌==◌, eq_iff, is_empty, every, every-weaken, starts_with, strip_prefix, to_lower,
  split-free, none, some, ok, err, ◌≡◌, refl, ap, ◌∙◌, arith, if◌then◌else◌,
}
use theta_directory.Ldif.{
  colon, blank, url_reference, value_of, parse_line, drop_blank, is_version, Entry, Parse,
  is_inherited, push_value, add_value, attribute, pair, take_pair, is_skipped, parse_step,
}

abbrev pub no_colon : Text → Bool
no_colon name = every (λ c. not (eqb c colon)) name

abbrev pub is_name_char : ℕ → Bool
is_name_char c = leb 97 c && leb c 122 || leb 48 c && leb c 57 || eqb c 45

-- A name in lower case without options, of which the parser makes nothing else, and that a plain
-- object does not have.
abbrev pub is_name : Text → Bool
is_name name =
    not (is_empty name)
    && every is_name_char name
    && not (name == codes "dn")
    && not (name == codes "changetype")
    && not (name == codes "version")
    && not (is_inherited name)

abbrev pub line_of : Text → Text → Text
line_of name value = name ++ colon ∷ blank ∷ value

to_lower-name : (name : Text) → every is_name_char name ≡ true → to_lower name ≡ name
unfolding to_lower
to_lower-name [] h = refl
to_lower-name (c ∷ name) h = ground (arith, to_lower-name name)

to_lower-append : (s t : Text) → to_lower (s ++ t) ≡ to_lower s ++ to_lower t
unfolding to_lower
to_lower-append [] t = refl
to_lower-append (c ∷ s) t = ground (arith, to_lower-append s t)

strip_prefix-colon :
    (word name t : Text)
    → no_colon word ≡ true
    → no_colon name ≡ true
    → strip_prefix (word ++ colon ∷ []) (name ++ colon ∷ t)
      ≡ (if word == name then some t else none)
unfolding strip_prefix ◌==◌
strip_prefix-colon [] [] t h k = refl
strip_prefix-colon [] (d ∷ name) t h k = ground arith
strip_prefix-colon (c ∷ word) [] t h k = ground arith
strip_prefix-colon (c ∷ word) (d ∷ name) t h k = ground (arith, strip_prefix-colon word name t)

name_no_colon : (name : Text) → every is_name_char name ≡ true → no_colon name ≡ true
name_no_colon name = every-weaken is_name_char (λ c. not (eqb c colon)) name (λ c h. ground arith)

name_no_semicolon :
    (name : Text) → every is_name_char name ≡ true → every (λ c. not (eqb c 59)) name ≡ true
name_no_semicolon name = every-weaken is_name_char (λ c. not (eqb c 59)) name (λ c h. ground arith)

not_version :
    (name value : Text)
    → every is_name_char name ≡ true
    → (name == codes "version") ≡ false
    → is_version (line_of name value) ≡ false
unfolding is_version to_lower
not_version name value h k =
    let lower =
      to_lower-append name (colon ∷ blank ∷ value)
      ∙ ap (λ (s : Text). s ++ to_lower (colon ∷ blank ∷ value)) (to_lower-name name h) in
    let apart : (codes "version" == name) ≡ false =
      ground (arith, eq_iff name (codes "version"), eq_iff (codes "version") name) in
    let stripped : strip_prefix (codes "version:") (to_lower (line_of name value)) ≡ none =
      ap (λ (s : Text). strip_prefix (codes "version:") s) lower
      ∙ strip_prefix-colon (codes "version") name (to_lower (blank ∷ value)) refl
          (name_no_colon name h)
      ∙ rw apart refl in
    rw (stripped, is_version) refl

not_marked :
    (name value : Text)
    → is_empty name ≡ false
    → every is_name_char name ≡ true
    → (starts_with (line_of name value) (codes "#") || line_of name value == codes "-") ≡ false
unfolding starts_with ◌==◌ is_empty
not_marked [] value n h = absurd (ground arith)
not_marked (c ∷ []) value n h = ground arith
not_marked (c ∷ d ∷ name) value n h = ground arith

not_skipped :
    (name value : Text)
    → is_empty name ≡ false
    → every is_name_char name ≡ true
    → (name == codes "version") ≡ false
    → is_skipped (line_of name value) ≡ false
unfolding is_skipped
not_skipped name value n h k = ground (arith, not_version name value h k, not_marked name value n h)

line_not_empty : (name value : Text) → is_empty (line_of name value) ≡ false
unfolding is_empty
line_not_empty [] value = refl
line_not_empty (c ∷ name) value = refl

pair-attribute :
    (es : List Entry) (e : Entry) (n : ℕ) (name value : Text)
    → is_name name ≡ true
    → pair (record { entries = es; current = some e; line_no = n }) (to_lower name) value
      ≡ ok (record {
        entries = es;
        current = some (record e { attrs = push_value e.attrs name value });
        line_no = n;
      })
unfolding pair attribute add_value
pair-attribute es e n name value h =
    let chars : every is_name_char name ≡ true = ground arith in
    let not_dn : (name == codes "dn") ≡ false = ground arith in
    let not_change : (name == codes "changetype") ≡ false = ground arith in
    let own : is_inherited name ≡ false = ground arith in
    rw (to_lower-name name chars) (
      rw (not_dn, not_change)
        (rw (split-free 59 name (name_no_semicolon name chars)) (rw (own, add_value) refl)))

module _ (decode : Text → Text) where
  -- A name, a colon, a blank and any value whatever give back the name and the value.
  pub parse_line-line_of :
      (name value : Text)
      → no_colon name ≡ true
      → parse_line decode (line_of name value) ≡ ok (some (name, value))
  unfolding parse_line value_of drop_blank strip_prefix
  parse_line-line_of name value h =
      rw (split_first-mark colon name (blank ∷ value) h, parse_line) refl

  -- A value by reference is refused, whatever it refers to, and so is no file read.
  pub parse_line-url :
      (name url : Text)
      → no_colon name ≡ true
      → parse_line decode (name ++ colon ∷ (codes "<" ++ url)) ≡ err (url_reference name)
  unfolding parse_line value_of strip_prefix
  parse_line-url name url h = rw (split_first-mark colon name (codes "<" ++ url) h, parse_line) refl

  abbrev pub with_entry : List Entry → Entry → ℕ → Parse
  with_entry es e n = record { entries = es; current = some e; line_no = n }

  pub parse_step-attribute :
      (es : List Entry) (e : Entry) (n : ℕ) (name value : Text)
      → is_name name ≡ true
      → parse_step decode (with_entry es e n) (line_of name value)
        ≡ ok (with_entry es (record e { attrs = push_value e.attrs name value }) (suc n))
  unfolding parse_step take_pair
  parse_step-attribute es e n name value h =
      rw (parse_line-line_of name value (name_no_colon name (ground arith))) (
        rw (not_skipped name value (ground arith) (ground arith) (ground arith))
          (rw (line_not_empty name value) (pair-attribute es e (suc n) name value h)))
