-- ===== src/Ldif.antt =====
-- nodejs/utils/ldif.js: the parser of directory dumps.
pub mod Lines
pub mod Fold
pub mod Dump
mod Tests
use theta_directory.Base.{
  ℕ, suc, ◌+◌, Bool, true, false, not, ◌&&◌, ◌||◌, List, [], ◌∷◌, ◌++◌, map, filter, Option, none,
  some, any, length, eqb, ltb, leb, if◌then◌else◌, Text, codes, ◌==◌, includes, is_empty, to_lower,
  trim, is_space, is_digit, every, split, starts_with, split_first, strip_prefix, head?, get_or,
  get, put, Result, ok, err, ◌>>=◌,
}

abbrev pub line_feed : ℕ
line_feed = 10

abbrev pub carriage_return : ℕ
carriage_return = 13

abbrev pub blank : ℕ
blank = 32

abbrev pub colon : ℕ
colon = 58

-- `.replace(/\r\n/g, '\n').replace(/\r/g, '\n')`
unfoldable pub plain_breaks : Text → Text
plain_breaks [] = []
plain_breaks (c ∷ cs) =
    let rest = plain_breaks cs in
    if eqb c carriage_return
    then if starts_with cs (line_feed ∷ []) then rest else line_feed ∷ rest
    else c ∷ rest

-- The loop over the lines that are left, the last line of `out` in hand.
unfoldable pub join_from : Text → List Text → List Text
join_from last [] = last ∷ []
join_from last ([] ∷ lines) = last ∷ join_from [] lines
join_from last ((c ∷ line) ∷ lines) =
    if eqb c blank then join_from (last ++ line) lines else last ∷ join_from (c ∷ line) lines

unfoldable pub join_lines : List Text → List Text
join_lines [] = []
join_lines (line ∷ lines) = join_from line lines

unfoldable pub unfold_lines : Text → List Text
unfold_lines text = join_lines (split line_feed (plain_breaks text))

pub data Fault : Type 0 where
  invalid_base64 : Text → Fault
  url_reference : Text → Fault
  change_record : ℕ → Text → Fault
  control_characters : Text → Fault
  at_line : ℕ → Fault → Fault
  not_a_list : Text → Fault

unfoldable pub is_base64_char : ℕ → Bool
is_base64_char c =
    leb 65 c && leb c 90 || leb 97 c && leb c 122 || leb 48 c && leb c 57 || eqb c 43 || eqb c 47

-- `/^[A-Za-z0-9+/]*={0,2}$/`
unfoldable pub is_base64 : Text → Bool
is_base64 [] = true
is_base64 (c ∷ cs) =
    is_base64_char c && is_base64 cs || eqb c 61 && (is_empty cs || cs == codes "=")

-- `if (rest.startsWith(' ')) rest = rest.slice(1)`
unfoldable pub drop_blank : Text → Text
drop_blank [] = []
drop_blank (c ∷ cs) = if eqb c blank then cs else c ∷ cs

-- `/^version:\s*\d+\s*$/i`
unfoldable pub is_version : Text → Bool
is_version raw = elim (strip_prefix (codes "version:") (to_lower raw)) [
  | none ↦ false
  | some rest ↦ not (is_empty (trim rest)) && every is_digit (trim rest)
]

unfoldable pub is_skipped : Text → Bool
is_skipped raw = starts_with raw (codes "#") || raw == codes "-" || is_version raw

unfoldable pub is_control : ℕ → Bool
is_control c = ltb c 32 || eqb c 127

pub record Entry : Type 0 where
  pub dn : Text
  pub attrs : List (Text × List Text)

pub record Parse : Type 0 where
  pub entries : List Entry
  pub current : Option Entry
  pub line_no : ℕ

-- The names in lower case that every object has: `attrs` is a plain one, and what it finds under them
-- is no list.
unfoldable pub is_inherited : Text → Bool
is_inherited base = base == codes "constructor" || base == codes "__proto__"

-- The list of a name, made if it is missing, with one more value.
unfoldable pub push_value : List (Text × List Text) → Text → Text → List (Text × List Text)
push_value attrs base value = put attrs base (get_or (get attrs base) [] ++ value ∷ [])

-- `current.attrs[base].push(value)`, a TypeError where that is no list.
unfoldable pub add_value :
    List (Text × List Text) → Text → Text → Result Fault (List (Text × List Text))
add_value attrs base value =
    if is_inherited base then err (not_a_list base) else ok (push_value attrs base value)

unfoldable pub finish : Parse → Parse
finish p = elim p.current [
  | none ↦ p
  | some entry ↦ record p { entries = p.entries ++ entry ∷ []; current = none }
]

-- The part of the loop's body behind `dn`: an attribute of the entry in hand.
unfoldable pub attribute : Parse → Text → Text → Result Fault Parse
attribute p name value = elim p.current [
  | none ↦ ok p
  | some entry ↦
      if name == codes "changetype"
      then err (change_record p.line_no value)
      else add_value entry.attrs (get_or (head? (split 59 name)) []) value >>= λ attrs.
          ok (record p { current = some (record entry { attrs = attrs }) })
]

unfoldable pub pair : Parse → Text → Text → Result Fault Parse
pair p name value =
    if name == codes "dn"
    then ok (record (finish p) { current = some (record { dn = value; attrs = [] }) })
    else attribute p name value

unfoldable pub check_dns : List Entry → Result Fault (List Entry)
check_dns [] = ok []
check_dns (e ∷ es) =
    if any is_control e.dn
    then err (control_characters e.dn)
    else check_dns es >>= λ rest. ok (e ∷ rest)

unfoldable pub one : Entry → Text → Text
one entry name = get_or (head? (get_or (get entry.attrs (to_lower name)) [])) []

unfoldable pub all_values : Entry → Text → List Text
all_values entry name = get_or (get entry.attrs (to_lower name)) []

unfoldable pub object_classes : Entry → List Text
object_classes entry = map to_lower (all_values entry (codes "objectClass"))

-- The loop, whether the last character was the escape.
unfoldable pub parent_from : Bool → Text → Text
parent_from escaped [] = []
parent_from true (c ∷ cs) = parent_from false cs
parent_from false (c ∷ cs) =
    let rest = parent_from (eqb c 92) cs in if eqb c 44 then trim cs else rest

unfoldable pub parent_dn : Text → Text
parent_dn dn = parent_from false dn

-- `decode` stands for `Buffer.from(cleaned, 'base64').toString('utf8')`.
module _ (decode : Text → Text) where
  unfoldable pub value_of : Text → Text → Result Fault (Option (Text × Text))
  value_of name rest = elim (strip_prefix (colon ∷ []) rest) [
    | some coded ↦
        let cleaned = filter (λ c. not (is_space c)) (drop_blank coded) in
        if not (is_base64 cleaned)
        then err (invalid_base64 name)
        else ok (some (name, decode cleaned))
    | none ↦ elim (strip_prefix (codes "<") rest) [
      | some url ↦ err (url_reference name)
      | none ↦ ok (some (name, drop_blank rest))
    ]
  ]

  unfoldable pub parse_line : Text → Result Fault (Option (Text × Text))
  parse_line line = elim (split_first colon line) [
    | none ↦ ok none
    | some (name, rest) ↦ value_of name rest
  ]

  -- What the loop does with the answer of `parseLine`.
  unfoldable pub take_pair : Parse → Result Fault (Option (Text × Text)) → Result Fault Parse
  take_pair p (err fault) = err (at_line p.line_no fault)
  take_pair p (ok none) = ok p
  take_pair p (ok (some (name, value))) = pair p (to_lower name) value

  -- The body of the loop.
  unfoldable pub parse_step : Parse → Text → Result Fault Parse
  parse_step before raw =
      let p : Parse = record before { line_no = suc before.line_no } in
      let more = take_pair p (parse_line raw) in
      if is_empty raw then ok (finish p) else if is_skipped raw then ok p else more

  unfoldable pub parse_lines : Parse → List Text → Result Fault Parse
  parse_lines p [] = ok p
  parse_lines p (line ∷ lines) = parse_step p line >>= λ q. parse_lines q lines

  unfoldable pub parse_ldif : Option Text → Result Fault (List Entry)
  parse_ldif none = ok []
  parse_ldif (some text) =
      parse_lines (record { entries = []; current = none; line_no = 0 }) (unfold_lines text)
      >>= λ p. check_dns (finish p).entries
