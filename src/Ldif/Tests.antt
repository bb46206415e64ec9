-- ===== src/Ldif/Tests.antt =====
-- A small dump for nodejs/utils/ldif.js.
use theta_directory.Base.{
  List, [], ◌∷◌, some, codes, ◌≡◌, refl, inl, ok, has, ◌==◌, is_empty, starts_with,
}
use theta_directory.Ldif.{Entry, is_control, is_inherited, parse_ldif, line_feed}
use theta_directory.Ldif.Fold.{Folded, physical, join_with}
use theta_directory.Ldif.Dump.{parse_ldif-print}

abbrev dump : List Entry
dump =
    record {
      dn = codes "uid=ada,dc=x";
      attrs =
          (codes "uid", codes "ada" ∷ []) ∷ (codes "mail", codes " a@x" ∷ codes "b@x" ∷ []) ∷ [];
    }
    ∷ []

-- The first line is folded, the others are not.
abbrev first_line : Folded
first_line = (codes "dn: uid=ada", codes ",dc=x" ∷ [])

abbrev more_lines : List Folded
more_lines =
    (codes "uid: ada", []) ∷ (codes "mail:  a@x", []) ∷ (codes "mail: b@x", []) ∷ ([], []) ∷ []

parse_ldif-print_example :
    parse_ldif (λ t. t) (some (join_with (line_feed ∷ []) (physical (first_line ∷ more_lines))))
    ≡ ok dump
unfolding starts_with has ◌==◌ is_empty is_control is_inherited
parse_ldif-print_example =
    parse_ldif-print (λ t. t) dump (line_feed ∷ []) first_line more_lines
      ((refl, (refl, (refl, tt)), refl), tt) (inl refl) refl refl
