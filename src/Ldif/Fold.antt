-- ===== src/Ldif/Fold.antt =====
-- Folded lines of nodejs/utils/ldif.js come back whole.
use theta_directory.Base.{
  ℕ, Bool, true, false, not, ◌&&◌, List, [], ◌∷◌, ◌++◌, map, all, eqb, Text, every, starts_with,
  split, split-free, split-mark, every-weaken, append_assoc, append-nil, ◌≡◌, refl, ap, ◌∙◌, sym,
  ◌⊎◌, inl, inr, arith,
}
use theta_directory.Ldif.{
  line_feed, carriage_return, blank, plain_breaks, join_from, join_lines, unfold_lines,
}

-- A logical line, cut into pieces.
abbrev pub Folded : Type 0
Folded = Text × List Text

abbrev pub concat : List Text → Text
concat [] = []
concat (piece ∷ pieces) = piece ++ concat pieces

abbrev pub logical : Folded → Text
logical (first, pieces) = first ++ concat pieces

abbrev pub physical : List Folded → List Text
physical [] = []
physical ((first, pieces) ∷ lines) = first ∷ (map (λ piece. blank ∷ piece) pieces ++ physical lines)

abbrev pub is_text : ℕ → Bool
is_text c = not (eqb c line_feed) && not (eqb c carriage_return)

abbrev pub is_one_line : Text → Bool
is_one_line line = every is_text line

abbrev pub is_folded : Folded → Bool
is_folded (first, pieces) =
    not (starts_with first (blank ∷ [])) && is_one_line first && all is_one_line pieces

abbrev pub join_with : Text → List Text → Text
join_with end [] = []
join_with end (line ∷ []) = line
join_with end (line ∷ next ∷ lines) = line ++ (end ++ join_with end (next ∷ lines))

join_from-pieces :
    (last : Text) (pieces lines : List Text)
    → join_from last (map (λ piece. blank ∷ piece) pieces ++ lines)
      ≡ join_from (last ++ concat pieces) lines
unfolding join_from
join_from-pieces last [] lines = ap (λ l. join_from l lines) (sym (append-nil last))
join_from-pieces last (piece ∷ pieces) lines =
    join_from-pieces (last ++ piece) pieces lines
    ∙ ap (λ l. join_from l lines) (append_assoc last piece (concat pieces))

join_from-first :
    (last first : Text) (lines : List Text)
    → starts_with first (blank ∷ []) ≡ false
    → join_from last (first ∷ lines) ≡ last ∷ join_from first lines
unfolding join_from starts_with
join_from-first last [] lines h = refl
join_from-first last (c ∷ first) lines h = ground arith

join_from-physical :
    (last : Text) (lines : List Folded)
    → all is_folded lines ≡ true
    → join_from last (physical lines) ≡ last ∷ map logical lines
unfolding join_from
join_from-physical last [] h = refl
join_from-physical last ((first, pieces) ∷ lines) h =
    join_from-first last first _ (ground arith)
    ∙ ap (λ (ls : List Text). last ∷ ls)
        (join_from-pieces first pieces (physical lines)
          ∙ join_from-physical (first ++ concat pieces) lines (ground arith))

join_lines-physical :
    (line : Folded) (lines : List Folded)
    → all is_folded lines ≡ true
    → join_lines (physical (line ∷ lines)) ≡ map logical (line ∷ lines)
unfolding join_lines
join_lines-physical (first, pieces) lines h =
    join_from-pieces first pieces (physical lines)
    ∙ join_from-physical (first ++ concat pieces) lines h

abbrev pub IsBreak : Text → Type 0
IsBreak end =
    (end ≡ line_feed ∷ []) ⊎ (end ≡ carriage_return ∷ []) ⊎ (end ≡ carriage_return ∷ line_feed ∷ [])

plain_breaks-line :
    (line t : Text) → is_one_line line ≡ true → plain_breaks (line ++ t) ≡ line ++ plain_breaks t
unfolding plain_breaks
plain_breaks-line [] t h = refl
plain_breaks-line (c ∷ line) t h = ground (arith, plain_breaks-line line t)

starts-join_with :
    (lines : List Text)
    → all is_one_line lines ≡ true
    → starts_with (join_with (carriage_return ∷ []) lines) (line_feed ∷ []) ≡ false
unfolding starts_with
starts-join_with [] h = refl
starts-join_with ([] ∷ []) h = refl
starts-join_with ([] ∷ next ∷ lines) h = refl
starts-join_with ((c ∷ line) ∷ []) h = ground arith
starts-join_with ((c ∷ line) ∷ next ∷ lines) h = ground arith

plain_breaks-break :
    (end : Text) (lines : List Text)
    → IsBreak end
    → all is_one_line lines ≡ true
    → plain_breaks (end ++ join_with end lines) ≡ line_feed ∷ plain_breaks (join_with end lines)
unfolding plain_breaks starts_with
plain_breaks-break end lines (inl e) h = rw e refl
plain_breaks-break end lines (inr (inl e)) h = rw e (rw (starts-join_with lines h) refl)
plain_breaks-break end lines (inr (inr e)) h = rw e refl

plain_breaks-join :
    (end : Text) (lines : List Text)
    → IsBreak end
    → all is_one_line lines ≡ true
    → plain_breaks (join_with end lines) ≡ join_with (line_feed ∷ []) lines
unfolding plain_breaks
plain_breaks-join end [] b h = refl
plain_breaks-join end (line ∷ []) b h =
    ap plain_breaks (sym (append-nil line))
    ∙ plain_breaks-line line [] (ground arith)
    ∙ append-nil line
plain_breaks-join end (line ∷ next ∷ lines) b h =
    plain_breaks-line line (end ++ join_with end (next ∷ lines)) (ground arith)
    ∙ ap (λ (t : Text). line ++ t)
        (plain_breaks-break end (next ∷ lines) b (ground arith)
          ∙ ap (λ (t : Text). line_feed ∷ t)
              (plain_breaks-join end (next ∷ lines) b (ground arith)))

no_feed : (line : Text) → is_one_line line ≡ true → every (λ c. not (eqb c line_feed)) line ≡ true
no_feed line = every-weaken is_text (λ c. not (eqb c line_feed)) line (λ c h. ground arith)

split-join :
    (line : Text) (lines : List Text)
    → all is_one_line (line ∷ lines) ≡ true
    → split line_feed (join_with (line_feed ∷ []) (line ∷ lines)) ≡ line ∷ lines
split-join line [] h = split-free line_feed line (no_feed line (ground arith))
split-join line (next ∷ lines) h =
    split-mark line_feed line (join_with (line_feed ∷ []) (next ∷ lines))
      (no_feed line (ground arith))
    ∙ ap (λ (ls : List Text). line ∷ ls) (split-join next lines (ground arith))

all-append :
    (xs ys : List Text)
    → all is_one_line xs ≡ true
    → all is_one_line ys ≡ true
    → all is_one_line (xs ++ ys) ≡ true
all-append [] ys h k = k
all-append (x ∷ xs) ys h k = ground (arith, all-append xs ys)

all-pieces :
    (pieces : List Text)
    → all is_one_line pieces ≡ true
    → all is_one_line (map (λ piece. blank ∷ piece) pieces) ≡ true
all-pieces [] h = refl
all-pieces (piece ∷ pieces) h = ground (arith, all-pieces pieces)

all-physical :
    (lines : List Folded) → all is_folded lines ≡ true → all is_one_line (physical lines) ≡ true
all-physical [] h = refl
all-physical ((first, pieces) ∷ lines) h =
    let tail =
      all-append (map (λ piece. blank ∷ piece) pieces) (physical lines)
        (all-pieces pieces (ground arith)) (all-physical lines (ground arith)) in
    ground (arith, tail)

-- Lines cut into pieces, each piece after the first behind one blank on a line of its own, come
-- back whole, under any of the three line ends.
pub unfold_lines-physical :
    (end : Text) (line : Folded) (lines : List Folded)
    → IsBreak end
    → all is_folded (line ∷ lines) ≡ true
    → unfold_lines (join_with end (physical (line ∷ lines))) ≡ map logical (line ∷ lines)
unfolding unfold_lines
unfold_lines-physical end (first, pieces) lines b h =
    let one_lines = all-physical ((first, pieces) ∷ lines) h in
    ap (λ t. join_lines (split line_feed t))
      (plain_breaks-join end (physical ((first, pieces) ∷ lines)) b one_lines)
    ∙ ap join_lines (split-join first _ one_lines)
    ∙ join_lines-physical (first, pieces) lines (ground arith)
