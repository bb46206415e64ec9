-- ===== src/Inheritance/Index.antt =====
-- The index of children in nodejs/services/access_inheritance.js, and walks along its edges.
use theta_directory.Base.{
  ◌||◌, List, [], ◌∷◌, ◌++◌, ◌≡◌, ◌∙◌, arith, if◌then◌else◌, Text, ◌==◌, eq_iff, is_empty, get,
  get-put, get_or, In, append-nil, append_assoc,
}
use theta_directory.Inheritance.{Edge, add_child, child_index_from, child_index, children_of}

-- The children that the edges give a node, in order.
unfoldable pub targets : List Edge → Text → List Text
targets [] id = []
targets (e ∷ es) id =
    let rest = targets es id in
    if is_empty e.parent_id || is_empty e.child_id
    then rest
    else if e.parent_id == id
    then e.child_id ∷ rest
    else rest

children_of-add_child :
    (index : List (Text × List Text)) (e : Edge) (es : List Edge) (id : Text)
    → children_of (add_child index e) id ++ targets es id
      ≡ children_of index id ++ targets (e ∷ es) id
unfolding children_of add_child targets
children_of-add_child index e es id = ground (
  arith,
  get-put index e.parent_id id (get_or (get index e.parent_id) [] ++ e.child_id ∷ []),
  eq_iff e.parent_id id,
  append_assoc (get_or (get index e.parent_id) []) (e.child_id ∷ []) (targets es id),
)

children_of-child_index_from :
    (index : List (Text × List Text)) (es : List Edge) (id : Text)
    → children_of (child_index_from index es) id ≡ children_of index id ++ targets es id
unfolding child_index_from targets
children_of-child_index_from index [] id = rw append-nil
children_of-child_index_from index (e ∷ es) id =
    children_of-child_index_from (add_child index e) es id ∙ children_of-add_child index e es id

-- The index holds exactly the children that the edges give.
pub children_of-child_index :
    (es : List Edge) (id : Text) → children_of (child_index es) id ≡ targets es id
unfolding child_index children_of get
children_of-child_index es id = unfold child_index in children_of-child_index_from [] es id

-- `id` stands at or below `root`.
pub data Below (edges : List Edge) (root : Text) : Text → Type 0 where
  here : Below edges root root
  step : {p c : Text} → Below edges root p → In c (targets edges p) → Below edges root c
