-- ===== src/Inheritance/Tests.antt =====
-- A site with a host that runs a service, in nodejs/services/access_inheritance.js.
use theta_directory.Base.{
  ◌≤◌, List, [], ◌∷◌, some, Text, codes, ◌≡◌, refl, ◌⊎◌, inl, In, has, get, put, Distinct, ◌==◌,
  is_empty, to_lower,
}
use theta_directory.Inheritance.{
  Edge, Level, Levels, rank_of, rank_text, level_of, strongest, apply_own, walk, seed, expand,
  visit, visit_all, children_of, child_index, child_index_from, add_child, effective_grants, run,
}
use theta_directory.Inheritance.Index.{targets, here, step}
use theta_directory.Inheritance.Sound.{Granted}
use theta_directory.Inheritance.Bound.{run_ends}
use theta_directory.Inheritance.Final.{effective_grants_complete, effective_grants_sound}

-- A cycle back to the site closes the graph.
abbrev edges : List Edge
edges =
    record { parent_id = codes "site"; child_id = codes "box" }
    ∷ record { parent_id = codes "box"; child_id = codes "nginx" }
    ∷ record { parent_id = codes "nginx"; child_id = codes "site" }
    ∷ []

abbrev direct : Levels
direct = (codes "site", some (codes "access")) ∷ (codes "box", some (codes "viewer")) ∷ []

direct-Distinct : Distinct direct
unfolding has ◌==◌
direct-Distinct = (refl, (refl, tt))

box_below : In (codes "box") (targets edges (codes "site"))
unfolding targets ◌==◌ is_empty
box_below = inl refl

nginx_below : In (codes "nginx") (targets edges (codes "box"))
unfolding targets ◌==◌ is_empty
nginx_below = inl refl

effective_grants_complete_example :
    rank_of (some (codes "access"))
    ≤ rank_of (level_of (effective_grants direct edges []) (codes "nginx"))
effective_grants_complete_example =
    effective_grants_complete direct edges [] (codes "site") (codes "nginx") (some (codes "access"))
      direct-Distinct (inl refl) (step (step here box_below) nginx_below)

nginx_level : level_of (effective_grants direct edges []) (codes "nginx") ≡ some (codes "access")
unfolding effective_grants run level_of get apply_own walk seed expand rank_of rank_text ◌==◌
    to_lower put visit_all children_of child_index child_index_from add_child is_empty strongest
    visit
nginx_level = refl

effective_grants_sound_example :
    Granted direct edges (codes "nginx") (some (codes "access"))
    ⊎ In {A = Text × Level} (codes "nginx", some (codes "access")) []
effective_grants_sound_example =
    effective_grants_sound direct edges [] (codes "nginx") (codes "access") nginx_level

run_ends_example : (run direct edges).queue ≡ []
run_ends_example = run_ends direct edges
