-- ===== src/Catalog/Lifecycle.antt =====
-- nodejs/services/discovery_reconciler.js: what is forgotten and what is collected.
pub mod Survival
mod Tests
use theta_directory.Base.{
  ℕ, zero, suc, ◌+◌, Bool, true, false, not, ◌&&◌, ◌||◌, List, [], ◌∷◌, map, filter, length, eqb,
  ltb, if◌then◌else◌, Text, codes, ◌==◌, includes, is_empty,
}
use theta_directory.Catalog.{Metadata, Resource}

pub record EdgeRow : Type 0 where
  pub parent_id : Text
  pub child_id : Text
  pub source : Text

pub record Link : Type 0 where
  pub resource_id : Text
  pub group_cn : Text

-- The three tables.
pub record Tables : Type 0 where
  pub resources : List Resource
  pub edges : List EdgeRow
  pub links : List Link

unfoldable pub touches : Text → EdgeRow → Bool
touches id e = e.child_id == id || e.parent_id == id

-- The rows of a resource are deleted: its edges, its links, itself.
unfoldable pub drop_resource : Text → Tables → Tables
drop_resource id t = record {
  resources = filter (λ r. not (r.id == id)) t.resources;
  edges = filter (λ e. not (touches id e)) t.edges;
  links = filter (λ l. not (l.resource_id == id)) t.links;
}

-- `res.update({ metadata })`
unfoldable pub update_metadata : Text → Metadata → Tables → Tables
update_metadata id metadata t = record t {
  resources = map (λ r. if r.id == id then record r { metadata = metadata } else r) t.resources;
}

unfoldable pub is_collectable : Resource → Bool
is_collectable r =
    if r.metadata.managed
    then false
    else not (
        eqb (length r.metadata.discovery_sources) 0
        || includes r.metadata.discovery_sources (codes "manual"))

-- `lastSeen < now - age`, where a missing `lastSeen` is 0 and passes no test.
unfoldable pub is_older : ℕ → ℕ → ℕ → Bool
is_older now age last_seen = not (eqb last_seen 0) && ltb (last_seen + age) now

pub record Collected : Type 0 where
  pub archived : ℕ
  pub purged : ℕ
  pub tables : Tables

-- The body of the loop of `garbageCollect`.
unfoldable pub collect : ℕ → ℕ → ℕ → Collected → Resource → Collected
collect now stale_ms purge_ms c r =
    if not (is_collectable r)
    then c
    else if is_older now purge_ms r.metadata.last_seen
    then record c { purged = suc c.purged; tables = drop_resource r.id c.tables }
    else if is_older now stale_ms r.metadata.last_seen
        && not (r.metadata.lifecycle_state == codes "archived")
    then record c {
      archived = suc c.archived;
      tables =
          update_metadata r.id (record r.metadata { lifecycle_state = codes "archived" }) c.tables;
    }
    else c

unfoldable pub collect_all : ℕ → ℕ → ℕ → Collected → List Resource → Collected
collect_all now stale_ms purge_ms c [] = c
collect_all now stale_ms purge_ms c (r ∷ rs) =
    collect_all now stale_ms purge_ms (collect now stale_ms purge_ms c r) rs

unfoldable pub garbage_collect : ℕ → ℕ → ℕ → Tables → Collected
garbage_collect now stale_ms purge_ms t =
    collect_all now stale_ms purge_ms (record { archived = 0; purged = 0; tables = t }) t.resources

pub record Forgotten : Type 0 where
  pub removed : ℕ
  pub kept : ℕ
  pub edges_removed : ℕ
  pub tables : Tables

unfoldable pub other_sources : Text → Resource → List Text
other_sources source r = filter (λ x. not (x == source)) r.metadata.discovery_sources

unfoldable pub is_promoted : Resource → Bool
is_promoted r = r.metadata.managed || includes r.metadata.discovery_sources (codes "manual")

unfoldable pub is_kept : Text → Bool → Resource → Bool
is_kept source keep_promoted r =
    ltb 0 (length (other_sources source r)) || keep_promoted && is_promoted r

-- An edge from a resource to itself is in both lists.
unfoldable pub edges_at : Text → List EdgeRow → ℕ
edges_at id edges =
    length (filter (λ e. e.child_id == id) edges) + length (filter (λ e. e.parent_id == id) edges)

-- The body of the loop of `forgetSource`.
unfoldable pub forget : Text → Bool → Forgotten → Resource → Forgotten
forget source keep_promoted f r =
    if not (includes r.metadata.discovery_sources source)
    then f
    else if is_kept source keep_promoted r
    then record f {
      kept = suc f.kept;
      tables =
          update_metadata r.id (record r.metadata { discovery_sources = other_sources source r })
            f.tables;
    }
    else record f {
      removed = suc f.removed;
      edges_removed = f.edges_removed + edges_at r.id f.tables.edges;
      tables = drop_resource r.id f.tables;
    }

unfoldable pub forget_all : Text → Bool → Forgotten → List Resource → Forgotten
forget_all source keep_promoted f [] = f
forget_all source keep_promoted f (r ∷ rs) =
    forget_all source keep_promoted (forget source keep_promoted f r) rs

-- The second loop: the edges that the source made.
unfoldable pub drop_edges : Text → Forgotten → Forgotten
drop_edges source f = record f {
  edges_removed = f.edges_removed + length (filter (λ e. e.source == source) f.tables.edges);
  tables = record f.tables { edges = filter (λ e. not (e.source == source)) f.tables.edges };
}

unfoldable pub forget_source : Text → Bool → Tables → Forgotten
forget_source source keep_promoted t =
    let start : Forgotten = record { removed = 0; kept = 0; edges_removed = 0; tables = t } in
    let done = drop_edges source (forget_all source keep_promoted start t.resources) in
    if is_empty source then start else done
