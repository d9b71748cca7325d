-- ===== src/Memory/Nodes.antt =====
-- internal/infra/persistence/memory/file_node_store.go
pub mod Laws
pub mod Examples
use workspace_service.Base.{
  ℕ, Bool, Option, none, some, List, [], ◌∷◌, Text, Map, lookup, insert, delete, is_empty,
  if◌then◌else◌, number_key,
}
use workspace_service.File.{NodeMutation, NodeRecord, Outcome}
use workspace_service.File.NodeType.{normalize_node_type, file}

pub record FileNodeStore : Type 0 where
  pub nodes : Map ℕ NodeRecord

-- NewFileNodeStore
abbrev pub new_file_node_store : FileNodeStore
new_file_node_store = record { nodes = [] }

-- The node type of a row: that of a file for one that is not known.
unfoldable pub or_file : Text → Text
or_file node_type = if is_empty node_type then file else node_type

-- The row that UpsertCreatedOrUpdated stores.
unfoldable pub node_record : NodeMutation → NodeRecord
unfolding or_file normalize_node_type
node_record m = record {
  inode_id = m.inode_id;
  owner_uin = m.actor.owner_uin;
  uin = m.actor.uin;
  app_id = m.actor.app_id;
  workspace_id = m.actor.workspace_id;
  node_type = or_file (normalize_node_type m.node_type);
}

-- FileNodeStore.UpsertCreatedOrUpdated
unfoldable pub upsert_created_or_updated : NodeMutation → FileNodeStore → Outcome FileNodeStore
unfolding node_record insert
upsert_created_or_updated m s = (none, record { nodes = insert m.inode_id (node_record m) s.nodes })

-- FileNodeStore.MarkDeleted
unfoldable pub mark_deleted : NodeMutation → FileNodeStore → Outcome FileNodeStore
unfolding delete
mark_deleted m s = (none, record { nodes = delete m.inode_id s.nodes })

add_found : ℕ → Option NodeRecord → Map ℕ NodeRecord → Map ℕ NodeRecord
unfolding insert
add_found id none out = out
add_found id (some rec) out = insert id rec out

lookup_loop : List ℕ → FileNodeStore → Map ℕ NodeRecord → Map ℕ NodeRecord
unfolding add_found lookup
lookup_loop [] s out = out
lookup_loop (id ∷ ids) s out = lookup_loop ids s (add_found id (lookup id s.nodes) out)

-- FileNodeStore.LookupByInodeIDs
unfoldable pub lookup_by_inode_ids : List ℕ → FileNodeStore → Map ℕ NodeRecord
unfolding lookup_loop
lookup_by_inode_ids inode_ids s = lookup_loop inode_ids s []
