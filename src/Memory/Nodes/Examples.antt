-- ===== src/Memory/Nodes/Examples.antt =====
-- An instance of the lookup of several inodes.
use workspace_service.Base.{◌≡◌, codes, [], ◌∷◌, none, lookup, number_key, if◌then◌else◌}
use workspace_service.Memory.Nodes.{FileNodeStore, lookup_by_inode_ids}
use workspace_service.Memory.Nodes.Laws.{asked, lookup-lookup_by_inode_ids}

abbrev pub one_row : FileNodeStore
one_row = record {
  nodes =
      (
        42,
        record {
          inode_id = 42;
          owner_uin = codes "1";
          uin = codes "1";
          app_id = codes "a";
          workspace_id = codes "w";
          node_type = codes "file";
        },
      )
      ∷ [];
}

lookup-lookup_by_inode_ids_example :
    lookup 42 (lookup_by_inode_ids (7 ∷ 42 ∷ []) one_row)
    ≡ (if asked 42 (7 ∷ 42 ∷ []) then lookup 42 one_row.nodes else none)
lookup-lookup_by_inode_ids_example = lookup-lookup_by_inode_ids 42 (7 ∷ 42 ∷ []) one_row
