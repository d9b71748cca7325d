-- ===== src/InodeRecord.antt =====
-- internal/infra/fs/inode_record.go: the ownership row for a path on the mount. `none` is a nil store.
use workspace_service.Base.{Option, none, some, Text, codes, is_empty, if◌then◌else◌}
use workspace_service.Errors.{Result, ok, err}
use workspace_service.File.{NodeStore}
use workspace_service.File.NodeType.{node_type_from_dir}
use workspace_service.FileInfo.{Actor}
use workspace_service.FsService.Recorder.{to_node_actor}
use workspace_service.Os.{Os, Stat}

module _ {W : Type 0} (os : Os W) where
  upsert : NodeStore W → Actor → Text → Result (Option Stat) → W → W
  unfolding to_node_actor node_type_from_dir
  upsert store actor node_type (err e) w = w
  upsert store actor node_type (ok none) w = w
  upsert store actor node_type (ok (some info)) w =
      (store.upsert_created_or_updated
        (record {
          inode_id = info.inode;
          actor = to_node_actor actor;
          node_type = if is_empty node_type then node_type_from_dir info.is_dir else node_type;
        })
        w).1

  -- RecordInode
  unfoldable pub record_inode : Option (NodeStore W) → Actor → Text → Text → W → W
  unfolding upsert
  record_inode none actor abs_path node_type w = w
  record_inode (some store) actor abs_path node_type w =
      upsert store actor node_type (os.stat abs_path w) w

  -- recordUpsert
  unfoldable pub record_upsert : Option (NodeStore W) → Actor → Text → W → W
  unfolding record_inode
  record_upsert store actor abs_path = record_inode store actor abs_path (codes "")
