-- ===== src/Storage/Enrich.antt =====
-- What the storage client tells of a file: buildFileInfo of internal/infra/fs/workspace_fs.go and
-- enrichFileInfo of enrich.go.
pub mod Many
use workspace_service.Base.{
  ℕ, Bool, true, false, ◌||◌, Option, none, some, [], ◌∷◌, ◌++◌, Text, codes, text_eq, is_empty,
  number_key, Map, lookup, if◌then◌else◌, ◌==◌,
}
use workspace_service.Calls.{Call}
use workspace_service.Errors.{Result, ok, err, new_error}
use workspace_service.File.{NodeRecord}
use workspace_service.File.NodeType.{git_folder, infer_node_type_from_name}
use workspace_service.FileInfo.{Actor, FileInfo}
use workspace_service.FilePath.{join, base}
use workspace_service.Os.{Stat}
use workspace_service.Storage.{
  WorkspaceFsClient, TrashMeta, trash_dir_name, is_under_trash, read_trash_meta,
}

module _ {W : Type 0} (c : WorkspaceFsClient W) where
  found_info : Text → Result (Option Stat) → Result FileInfo
  found_info abs_path (err e) = err e
  found_info abs_path (ok none) =
      err (new_error (codes "stat " ++ (abs_path ++ codes ": no such file or directory")))
  found_info abs_path (ok (some info)) = ok (record {
    name = info.name;
    path = abs_path;
    is_dir = info.is_dir;
    size = info.size;
    modify_time = info.mod_time;
    inode_id = info.inode;
    owner_uin = codes "";
    creator_uin = codes "";
    node_type = codes "";
    is_git_folder = false;
    in_recycle = false;
    origin_path = codes "";
  })

  -- WorkspaceFSClient.buildFileInfo
  unfoldable pub build_file_info : Text → W → Result FileInfo
  unfolding found_info
  build_file_info abs_path w = found_info abs_path (c.os.stat abs_path w)

  -- applyNodeRecord
  unfoldable pub apply_node_record : FileInfo → NodeRecord → FileInfo
  apply_node_record info rec =
      if is_empty rec.node_type
      then record info { owner_uin = rec.owner_uin; creator_uin = rec.uin }
      else record info {
        owner_uin = rec.owner_uin;
        creator_uin = rec.uin;
        node_type = rec.node_type;
        is_git_folder = text_eq rec.node_type git_folder;
      }

  found : Result (Option Stat) → Bool
  found (ok (some info)) = true
  found (ok none) = false
  found (err e) = false

  with_inode : FileInfo → Result (Option Stat) → FileInfo
  with_inode info (ok (some st)) = record info { inode_id = st.inode }
  with_inode info (ok none) = info
  with_inode info (err e) = info

  with_row : FileInfo → Option NodeRecord → FileInfo
  unfolding apply_node_record
  with_row info none = info
  with_row info (some rec) = apply_node_record info rec

  with_rows : FileInfo → Result (Map ℕ NodeRecord) → FileInfo
  unfolding with_row lookup
  with_rows info (err e) = info
  with_rows info (ok records) = with_row info (lookup info.inode_id records)

  with_stored : FileInfo → W → FileInfo
  unfolding with_rows
  with_stored info w = if info.inode_id == 0 then info else elim c.store [
    | none ↦ info
    | some store ↦ with_rows info (store.lookup_by_inode_ids (info.inode_id ∷ []) w)
  ]

  with_node_type : FileInfo → FileInfo
  unfolding infer_node_type_from_name
  with_node_type info =
      if is_empty info.node_type
      then record info { node_type = infer_node_type_from_name info.name info.is_dir }
      else info

  with_git_folder : FileInfo → W → FileInfo
  unfolding found join text_eq
  with_git_folder info w = if info.is_git_folder then info else record info {
    is_git_folder =
        text_eq info.node_type git_folder
        || found (c.os.stat (join (info.path ∷ codes ".git" ∷ [])) w);
  }

  with_origin : FileInfo → Result TrashMeta → FileInfo
  with_origin info (err e) = info
  with_origin info (ok meta) = record info { origin_path = meta.original_path }

  with_recycle : Actor → FileInfo → W → FileInfo
  unfolding is_under_trash with_origin read_trash_meta base text_eq
  with_recycle actor info w =
      if is_under_trash c actor info.path
      then (let recycled : FileInfo = record info { in_recycle = true } in
          if text_eq (base info.path) trash_dir_name || text_eq (base info.path) (codes "_meta")
          then recycled
          else with_origin recycled (read_trash_meta c actor (base info.path) w))
      else info

  -- WorkspaceFSClient.enrichFileInfo
  unfoldable pub enrich_file_info : Actor → FileInfo → W → FileInfo
  unfolding with_inode with_stored with_node_type with_git_folder with_recycle
  enrich_file_info actor info w =
      let known : FileInfo =
        if info.inode_id == 0 then with_inode info (c.os.stat info.path w) else info in
      with_recycle actor (with_git_folder (with_node_type (with_stored known w)) w) w

  enriched : Actor → Result FileInfo → W → Result FileInfo × W
  unfolding enrich_file_info
  enriched actor (err e) w = (err e, w)
  enriched actor (ok info) w = (ok (enrich_file_info actor info w), w)

  -- WorkspaceFSClient.buildEnrichedFileInfo
  unfoldable pub build_enriched_file_info : Actor → Text → Call W FileInfo
  unfolding build_file_info enriched
  build_enriched_file_info actor abs_path w = enriched actor (build_file_info abs_path w) w
