-- ===== src/Storage/Writes.antt =====
-- The operations of internal/infra/fs/workspace_fs.go that write, and those that read one file.
use workspace_service.Base.{
  ℕ, Bool, not, ◌&&◌, ◌||◌, Option, none, some, List, [], ◌∷◌, ◌++◌, Text, codes, text_eq,
  if◌then◌else◌, ltb,
}
use workspace_service.Calls.{Call}
use workspace_service.Errors.{
  Error, Result, ok, err, sentinel, prefix_wrap, not_found, already_exists, not_a_file,
  file_too_large, invalid_request,
}
use workspace_service.File.{Outcome}
use workspace_service.File.NodeType.{notebook}
use workspace_service.FileInfo.{
  Actor, FileInfo, CreateFolderReq, CreateFileReq, CreateNotebookReq, MovePathReq, RenamePathReq,
  WriteFileReq, ReadFileReq, ReadFileResult,
}
use workspace_service.FilePath.{join, clean, dir, base}
use workspace_service.FsService.Recorder.{to_node_actor}
use workspace_service.InodeRecord.{record_upsert}
use workspace_service.Os.{Stat}
use workspace_service.Storage.{WorkspaceFsClient, after}
use workspace_service.Storage.Enrich.{build_enriched_file_info}

-- 32 MiB
abbrev pub max_inline_read_size : ℕ
max_inline_read_size = 33554432

-- samePath
unfoldable pub same_path : Text → Text → Bool
unfolding clean text_eq
same_path a b = text_eq (clean a) (clean b)

abbrev pub as_it_is : Error → Error
as_it_is e = e

module _ {W : Type 0} (c : WorkspaceFsClient W) where
  -- A step of atomicWriteFile, after which the temporary file is removed if it failed.
  unfoldable pub or_remove : Text → Outcome W → (W → Outcome W) → Outcome W
  or_remove tmp (some e, w) rest = (some e, (c.os.remove tmp w).1)
  or_remove tmp (none, w) rest = rest w

  -- The same with the cleanup that closes the file first.
  unfoldable pub or_cleanup : Text → Outcome W → (W → Outcome W) → Outcome W
  or_cleanup tmp (some e, w) rest = (some e, (c.os.remove tmp (c.os.close_temp tmp w).1).1)
  or_cleanup tmp (none, w) rest = rest w

  unfoldable pub write_and_rename : Text → List ℕ → Result Text × W → Outcome W
  unfolding or_remove or_cleanup
  write_and_rename dst content (err e, w) = (some e, w)
  write_and_rename dst content (ok tmp, w) = or_cleanup tmp (c.os.write_temp tmp content w) λ w.
      or_cleanup tmp (c.os.sync_temp tmp w) λ w. or_remove tmp (c.os.close_temp tmp w) λ w.
        or_remove tmp (c.os.chmod tmp w) λ w. or_remove tmp (c.os.rename tmp dst w) λ w. (none, w)

  -- atomicWriteFile
  unfoldable pub atomic_write_file : Text → List ℕ → W → Outcome W
  unfolding write_and_rename dir base
  atomic_write_file dst content w =
      write_and_rename dst content
        (c.os.create_temp (dir dst) (codes "." ++ (base dst ++ codes ".wstmp-*")) w)

  -- WorkspaceFSClient.CreateFolder
  unfoldable pub create_folder : CreateFolderReq → Call W FileInfo
  unfolding build_enriched_file_info
  create_folder req w =
      after (prefix_wrap (codes "create folder")) (c.os.mkdir_all req.path w)
        (build_enriched_file_info c req.actor req.path)

  -- What stands in the way of a file to be written.
  unfoldable pub file_in_the_way : Bool → Result (Option Stat) → Option Error
  file_in_the_way overwrite (ok none) = none
  file_in_the_way overwrite (err e) = some e
  file_in_the_way overwrite (ok (some info)) =
      if info.is_dir
      then some (sentinel not_a_file)
      else if overwrite
      then none
      else some (sentinel already_exists)

  -- WorkspaceFSClient.CreateFile
  unfoldable pub create_file : CreateFileReq → Call W FileInfo
  unfolding file_in_the_way atomic_write_file dir build_enriched_file_info
  create_file req w =
      after (prefix_wrap (codes "create parent dir")) (c.os.mkdir_all (dir req.path) w) λ w.
        after as_it_is (file_in_the_way req.overwrite (c.os.stat req.path w), w)
          λ w.
            after (prefix_wrap (codes "write file")) (atomic_write_file req.path req.content w)
              (build_enriched_file_info c req.actor req.path)

  -- WorkspaceFSClient.WriteFile
  unfoldable pub write_file : WriteFileReq → Call W FileInfo
  unfolding create_file
  write_file req = create_file (record {
    actor = req.actor;
    path = req.path;
    content = req.content;
    overwrite = req.overwrite;
  })

  as_notebook : Result FileInfo × W → Result FileInfo × W
  as_notebook (ok info, w) = (ok (record info { node_type = notebook }), w)
  as_notebook (err e, w) = (err e, w)

  notebook_of : CreateNotebookReq → Result FileInfo × W → Result FileInfo × W
  unfolding as_notebook build_enriched_file_info
  notebook_of req (err e, w) = (err e, w)
  notebook_of req (ok info, w) = as_notebook (build_enriched_file_info c req.actor req.path w)

  -- WorkspaceFSClient.CreateNotebook
  unfoldable pub create_notebook : CreateNotebookReq → Call W FileInfo
  unfolding create_file notebook_of
  create_notebook req w = notebook_of req (
      create_file
        (record {
          actor = req.actor;
          path = req.path;
          content = c.default_notebook req.kernel_name;
          overwrite = req.overwrite;
        })
        w)

  -- The row of an inode marked as deleted; its error is dropped.
  unfoldable pub mark_row_deleted : Actor → Stat → W → W
  unfolding to_node_actor
  mark_row_deleted actor info w = elim c.store [
    | none ↦ w
    | some store ↦
        (store.mark_deleted
          (record { inode_id = info.inode; actor = to_node_actor actor; node_type = codes "" }) w).1
  ]

  -- What stands in the way of a move or copy to a path, or the making of its parent directory.
  unfoldable pub way_to : Text → Bool → Stat → Result (Option Stat) → W → Outcome W
  unfolding dir
  way_to dest overwrite src_info (ok none) w = c.os.mkdir_all (dir dest) w
  way_to dest overwrite src_info (err e) w = (some e, w)
  way_to dest overwrite src_info (ok (some dest_info)) w =
      if (src_info.is_dir && not dest_info.is_dir) || (not src_info.is_dir && dest_info.is_dir)
      then (some (sentinel invalid_request), w)
      else if overwrite
      then (none, w)
      else (some (sentinel already_exists), w)

  unfoldable pub moved : Actor → Text → Text → Bool → Result (Option Stat) → Call W FileInfo
  unfolding same_path way_to mark_row_deleted record_upsert build_enriched_file_info
  moved actor src dest overwrite (ok none) w = (err (sentinel not_found), w)
  moved actor src dest overwrite (err e) w = (err e, w)
  moved actor src dest overwrite (ok (some src_info)) w =
      if same_path src dest
      then build_enriched_file_info c actor src w
      else after as_it_is (way_to dest overwrite src_info (c.os.stat dest w) w) λ w.
        after (prefix_wrap (codes "move"))
          (c.os.rename src dest (mark_row_deleted actor src_info w))
          λ w. build_enriched_file_info c actor dest (record_upsert c.os c.store actor dest w)

  -- WorkspaceFSClient.renameOrMove
  unfoldable pub rename_or_move : Actor → Text → Text → Bool → Call W FileInfo
  unfolding moved
  rename_or_move actor src dest overwrite w = moved actor src dest overwrite (c.os.stat src w) w

  -- WorkspaceFSClient.MovePath
  unfoldable pub move_path : MovePathReq → Call W FileInfo
  unfolding rename_or_move
  move_path req = rename_or_move req.actor req.src_path req.dest_path req.overwrite

  -- WorkspaceFSClient.RenamePath
  unfoldable pub rename_path : RenamePathReq → Call W FileInfo
  unfolding rename_or_move join dir
  rename_path req =
      rename_or_move req.actor req.path (join (dir req.path ∷ req.new_name ∷ [])) req.overwrite

  with_content : Result (List ℕ) → Result FileInfo × W → Result ReadFileResult × W
  with_content (err e) (info, w) = (err e, w)
  with_content (ok content) (err e, w) = (err e, w)
  with_content (ok content) (ok info, w) = (ok (record { info = info; content = content }), w)

  read_whole : ReadFileReq → Result (Option Stat) → Call W ReadFileResult
  unfolding build_enriched_file_info with_content
  read_whole req (ok none) w = (err (sentinel not_found), w)
  read_whole req (err e) w = (err e, w)
  read_whole req (ok (some info)) w =
      if info.is_dir
      then (err (sentinel not_a_file), w)
      else if ltb max_inline_read_size info.size
      then (err (sentinel file_too_large), w)
      else with_content (c.os.read_file req.path w)
          (build_enriched_file_info c req.actor req.path w)

  -- WorkspaceFSClient.ReadFile
  unfoldable pub read_file : ReadFileReq → Call W ReadFileResult
  unfolding read_whole
  read_file req w = read_whole req (c.os.stat req.path w) w
