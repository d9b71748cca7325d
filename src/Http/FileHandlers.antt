-- ===== src/Http/FileHandlers.antt =====
-- internal/adapter/http/handler/fs.go: the handlers of the file service's requests. The raw content
-- of a request to the service stays empty: a body carries it in base64. `id` is what NewIntentID draws.
pub mod Statuses
use workspace_service.Base.{ℕ, Bool, true, ◌||◌, List, [], ◌∷◌, ◌++◌, Text, codes, if◌then◌else◌}
use workspace_service.Errors.{
  Error, error_is, invalid_file_request, not_found, already_exists, not_a_file, not_a_directory,
  file_too_large,
}
use workspace_service.FsService.Operations.{
  make_folder, make_file, make_notebook, overwrite_file, delete_path, move_path, copy_path,
  rename_path,
}
use workspace_service.FsService.Operations.Queries.{
  ReadFileResp, list_files, get_file_info, read_file, download_file, validate_path,
  get_folder_node_path, list_recycle_bin, restore_path, empty_recycle_bin,
}
use workspace_service.FsService.Service.{Service, FileInfoResp, FolderNodeResp}
use workspace_service.Http.{
  Request, Reply, Body, ok_reply, error_reply, status_ok, bad_request, internal_server_error,
  is_invalid_context, handled, handled_as, Flag, flag,
}
use workspace_service.Http.FileBodies.{
  CreateFolderReq, CreateFileReq, CreateNotebookReq, DeletePathReq, MovePathReq, CopyPathReq,
  RenamePathReq, ListFilesReq, GetFileInfoReq, ReadFileReq, WriteFileReq, DownloadFileReq,
  ValidatePathReq, GetFolderNodePathReq, ListRecycleBinReq, RestorePathReq, EmptyRecycleBinReq,
}

-- writeFSError
unfoldable pub write_fs_error : {B D : Type 0} → Request B → Error → Reply (Body D)
unfolding error_reply is_invalid_context error_is
write_fs_error c e =
    if error_is invalid_file_request e || is_invalid_context e
    then error_reply c bad_request e.message
    else if error_is not_found e
    then error_reply c 404 e.message
    else if error_is already_exists e
    then error_reply c 409 e.message
    else if error_is not_a_file e || error_is not_a_directory e
    then error_reply c bad_request e.message
    else if error_is file_too_large e
    then error_reply c 413 e.message
    else error_reply c internal_server_error e.message

-- What a download writes: the file, or an envelope.
pub data Download : Type 0 where
  attachment : (disposition content_type : Text) (content : List ℕ) → Download
  envelope : Body (Unit {0}) → Download

unfoldable pub refused : Reply (Body (Unit {0})) → Reply Download
refused r = record { status = r.status; payload = envelope r.payload }

unfoldable pub attached : List ℕ × Text → Reply Download
attached file = record {
  status = status_ok;
  payload =
      attachment (codes "attachment; filename=" ++ file.1) (codes "application/octet-stream")
        file.0;
}

module _ {W : Type 0} (s : Service W) where
  -- FileHandler.CreateFolder
  unfoldable pub handle_create_folder :
      Text → Request CreateFolderReq → W → Reply (Body FileInfoResp) × W
  unfolding handled_as make_folder write_fs_error ok_reply
  handle_create_folder id =
      handled (λ b. b.workspace_context) (λ rc b. make_folder s id rc b.path) ok_reply
        write_fs_error

  -- FileHandler.CreateFile
  unfoldable pub handle_create_file :
      Text → Request CreateFileReq → W → Reply (Body FileInfoResp) × W
  unfolding handled_as make_file write_fs_error ok_reply
  handle_create_file id =
      handled (λ b. b.workspace_context)
        (λ rc b. make_file s id rc b.path [] b.content_base64 b.overwrite) ok_reply write_fs_error

  -- FileHandler.CreateNotebook
  unfoldable pub handle_create_notebook :
      Text → Request CreateNotebookReq → W → Reply (Body FileInfoResp) × W
  unfolding handled_as make_notebook write_fs_error ok_reply
  handle_create_notebook id =
      handled (λ b. b.workspace_context)
        (λ rc b. make_notebook s id rc b.path b.kernel_name b.overwrite) ok_reply write_fs_error

  -- FileHandler.DeletePath
  unfoldable pub handle_delete_path : Request DeletePathReq → W → Reply (Body Flag) × W
  unfolding handled_as delete_path write_fs_error flag
  handle_delete_path =
      handled (λ b. b.workspace_context) (λ rc b. delete_path s rc b.path b.soft_delete b.permanent)
        (flag (codes "deleted")) write_fs_error

  -- FileHandler.MovePath
  unfoldable pub handle_move_path : Request MovePathReq → W → Reply (Body FileInfoResp) × W
  unfolding handled_as move_path write_fs_error ok_reply
  handle_move_path =
      handled (λ b. b.workspace_context) (λ rc b. move_path s rc b.src_path b.dest_path b.overwrite)
        ok_reply write_fs_error

  -- FileHandler.CopyPath
  unfoldable pub handle_copy_path : Request CopyPathReq → W → Reply (Body FileInfoResp) × W
  unfolding handled_as copy_path write_fs_error ok_reply
  handle_copy_path =
      handled (λ b. b.workspace_context) (λ rc b. copy_path s rc b.src_path b.dest_path b.overwrite)
        ok_reply write_fs_error

  -- FileHandler.RenamePath
  unfoldable pub handle_rename_path : Request RenamePathReq → W → Reply (Body FileInfoResp) × W
  unfolding handled_as rename_path write_fs_error ok_reply
  handle_rename_path =
      handled (λ b. b.workspace_context) (λ rc b. rename_path s rc b.path b.new_name b.overwrite)
        ok_reply write_fs_error

  -- FileHandler.ListFiles
  unfoldable pub handle_list_files : Request ListFilesReq → W → Reply (Body (List FileInfoResp)) × W
  unfolding handled_as list_files write_fs_error ok_reply
  handle_list_files =
      handled (λ b. b.workspace_context) (λ rc b. list_files s rc b.path b.recursive) ok_reply
        write_fs_error

  -- FileHandler.GetFileInfo
  unfoldable pub handle_get_file_info : Request GetFileInfoReq → W → Reply (Body FileInfoResp) × W
  unfolding handled_as get_file_info write_fs_error ok_reply
  handle_get_file_info =
      handled (λ b. b.workspace_context) (λ rc b. get_file_info s rc b.path) ok_reply write_fs_error

  -- FileHandler.ReadFile
  unfoldable pub handle_read_file : Request ReadFileReq → W → Reply (Body ReadFileResp) × W
  unfolding handled_as read_file write_fs_error ok_reply
  handle_read_file =
      handled (λ b. b.workspace_context) (λ rc b. read_file s rc b.path) ok_reply write_fs_error

  -- FileHandler.WriteFile
  unfoldable pub handle_write_file : Text → Request WriteFileReq → W → Reply (Body FileInfoResp) × W
  unfolding handled_as overwrite_file write_fs_error ok_reply
  handle_write_file id =
      handled (λ b. b.workspace_context)
        (λ rc b. overwrite_file s id rc b.path [] b.content_base64 b.overwrite) ok_reply
        write_fs_error

  -- FileHandler.ValidatePath
  unfoldable pub handle_validate_path : Request ValidatePathReq → W → Reply (Body Bool) × W
  unfolding handled_as validate_path write_fs_error ok_reply
  handle_validate_path =
      handled (λ b. b.workspace_context) (λ rc b. validate_path s rc b.parent_path b.name) ok_reply
        write_fs_error

  -- FileHandler.GetFolderNodePath
  unfoldable pub handle_get_folder_node_path :
      Request GetFolderNodePathReq → W → Reply (Body (List FolderNodeResp)) × W
  unfolding handled_as get_folder_node_path write_fs_error ok_reply
  handle_get_folder_node_path =
      handled (λ b. b.workspace_context) (λ rc b. get_folder_node_path s rc b.path) ok_reply
        write_fs_error

  -- FileHandler.ListRecycleBin
  unfoldable pub handle_list_recycle_bin :
      Request ListRecycleBinReq → W → Reply (Body (List FileInfoResp)) × W
  unfolding handled_as list_recycle_bin write_fs_error ok_reply
  handle_list_recycle_bin =
      handled (λ b. b.workspace_context) (λ rc b. list_recycle_bin s rc) ok_reply write_fs_error

  -- FileHandler.RestorePath
  unfoldable pub handle_restore_path : Request RestorePathReq → W → Reply (Body FileInfoResp) × W
  unfolding handled_as restore_path write_fs_error ok_reply
  handle_restore_path =
      handled (λ b. b.workspace_context) (λ rc b. restore_path s rc b.trash_path b.target_parent)
        ok_reply write_fs_error

  -- FileHandler.EmptyRecycleBin
  unfoldable pub handle_empty_recycle_bin : Request EmptyRecycleBinReq → W → Reply (Body Flag) × W
  unfolding handled_as empty_recycle_bin write_fs_error flag
  handle_empty_recycle_bin =
      handled (λ b. b.workspace_context) (λ rc b. empty_recycle_bin s rc) (flag (codes "emptied"))
        write_fs_error

  -- FileHandler.DownloadFile
  unfoldable pub handle_download_file : Request DownloadFileReq → W → Reply Download × W
  unfolding handled_as download_file write_fs_error attached refused
  handle_download_file =
      handled_as refused (λ b. b.workspace_context) (λ rc b. download_file s rc b.path)
        (λ _. attached) (λ c e. refused (write_fs_error c e))
