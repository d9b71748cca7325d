-- ===== src/Http/Router/FileRoutes.antt =====
-- The routes of the file service, registerFileRoutes of internal/adapter/http/router/router.go: a
-- request by its route, and what the engine does with it.
use workspace_service.Base.{ℕ, Text, codes}
use workspace_service.Errors.{Result}
use workspace_service.FsService.Service.{Service}
use workspace_service.Http.{Request, sent}
use workspace_service.Http.Binding.{identity_of}
use workspace_service.Http.FileBodies.{
  CreateFolderReq, CreateFileReq, CreateNotebookReq, DeletePathReq, MovePathReq, CopyPathReq,
  RenamePathReq, ListFilesReq, ValidatePathReq, GetFolderNodePathReq, ListRecycleBinReq,
  RestorePathReq, EmptyRecycleBinReq, GetFileInfoReq, ReadFileReq, WriteFileReq, DownloadFileReq,
}
use workspace_service.Http.FileHandlers.{
  handle_create_folder, handle_create_file, handle_create_notebook, handle_delete_path,
  handle_move_path, handle_copy_path, handle_rename_path, handle_list_files, handle_validate_path,
  handle_get_folder_node_path, handle_list_recycle_bin, handle_restore_path,
  handle_empty_recycle_bin, handle_get_file_info, handle_read_file, handle_write_file,
  handle_download_file,
}
use workspace_service.Http.Router.{join_route}
use workspace_service.Identity.{RequestContext}

-- A POST on one of the routes.
pub data FileRequest : Type 0 where
  to_create_folder : Request CreateFolderReq → FileRequest
  to_create_file : Request CreateFileReq → FileRequest
  to_create_notebook : Request CreateNotebookReq → FileRequest
  to_delete_path : Request DeletePathReq → FileRequest
  to_move_path : Request MovePathReq → FileRequest
  to_copy_path : Request CopyPathReq → FileRequest
  to_rename_path : Request RenamePathReq → FileRequest
  to_list_files : Request ListFilesReq → FileRequest
  to_validate_path : Request ValidatePathReq → FileRequest
  to_get_folder_node_path : Request GetFolderNodePathReq → FileRequest
  to_list_recycle_bin : Request ListRecycleBinReq → FileRequest
  to_restore_path : Request RestorePathReq → FileRequest
  to_empty_recycle_bin : Request EmptyRecycleBinReq → FileRequest
  to_get_file_info : Request GetFileInfoReq → FileRequest
  to_read_file : Request ReadFileReq → FileRequest
  to_write_file : Request WriteFileReq → FileRequest
  to_download_file : Request DownloadFileReq → FileRequest

route_name : FileRequest → Text
route_name (to_create_folder c) = codes "/CreateFolder"
route_name (to_create_file c) = codes "/CreateFile"
route_name (to_create_notebook c) = codes "/CreateNotebook"
route_name (to_delete_path c) = codes "/DeletePath"
route_name (to_move_path c) = codes "/MovePath"
route_name (to_copy_path c) = codes "/CopyPath"
route_name (to_rename_path c) = codes "/RenamePath"
route_name (to_list_files c) = codes "/ListFiles"
route_name (to_validate_path c) = codes "/ValidatePath"
route_name (to_get_folder_node_path c) = codes "/GetFolderNodePath"
route_name (to_list_recycle_bin c) = codes "/ListRecycleBin"
route_name (to_restore_path c) = codes "/RestorePath"
route_name (to_empty_recycle_bin c) = codes "/EmptyRecycleBin"
route_name (to_get_file_info c) = codes "/GetFileInfo"
route_name (to_read_file c) = codes "/ReadFile"
route_name (to_write_file c) = codes "/WriteFile"
route_name (to_download_file c) = codes "/DownloadFile"

-- The path that the request's route is registered on.
unfoldable pub file_route : Text → FileRequest → Text
unfolding join_route route_name
file_route url_prefix r = join_route url_prefix (route_name r)

-- The identity that a handler binds, or why it does not.
unfoldable pub file_identity : FileRequest → Result RequestContext
unfolding identity_of
file_identity (to_create_folder c) = identity_of (λ b. b.workspace_context) c
file_identity (to_create_file c) = identity_of (λ b. b.workspace_context) c
file_identity (to_create_notebook c) = identity_of (λ b. b.workspace_context) c
file_identity (to_delete_path c) = identity_of (λ b. b.workspace_context) c
file_identity (to_move_path c) = identity_of (λ b. b.workspace_context) c
file_identity (to_copy_path c) = identity_of (λ b. b.workspace_context) c
file_identity (to_rename_path c) = identity_of (λ b. b.workspace_context) c
file_identity (to_list_files c) = identity_of (λ b. b.workspace_context) c
file_identity (to_validate_path c) = identity_of (λ b. b.workspace_context) c
file_identity (to_get_folder_node_path c) = identity_of (λ b. b.workspace_context) c
file_identity (to_list_recycle_bin c) = identity_of (λ b. b.workspace_context) c
file_identity (to_restore_path c) = identity_of (λ b. b.workspace_context) c
file_identity (to_empty_recycle_bin c) = identity_of (λ b. b.workspace_context) c
file_identity (to_get_file_info c) = identity_of (λ b. b.workspace_context) c
file_identity (to_read_file c) = identity_of (λ b. b.workspace_context) c
file_identity (to_write_file c) = identity_of (λ b. b.workspace_context) c
file_identity (to_download_file c) = identity_of (λ b. b.workspace_context) c

module _ {W : Type 0} (s : Service W) (id : Text) where
  -- The status of the reply, and the state that the request leaves.
  unfoldable pub serve_file : FileRequest → W → ℕ × W
  unfolding handle_create_folder handle_create_file handle_create_notebook handle_delete_path
      handle_move_path handle_copy_path handle_rename_path handle_list_files handle_validate_path
      handle_get_folder_node_path handle_list_recycle_bin handle_restore_path
      handle_empty_recycle_bin handle_get_file_info handle_read_file handle_write_file
      handle_download_file
  serve_file (to_create_folder c) w = sent (handle_create_folder s id c w)
  serve_file (to_create_file c) w = sent (handle_create_file s id c w)
  serve_file (to_create_notebook c) w = sent (handle_create_notebook s id c w)
  serve_file (to_delete_path c) w = sent (handle_delete_path s c w)
  serve_file (to_move_path c) w = sent (handle_move_path s c w)
  serve_file (to_copy_path c) w = sent (handle_copy_path s c w)
  serve_file (to_rename_path c) w = sent (handle_rename_path s c w)
  serve_file (to_list_files c) w = sent (handle_list_files s c w)
  serve_file (to_validate_path c) w = sent (handle_validate_path s c w)
  serve_file (to_get_folder_node_path c) w = sent (handle_get_folder_node_path s c w)
  serve_file (to_list_recycle_bin c) w = sent (handle_list_recycle_bin s c w)
  serve_file (to_restore_path c) w = sent (handle_restore_path s c w)
  serve_file (to_empty_recycle_bin c) w = sent (handle_empty_recycle_bin s c w)
  serve_file (to_get_file_info c) w = sent (handle_get_file_info s c w)
  serve_file (to_read_file c) w = sent (handle_read_file s c w)
  serve_file (to_write_file c) w = sent (handle_write_file s id c w)
  serve_file (to_download_file c) w = sent (handle_download_file s c w)
