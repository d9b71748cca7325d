-- ===== src/Http/Router/StorageFaults.antt =====
-- The statuses of the file service's routes over a storage that fails.
use workspace_service.Base.{refl, [], codes, Text}
use workspace_service.FsService.Operations.{
  make_folder, make_file, make_notebook, overwrite_file, delete_path, move_path, copy_path,
  rename_path,
}
use workspace_service.FsService.Operations.Queries.{
  list_files, get_file_info, read_file, download_file, validate_path, get_folder_node_path,
  list_recycle_bin, restore_path, empty_recycle_bin,
}
use workspace_service.FsService.Service.{Service}
use workspace_service.Http.{flag, ok_reply, error_reply}
use workspace_service.Http.FileHandlers.{
  handle_create_folder, handle_create_file, handle_create_notebook, handle_delete_path,
  handle_move_path, handle_copy_path, handle_rename_path, handle_list_files, handle_validate_path,
  handle_get_folder_node_path, handle_list_recycle_bin, handle_restore_path,
  handle_empty_recycle_bin, handle_get_file_info, handle_read_file, handle_write_file,
  handle_download_file, write_fs_error, refused, attached,
}
use workspace_service.Http.Router.FileRoutes.{
  FileRequest, to_create_folder, to_create_file, to_create_notebook, to_delete_path, to_move_path,
  to_copy_path, to_rename_path, to_list_files, to_validate_path, to_get_folder_node_path,
  to_list_recycle_bin, to_restore_path, to_empty_recycle_bin, to_get_file_info, to_read_file,
  to_write_file, to_download_file, serve_file,
}
use workspace_service.Errors.{Sentinel}
use workspace_service.FsService.Operations.Faults.{
  faulty, make_folder-Fails, make_file-Fails, make_notebook-Fails, delete_path-Fails,
  move_path-Fails, copy_path-Fails, rename_path-Fails, list_files-Fails, validate_path-Fails,
  get_folder_node_path-Fails, list_recycle_bin-Fails, restore_path-Fails, empty_recycle_bin-Fails,
  get_file_info-Fails, read_file-Fails, overwrite_file-Fails, download_file-Fails,
}
use workspace_service.Http.FileHandlers.Statuses.{Faulty, handled_as-Faulty, error_status-any}

module _ {W : Type 0} (s : Service W) (id : Text) (fault : Sentinel) where
  -- Over a storage client that fails every call with one error of the domain, and without a
  -- recorder, every request to a route of the file service leaves the state as it was and is
  -- answered with status 400 or with the status of that error: 404 for a path not found, 409 for
  -- one that exists, 413 for a file too large, 400 for not a file, not a directory and an invalid
  -- request or context of the service, and 500 for the rest, among them an invalid request of the
  -- storage.
  pub storage_fault-status :
      (r : FileRequest) (w : W) → Faulty fault w (serve_file (faulty fault s) id r w)
  unfolding serve_file handle_create_folder handle_create_file handle_create_notebook
      handle_delete_path handle_move_path handle_copy_path handle_rename_path handle_list_files
      handle_validate_path handle_get_folder_node_path handle_list_recycle_bin handle_restore_path
      handle_empty_recycle_bin handle_get_file_info handle_read_file handle_write_file
      handle_download_file flag ok_reply write_fs_error refused error_reply
  storage_fault-status (to_create_folder c) w =
      handled_as-Faulty (λ r. r) (λ b. b.workspace_context)
        (λ actor b. make_folder (faulty fault s) id actor b.path) ok_reply write_fs_error c w fault
        (λ _. refl) (λ e. error_status-any _ _ c e) λ rc b. make_folder-Fails s fault rc id b.path w
  storage_fault-status (to_create_file c) w =
      handled_as-Faulty (λ r. r) (λ b. b.workspace_context)
        (λ actor b. make_file (faulty fault s) id actor b.path [] b.content_base64 b.overwrite)
        ok_reply write_fs_error c w fault (λ _. refl) (λ e. error_status-any _ _ c e)
        λ rc b. make_file-Fails s fault rc id b.path b.content_base64 b.overwrite w
  storage_fault-status (to_create_notebook c) w =
      handled_as-Faulty (λ r. r) (λ b. b.workspace_context)
        (λ actor b. make_notebook (faulty fault s) id actor b.path b.kernel_name b.overwrite)
        ok_reply write_fs_error c w fault (λ _. refl) (λ e. error_status-any _ _ c e)
        λ rc b. make_notebook-Fails s fault rc id b.path b.kernel_name b.overwrite w
  storage_fault-status (to_delete_path c) w =
      handled_as-Faulty (λ r. r) (λ b. b.workspace_context)
        (λ actor b. delete_path (faulty fault s) actor b.path b.soft_delete b.permanent)
        (flag (codes "deleted")) write_fs_error c w fault (λ _. refl)
        (λ e. error_status-any _ _ c e)
        λ rc b. delete_path-Fails s fault rc b.path b.soft_delete b.permanent w
  storage_fault-status (to_move_path c) w =
      handled_as-Faulty (λ r. r) (λ b. b.workspace_context)
        (λ actor b. move_path (faulty fault s) actor b.src_path b.dest_path b.overwrite) ok_reply
        write_fs_error c w fault (λ _. refl) (λ e. error_status-any _ _ c e)
        λ rc b. move_path-Fails s fault rc b.src_path b.dest_path b.overwrite w
  storage_fault-status (to_copy_path c) w =
      handled_as-Faulty (λ r. r) (λ b. b.workspace_context)
        (λ actor b. copy_path (faulty fault s) actor b.src_path b.dest_path b.overwrite) ok_reply
        write_fs_error c w fault (λ _. refl) (λ e. error_status-any _ _ c e)
        λ rc b. copy_path-Fails s fault rc b.src_path b.dest_path b.overwrite w
  storage_fault-status (to_rename_path c) w =
      handled_as-Faulty (λ r. r) (λ b. b.workspace_context)
        (λ actor b. rename_path (faulty fault s) actor b.path b.new_name b.overwrite) ok_reply
        write_fs_error c w fault (λ _. refl) (λ e. error_status-any _ _ c e)
        λ rc b. rename_path-Fails s fault rc b.path b.new_name b.overwrite w
  storage_fault-status (to_list_files c) w =
      handled_as-Faulty (λ r. r) (λ b. b.workspace_context)
        (λ actor b. list_files (faulty fault s) actor b.path b.recursive) ok_reply write_fs_error c
        w fault (λ _. refl) (λ e. error_status-any _ _ c e)
        λ rc b. list_files-Fails s fault rc b.path b.recursive w
  storage_fault-status (to_validate_path c) w =
      handled_as-Faulty (λ r. r) (λ b. b.workspace_context)
        (λ actor b. validate_path (faulty fault s) actor b.parent_path b.name) ok_reply
        write_fs_error c w fault (λ _. refl) (λ e. error_status-any _ _ c e)
        λ rc b. validate_path-Fails s fault rc b.parent_path b.name w
  storage_fault-status (to_get_folder_node_path c) w =
      handled_as-Faulty (λ r. r) (λ b. b.workspace_context)
        (λ actor b. get_folder_node_path (faulty fault s) actor b.path) ok_reply write_fs_error c w
        fault (λ _. refl) (λ e. error_status-any _ _ c e)
        λ rc b. get_folder_node_path-Fails s fault rc b.path w
  storage_fault-status (to_list_recycle_bin c) w =
      handled_as-Faulty (λ r. r) (λ b. b.workspace_context)
        (λ actor b. list_recycle_bin (faulty fault s) actor) ok_reply write_fs_error c w fault
        (λ _. refl) (λ e. error_status-any _ _ c e) λ rc b. list_recycle_bin-Fails s fault rc w
  storage_fault-status (to_restore_path c) w =
      handled_as-Faulty (λ r. r) (λ b. b.workspace_context)
        (λ actor b. restore_path (faulty fault s) actor b.trash_path b.target_parent) ok_reply
        write_fs_error c w fault (λ _. refl) (λ e. error_status-any _ _ c e)
        λ rc b. restore_path-Fails s fault rc b.trash_path b.target_parent w
  storage_fault-status (to_empty_recycle_bin c) w =
      handled_as-Faulty (λ r. r) (λ b. b.workspace_context)
        (λ actor b. empty_recycle_bin (faulty fault s) actor) (flag (codes "emptied"))
        write_fs_error c w fault (λ _. refl) (λ e. error_status-any _ _ c e)
        λ rc b. empty_recycle_bin-Fails s fault rc w
  storage_fault-status (to_get_file_info c) w =
      handled_as-Faulty (λ r. r) (λ b. b.workspace_context)
        (λ actor b. get_file_info (faulty fault s) actor b.path) ok_reply write_fs_error c w fault
        (λ _. refl) (λ e. error_status-any _ _ c e) λ rc b. get_file_info-Fails s fault rc b.path w
  storage_fault-status (to_read_file c) w =
      handled_as-Faulty (λ r. r) (λ b. b.workspace_context)
        (λ actor b. read_file (faulty fault s) actor b.path) ok_reply write_fs_error c w fault
        (λ _. refl) (λ e. error_status-any _ _ c e) λ rc b. read_file-Fails s fault rc b.path w
  storage_fault-status (to_write_file c) w =
      handled_as-Faulty (λ r. r) (λ b. b.workspace_context)
        (λ actor b. overwrite_file (faulty fault s) id actor b.path [] b.content_base64 b.overwrite)
        ok_reply write_fs_error c w fault (λ _. refl) (λ e. error_status-any _ _ c e)
        λ rc b. overwrite_file-Fails s fault rc id b.path b.content_base64 b.overwrite w
  storage_fault-status (to_download_file c) w =
      handled_as-Faulty refused (λ b. b.workspace_context)
        (λ actor b. download_file (faulty fault s) actor b.path) (λ _. attached)
        (λ d f. refused (write_fs_error d f)) c w fault (λ _. refl) (λ e. error_status-any _ _ c e)
        λ rc b. download_file-Fails s fault rc b.path w
