-- ===== src/Http/Router/FileRefusals.antt =====
-- A request to the file service that is bound to no identity reaches nothing.
use workspace_service.Base.{◌≡◌, [], codes, Text, ap}
use workspace_service.Errors.{Error, err}
use workspace_service.FsService.Operations.{
  make_folder, make_file, make_notebook, overwrite_file, delete_path, move_path, copy_path,
  rename_path,
}
use workspace_service.FsService.Operations.Queries.{
  list_files, get_file_info, read_file, download_file, validate_path, get_folder_node_path,
  list_recycle_bin, restore_path, empty_recycle_bin,
}
use workspace_service.FsService.Service.{Service}
use workspace_service.Http.{bad_request, sent, flag, ok_reply, error_reply}
use workspace_service.Http.Binding.{handled_as-refused}
use workspace_service.Http.FileHandlers.{
  handle_create_folder, handle_create_file, handle_create_notebook, handle_delete_path,
  handle_move_path, handle_copy_path, handle_rename_path, handle_list_files, handle_validate_path,
  handle_get_folder_node_path, handle_list_recycle_bin, handle_restore_path,
  handle_empty_recycle_bin, handle_get_file_info, handle_read_file, handle_write_file,
  handle_download_file, write_fs_error, refused, attached,
}
use workspace_service.Http.Router.FileRoutes.{
  FileRequest, to_create_folder, to_create_file, to_create_notebook, to_delete_path, to_move_path,
  to_copy_path, to_rename_path, to_list_files, to_validate_path, to_get_folder_node_path,
  to_list_recycle_bin, to_restore_path, to_empty_recycle_bin, to_get_file_info, to_read_file,
  to_write_file, to_download_file, file_identity, serve_file,
}

module _ {W : Type 0} (s : Service W) (id : Text) where
  -- When the body of a request to a route of the file service can not be decoded, or its body and
  -- headers do not give a valid identity, the reply has status 400 and the state is left as it
  -- was.
  pub serve_file-refused :
      (r : FileRequest) (w : W) (e : Error)
      → file_identity r ≡ err e
      → serve_file s id r w ≡ (bad_request, w)
  unfolding serve_file file_identity error_reply handle_create_folder handle_create_file
      handle_create_notebook handle_delete_path handle_move_path handle_copy_path handle_rename_path
      handle_list_files handle_validate_path handle_get_folder_node_path handle_list_recycle_bin
      handle_restore_path handle_empty_recycle_bin handle_get_file_info handle_read_file
      handle_write_file handle_download_file
  serve_file-refused (to_create_folder c) w e h = ap sent (
      handled_as-refused (λ r. r) (λ b. b.workspace_context) e
        (λ actor b. make_folder s id actor b.path) ok_reply write_fs_error c w h)
  serve_file-refused (to_create_file c) w e h = ap sent (
      handled_as-refused (λ r. r) (λ b. b.workspace_context) e
        (λ actor b. make_file s id actor b.path [] b.content_base64 b.overwrite) ok_reply
        write_fs_error c w h)
  serve_file-refused (to_create_notebook c) w e h = ap sent (
      handled_as-refused (λ r. r) (λ b. b.workspace_context) e
        (λ actor b. make_notebook s id actor b.path b.kernel_name b.overwrite) ok_reply
        write_fs_error c w h)
  serve_file-refused (to_delete_path c) w e h = ap sent (
      handled_as-refused (λ r. r) (λ b. b.workspace_context) e
        (λ actor b. delete_path s actor b.path b.soft_delete b.permanent) (flag (codes "deleted"))
        write_fs_error c w h)
  serve_file-refused (to_move_path c) w e h = ap sent (
      handled_as-refused (λ r. r) (λ b. b.workspace_context) e
        (λ actor b. move_path s actor b.src_path b.dest_path b.overwrite) ok_reply write_fs_error c
        w h)
  serve_file-refused (to_copy_path c) w e h = ap sent (
      handled_as-refused (λ r. r) (λ b. b.workspace_context) e
        (λ actor b. copy_path s actor b.src_path b.dest_path b.overwrite) ok_reply write_fs_error c
        w h)
  serve_file-refused (to_rename_path c) w e h = ap sent (
      handled_as-refused (λ r. r) (λ b. b.workspace_context) e
        (λ actor b. rename_path s actor b.path b.new_name b.overwrite) ok_reply write_fs_error c w
        h)
  serve_file-refused (to_list_files c) w e h = ap sent (
      handled_as-refused (λ r. r) (λ b. b.workspace_context) e
        (λ actor b. list_files s actor b.path b.recursive) ok_reply write_fs_error c w h)
  serve_file-refused (to_validate_path c) w e h = ap sent (
      handled_as-refused (λ r. r) (λ b. b.workspace_context) e
        (λ actor b. validate_path s actor b.parent_path b.name) ok_reply write_fs_error c w h)
  serve_file-refused (to_get_folder_node_path c) w e h = ap sent (
      handled_as-refused (λ r. r) (λ b. b.workspace_context) e
        (λ actor b. get_folder_node_path s actor b.path) ok_reply write_fs_error c w h)
  serve_file-refused (to_list_recycle_bin c) w e h = ap sent (
      handled_as-refused (λ r. r) (λ b. b.workspace_context) e (λ actor b. list_recycle_bin s actor)
        ok_reply write_fs_error c w h)
  serve_file-refused (to_restore_path c) w e h = ap sent (
      handled_as-refused (λ r. r) (λ b. b.workspace_context) e
        (λ actor b. restore_path s actor b.trash_path b.target_parent) ok_reply write_fs_error c w
        h)
  serve_file-refused (to_empty_recycle_bin c) w e h = ap sent (
      handled_as-refused (λ r. r) (λ b. b.workspace_context) e
        (λ actor b. empty_recycle_bin s actor) (flag (codes "emptied")) write_fs_error c w h)
  serve_file-refused (to_get_file_info c) w e h = ap sent (
      handled_as-refused (λ r. r) (λ b. b.workspace_context) e
        (λ actor b. get_file_info s actor b.path) ok_reply write_fs_error c w h)
  serve_file-refused (to_read_file c) w e h = ap sent (
      handled_as-refused (λ r. r) (λ b. b.workspace_context) e (λ actor b. read_file s actor b.path)
        ok_reply write_fs_error c w h)
  serve_file-refused (to_write_file c) w e h = ap sent (
      handled_as-refused (λ r. r) (λ b. b.workspace_context) e
        (λ actor b. overwrite_file s id actor b.path [] b.content_base64 b.overwrite) ok_reply
        write_fs_error c w h)
  serve_file-refused (to_download_file c) w e h = ap sent (
      handled_as-refused refused (λ b. b.workspace_context) e
        (λ actor b. download_file s actor b.path) (λ _. attached)
        (λ d f. refused (write_fs_error d f)) c w h)
