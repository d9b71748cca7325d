-- ===== src/Http/Router/FileScope.antt =====
-- What a request to the file service over HTTP can reach: the directory of the identity that it is
-- bound to.
use workspace_service.Base.{
  ◌≡◌, Bool, true, Option, none, some, sym, ◌∙◌, [], codes, Text, trim_space, ap,
}
use workspace_service.Errors.{Result, ok, err}
use workspace_service.FsService.Operations.Fence.{lies_in, target_stays, renamed_place, closed}
use workspace_service.FsService.Resolve.{resolve_actor_and_path}
use workspace_service.FsService.Operations.Scope.{
  make_folder-fenced, make_file-fenced, make_notebook-fenced, delete_path-fenced, move_path-fenced,
  copy_path-fenced, rename_path-fenced, list_files-fenced, validate_path-fenced,
  get_folder_node_path-fenced, restore_path-fenced, get_file_info-fenced, read_file-fenced,
  overwrite_file-fenced, download_file-fenced, list_recycle_bin-fenced, empty_recycle_bin-fenced,
}
use workspace_service.FsService.Operations.{
  make_folder, make_file, make_notebook, overwrite_file, delete_path, move_path, copy_path,
  rename_path,
}
use workspace_service.FsService.Operations.Queries.{
  list_files, get_file_info, read_file, download_file, validate_path, get_folder_node_path,
  list_recycle_bin, restore_path, empty_recycle_bin,
}
use workspace_service.FsService.Service.{Service}
use workspace_service.Http.{sent, flag, ok_reply}
use workspace_service.Http.Binding.{handled_as_cong, handled_as_cong_body}
use workspace_service.Http.FileBodies.{RestorePathReq, RenamePathReq}
use workspace_service.Http.FileHandlers.{
  handle_create_folder, handle_create_file, handle_create_notebook, handle_delete_path,
  handle_move_path, handle_copy_path, handle_rename_path, handle_list_files, handle_validate_path,
  handle_get_folder_node_path, handle_list_recycle_bin, handle_restore_path,
  handle_empty_recycle_bin, handle_get_file_info, handle_read_file, handle_write_file,
  handle_download_file, write_fs_error, refused, attached,
}
use workspace_service.Http.Router.FileRoutes.{
  FileRequest, to_create_folder, to_create_file, to_create_notebook, to_delete_path, to_move_path,
  to_copy_path, to_rename_path, to_list_files, to_validate_path, to_get_folder_node_path,
  to_list_recycle_bin, to_restore_path, to_empty_recycle_bin, to_get_file_info, to_read_file,
  to_write_file, to_download_file, file_identity, serve_file,
}
use workspace_service.Identity.{RequestContext, normalize}
use workspace_service.Identity.Isolation.{IsPlainContext}
use workspace_service.Mount.{user_root_abs}

target_of : Text → Option RestorePathReq → Bool
unfolding target_stays
target_of root none = true
target_of root (some b) = target_stays root b.target_parent

place_of : Text → Text → Result (RequestContext × Text) → Bool
unfolding lies_in renamed_place
place_of root new_name (err e) = true
place_of root new_name (ok found) = lies_in root (renamed_place found.1 new_name)

renamed_of : Text → Text → RequestContext → Option RenamePathReq → Bool
unfolding place_of resolve_actor_and_path trim_space
renamed_of mount_root root rc none = true
renamed_of mount_root root rc (some b) =
    place_of root (trim_space b.new_name) (resolve_actor_and_path mount_root rc b.path)

-- The request neither restores to a target parent outside of the directory of the identity, nor
-- renames a path to a place outside of it.
unfoldable pub stays_inside : Text → RequestContext → FileRequest → Bool
unfolding target_of renamed_of user_root_abs
stays_inside mount_root rc (to_restore_path c) =
    target_of (user_root_abs mount_root (normalize rc)) c.body
stays_inside mount_root rc (to_rename_path c) =
    renamed_of mount_root (user_root_abs mount_root (normalize rc)) rc c.body
stays_inside mount_root rc _ = true

restored_target :
    (root : Text) (o : Option RestorePathReq) (b : RestorePathReq)
    → target_of root o ≡ true
    → o ≡ some b
    → target_stays root b.target_parent ≡ true
unfolding target_of
restored_target root o b h e = sym (ap (target_of root) e) ∙ h

renamed_target :
    (mount_root root : Text) (rc : RequestContext) (o : Option RenamePathReq) (b : RenamePathReq)
    (found : RequestContext × Text)
    → renamed_of mount_root root rc o ≡ true
    → o ≡ some b
    → resolve_actor_and_path mount_root rc b.path ≡ ok found
    → lies_in root (renamed_place found.1 (trim_space b.new_name)) ≡ true
unfolding place_of renamed_of
renamed_target mount_root root rc o b found h e r =
    ap (place_of root (trim_space b.new_name)) (sym r)
    ∙ sym (ap (renamed_of mount_root root rc) e)
    ∙ h

module _ {W : Type 0} (s : Service W) (id : Text) where
  -- When a request to one of the 17 routes of the file service is bound to an identity whose
  -- normalized app id, workspace id and uin are plain directory names, and the request neither
  -- restores with a target parent that leads out of the directory of that identity nor renames a
  -- path to a place outside of it, the reply has the same status and the request leaves the same
  -- state over a storage client that refuses every path outside of the directory, the new place
  -- of a renamed path and a target parent included, the recycle bin of every other directory, and
  -- a deletion and a restoration for an actor of another directory.
  pub serve_file-fenced :
      (r : FileRequest) (w : W) (rc : RequestContext)
      → file_identity r ≡ ok rc
      → IsPlainContext (normalize rc)
      → stays_inside s.mount_root rc r ≡ true
      → serve_file (closed rc s) id r w ≡ serve_file s id r w
  unfolding serve_file file_identity stays_inside handle_create_folder handle_create_file
      handle_create_notebook handle_delete_path handle_move_path handle_copy_path handle_rename_path
      handle_list_files handle_validate_path handle_get_folder_node_path handle_list_recycle_bin
      handle_restore_path handle_empty_recycle_bin handle_get_file_info handle_read_file
      handle_write_file handle_download_file
  serve_file-fenced (to_create_folder c) w rc h plain inside = ap sent (
      handled_as_cong (λ r. r) (λ b. b.workspace_context) rc
        (λ actor b. make_folder (closed rc s) id actor b.path)
        (λ actor b. make_folder s id actor b.path) ok_reply write_fs_error c w h
        λ b. make_folder-fenced s rc plain true id b.path w)
  serve_file-fenced (to_create_file c) w rc h plain inside = ap sent (
      handled_as_cong (λ r. r) (λ b. b.workspace_context) rc
        (λ actor b. make_file (closed rc s) id actor b.path [] b.content_base64 b.overwrite)
        (λ actor b. make_file s id actor b.path [] b.content_base64 b.overwrite) ok_reply
        write_fs_error c w h
        λ b. make_file-fenced s rc plain true id b.path [] b.content_base64 b.overwrite w)
  serve_file-fenced (to_create_notebook c) w rc h plain inside = ap sent (
      handled_as_cong (λ r. r) (λ b. b.workspace_context) rc
        (λ actor b. make_notebook (closed rc s) id actor b.path b.kernel_name b.overwrite)
        (λ actor b. make_notebook s id actor b.path b.kernel_name b.overwrite) ok_reply
        write_fs_error c w h
        λ b. make_notebook-fenced s rc plain true id b.path b.kernel_name b.overwrite w)
  serve_file-fenced (to_delete_path c) w rc h plain inside = ap sent (
      handled_as_cong (λ r. r) (λ b. b.workspace_context) rc
        (λ actor b. delete_path (closed rc s) actor b.path b.soft_delete b.permanent)
        (λ actor b. delete_path s actor b.path b.soft_delete b.permanent) (flag (codes "deleted"))
        write_fs_error c w h
        λ b. delete_path-fenced s rc plain true b.path b.soft_delete b.permanent w)
  serve_file-fenced (to_move_path c) w rc h plain inside = ap sent (
      handled_as_cong (λ r. r) (λ b. b.workspace_context) rc
        (λ actor b. move_path (closed rc s) actor b.src_path b.dest_path b.overwrite)
        (λ actor b. move_path s actor b.src_path b.dest_path b.overwrite) ok_reply write_fs_error c
        w h λ b. move_path-fenced s rc plain true b.src_path b.dest_path b.overwrite w)
  serve_file-fenced (to_copy_path c) w rc h plain inside = ap sent (
      handled_as_cong (λ r. r) (λ b. b.workspace_context) rc
        (λ actor b. copy_path (closed rc s) actor b.src_path b.dest_path b.overwrite)
        (λ actor b. copy_path s actor b.src_path b.dest_path b.overwrite) ok_reply write_fs_error c
        w h λ b. copy_path-fenced s rc plain true b.src_path b.dest_path b.overwrite w)
  serve_file-fenced (to_rename_path c) w rc h plain inside = ap sent (
      handled_as_cong_body (λ r. r) (λ b. b.workspace_context) rc
        (λ actor b. rename_path (closed rc s) actor b.path b.new_name b.overwrite)
        (λ actor b. rename_path s actor b.path b.new_name b.overwrite) ok_reply write_fs_error c w h
        λ b e. rename_path-fenced s rc plain true b.path b.new_name b.overwrite w λ found r.
          renamed_target s.mount_root (user_root_abs s.mount_root (normalize rc)) rc c.body b found
            inside e r)
  serve_file-fenced (to_list_files c) w rc h plain inside = ap sent (
      handled_as_cong (λ r. r) (λ b. b.workspace_context) rc
        (λ actor b. list_files (closed rc s) actor b.path b.recursive)
        (λ actor b. list_files s actor b.path b.recursive) ok_reply write_fs_error c w h
        λ b. list_files-fenced s rc plain true b.path b.recursive w)
  serve_file-fenced (to_validate_path c) w rc h plain inside = ap sent (
      handled_as_cong (λ r. r) (λ b. b.workspace_context) rc
        (λ actor b. validate_path (closed rc s) actor b.parent_path b.name)
        (λ actor b. validate_path s actor b.parent_path b.name) ok_reply write_fs_error c w h
        λ b. validate_path-fenced s rc plain true b.parent_path b.name w)
  serve_file-fenced (to_get_folder_node_path c) w rc h plain inside = ap sent (
      handled_as_cong (λ r. r) (λ b. b.workspace_context) rc
        (λ actor b. get_folder_node_path (closed rc s) actor b.path)
        (λ actor b. get_folder_node_path s actor b.path) ok_reply write_fs_error c w h
        λ b. get_folder_node_path-fenced s rc plain true b.path w)
  serve_file-fenced (to_list_recycle_bin c) w rc h plain inside = ap sent (
      handled_as_cong (λ r. r) (λ b. b.workspace_context) rc
        (λ actor b. list_recycle_bin (closed rc s) actor) (λ actor b. list_recycle_bin s actor)
        ok_reply write_fs_error c w h λ b. list_recycle_bin-fenced s rc plain true w)
  serve_file-fenced (to_restore_path c) w rc h plain inside = ap sent (
      handled_as_cong_body (λ r. r) (λ b. b.workspace_context) rc
        (λ actor b. restore_path (closed rc s) actor b.trash_path b.target_parent)
        (λ actor b. restore_path s actor b.trash_path b.target_parent) ok_reply write_fs_error c w h
        λ b e.
          restore_path-fenced s rc plain true b.trash_path b.target_parent w
            (restored_target (user_root_abs s.mount_root (normalize rc)) c.body b inside e))
  serve_file-fenced (to_empty_recycle_bin c) w rc h plain inside = ap sent (
      handled_as_cong (λ r. r) (λ b. b.workspace_context) rc
        (λ actor b. empty_recycle_bin (closed rc s) actor) (λ actor b. empty_recycle_bin s actor)
        (flag (codes "emptied")) write_fs_error c w h
        λ b. empty_recycle_bin-fenced s rc plain true w)
  serve_file-fenced (to_get_file_info c) w rc h plain inside = ap sent (
      handled_as_cong (λ r. r) (λ b. b.workspace_context) rc
        (λ actor b. get_file_info (closed rc s) actor b.path)
        (λ actor b. get_file_info s actor b.path) ok_reply write_fs_error c w h
        λ b. get_file_info-fenced s rc plain true b.path w)
  serve_file-fenced (to_read_file c) w rc h plain inside = ap sent (
      handled_as_cong (λ r. r) (λ b. b.workspace_context) rc
        (λ actor b. read_file (closed rc s) actor b.path) (λ actor b. read_file s actor b.path)
        ok_reply write_fs_error c w h λ b. read_file-fenced s rc plain true b.path w)
  serve_file-fenced (to_write_file c) w rc h plain inside = ap sent (
      handled_as_cong (λ r. r) (λ b. b.workspace_context) rc
        (λ actor b. overwrite_file (closed rc s) id actor b.path [] b.content_base64 b.overwrite)
        (λ actor b. overwrite_file s id actor b.path [] b.content_base64 b.overwrite) ok_reply
        write_fs_error c w h
        λ b. overwrite_file-fenced s rc plain true id b.path [] b.content_base64 b.overwrite w)
  serve_file-fenced (to_download_file c) w rc h plain inside = ap sent (
      handled_as_cong refused (λ b. b.workspace_context) rc
        (λ actor b. download_file (closed rc s) actor b.path)
        (λ actor b. download_file s actor b.path) (λ _. attached)
        (λ d f. refused (write_fs_error d f)) c w h
        λ b. download_file-fenced s rc plain true b.path w)
