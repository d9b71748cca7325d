-- ===== src/FsService/Operations.antt =====
-- internal/usecase/fs/operations.go: each request is checked and resolved, and handed to the storage
-- client, the writes inside the recorder. A request's fields are arguments; `id` is what NewIntentID
-- draws. The answer comes with the state that the call leaves.
pub mod Queries
pub mod Refusals
pub mod Faults
pub mod Fence
pub mod Scope
pub mod Examples
use workspace_service.Base.{
  ℕ, Bool, true, false, not, ◌&&◌, ◌||◌, Option, none, some, List, [], ◌∷◌, ◌++◌, Text, codes,
  trim_space, to_lower, has_suffix, contains_any, is_empty, text_eq, if◌then◌else◌, map,
}
use workspace_service.Errors.{
  Error, Result, ok, err, sentinel_text, sentinel_wrap, prefix_wrap, invalid_file_request, map_err,
  ◌>>=◌, ◌>>◌,
}
use workspace_service.FilePath.{base, dot, dot_dot}
use workspace_service.Identity.{RequestContext, normalize, validate}
use workspace_service.File.{IntentOp, create_folder, create_file, write_file, create_notebook}
use workspace_service.File.NodeType
use workspace_service.FileInfo.{
  FileInfo, Actor, WorkspaceFs, CreateFolderReq, CreateFileReq, CreateNotebookReq, DeletePathReq,
  MovePathReq, CopyPathReq, RenamePathReq, WriteFileReq,
}
use workspace_service.Calls.{Call}
use workspace_service.Calls.{checked, answer}
use workspace_service.FsService.Recorder.{run}
use workspace_service.FsService.Resolve.{resolve_abs_path, resolve_actor_and_path}
use workspace_service.FsService.Service.{Service, FileInfoResp, map_file_info}

-- A file name for RenamePath: no path.
unfoldable pub is_bad_name : Text → Bool
unfolding contains_any
is_bad_name name =
    is_empty name || text_eq name dot || text_eq name dot_dot || contains_any (codes "/\\") name

-- normalizeNotebookPath, of a trimmed path
unfoldable pub notebook_path : Text → Result Text
unfolding contains_any base has_suffix to_lower
notebook_path path =
    if is_empty path
    then err (sentinel_text invalid_file_request (codes "path is required"))
    else if text_eq (base path) dot
        || text_eq (base path) dot_dot
        || contains_any (codes "/\\") (base path)
    then err (sentinel_text invalid_file_request (codes "invalid notebook name"))
    else if has_suffix (codes ".ipynb") (to_lower (base path))
    then ok path
    else ok (path ++ codes ".ipynb")

-- normalizeNotebookPath
unfoldable pub normalize_notebook_path : Text → Result Text
unfolding notebook_path trim_space
normalize_notebook_path path = notebook_path (trim_space path)

module _ {W : Type 0} (s : Service W) where
  -- decodeContent
  unfoldable pub decode_content : List ℕ → Text → Result (List ℕ)
  decode_content (b ∷ raw) b64 = ok (b ∷ raw)
  decode_content [] b64 =
      if is_empty (trim_space b64) then ok [] else s.decode_base64 (trim_space b64)

  unfoldable pub content_of : List ℕ → Text → Result (List ℕ)
  unfolding decode_content
  content_of raw b64 =
      map_err (λ _. sentinel_text invalid_file_request (codes "invalid content_base64"))
        (decode_content raw b64)

  -- A write inside the recorder.
  unfoldable pub recorded :
      Text → Text → IntentOp → Text → Actor → Text → Call W FileInfo → Call W FileInfoResp
  unfolding run map_file_info
  recorded name id op abs actor node_type action w =
      answer name (λ info. map_file_info info s.mount_root)
        (run s.recorder id op abs actor node_type action w)

  -- Service.CreateFolder
  unfoldable pub make_folder : Text → RequestContext → Text → Call W FileInfoResp
  make_folder id ctx path = checked (resolve_actor_and_path s.mount_root ctx path) λ found.
      recorded (codes "create folder") id create_folder found.1 found.0 NodeType.directory
        (s.fs_client.create_folder (record { actor = found.0; path = found.1 }))

  -- Service.CreateFile
  unfoldable pub make_file :
      Text → RequestContext → Text → List ℕ → Text → Bool → Call W FileInfoResp
  make_file id ctx path raw b64 overwrite =
      checked (resolve_actor_and_path s.mount_root ctx path) λ found.
        checked (content_of raw b64) λ content.
          recorded (codes "create file") id create_file found.1 found.0 NodeType.file (
            s.fs_client.create_file (record {
              actor = found.0;
              path = found.1;
              content = content;
              overwrite = overwrite;
            }))

  -- Service.WriteFile
  unfoldable pub overwrite_file :
      Text → RequestContext → Text → List ℕ → Text → Bool → Call W FileInfoResp
  overwrite_file id ctx path raw b64 overwrite =
      checked (resolve_actor_and_path s.mount_root ctx path) λ found.
        checked (content_of raw b64) λ content.
          recorded (codes "write file") id write_file found.1 found.0 NodeType.file (
            s.fs_client.write_file (record {
              actor = found.0;
              path = found.1;
              content = content;
              overwrite = overwrite;
            }))

  -- Service.CreateNotebook
  unfoldable pub make_notebook : Text → RequestContext → Text → Text → Bool → Call W FileInfoResp
  make_notebook id ctx path kernel overwrite = checked (normalize_notebook_path path) λ named.
      checked (resolve_actor_and_path s.mount_root ctx named) λ found.
        recorded (codes "create notebook") id create_notebook found.1 found.0 NodeType.notebook (
          s.fs_client.create_notebook (record {
            actor = found.0;
            path = found.1;
            kernel_name = kernel;
            overwrite = overwrite;
          }))

  -- Service.DeletePath
  unfoldable pub delete_path : RequestContext → Text → Bool → Bool → Call W (Unit {0})
  delete_path ctx path soft permanent =
      checked (resolve_actor_and_path s.mount_root ctx path) λ found w.
        answer (codes "delete path") (λ u. u)
          (s.fs_client.delete_path
            (record { actor = found.0; path = found.1; soft_delete = soft; permanent = permanent })
            w)

  unfoldable pub identified : RequestContext → Result (Unit {0})
  identified ctx = map_err (sentinel_wrap invalid_file_request) (validate (normalize ctx))

  -- Service.MovePath
  unfoldable pub move_path : RequestContext → Text → Text → Bool → Call W FileInfoResp
  unfolding identified
  move_path ctx src dest overwrite = checked (identified ctx) λ _.
      checked (resolve_abs_path s.mount_root (normalize ctx) src) λ src_abs.
        checked (resolve_abs_path s.mount_root (normalize ctx) dest) λ dest_abs w.
          answer (codes "move path") (λ info. map_file_info info s.mount_root)
            (s.fs_client.move_path
              (record {
                actor = normalize ctx;
                src_path = src_abs;
                dest_path = dest_abs;
                overwrite = overwrite;
              })
              w)

  -- Service.CopyPath
  unfoldable pub copy_path : RequestContext → Text → Text → Bool → Call W FileInfoResp
  unfolding identified
  copy_path ctx src dest overwrite = checked (identified ctx) λ _.
      checked (resolve_abs_path s.mount_root (normalize ctx) src) λ src_abs.
        checked (resolve_abs_path s.mount_root (normalize ctx) dest) λ dest_abs w.
          answer (codes "copy path") (λ info. map_file_info info s.mount_root)
            (s.fs_client.copy_path
              (record {
                actor = normalize ctx;
                src_path = src_abs;
                dest_path = dest_abs;
                overwrite = overwrite;
              })
              w)

  unfoldable pub checked_name : Text → Result Text
  unfolding is_bad_name
  checked_name name =
      if is_bad_name name
      then err (sentinel_text invalid_file_request (codes "new_name is invalid"))
      else ok name

  -- Service.RenamePath
  unfoldable pub rename_path : RequestContext → Text → Text → Bool → Call W FileInfoResp
  unfolding checked_name
  rename_path ctx path new_name overwrite =
      checked (resolve_actor_and_path s.mount_root ctx path) λ found.
        checked (checked_name (trim_space new_name)) λ name w.
          answer (codes "rename path") (λ info. map_file_info info s.mount_root)
            (s.fs_client.rename_path
              (record { actor = found.0; path = found.1; new_name = name; overwrite = overwrite })
              w)
