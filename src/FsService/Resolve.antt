-- ===== src/FsService/Resolve.antt =====
-- Service.resolveAbsPath and Service.resolveActorAndPath of internal/usecase/fs/service.go.
pub mod Isolation
pub mod Examples
use workspace_service.Base.{
  Bool, not, ◌&&◌, List, [], ◌∷◌, ◌++◌, Text, codes, text_eq, is_empty, trim_space, has_prefix,
  if◌then◌else◌,
}
use workspace_service.Errors.{
  Result, ok, err, sentinel_text, sentinel_wrap, invalid_file_request, map_err, ◌>>=◌, ◌>>◌,
}
use workspace_service.FilePath.{separator, join}
use workspace_service.Identity.{
  RequestContext, normalize, validate, user_path_prefix, resolve_relative_path,
}
use workspace_service.Mount.{user_root_abs}

-- The path joined to the mount root, unless it leaves it.
unfoldable pub within_mount : Text → Text → Result Text
within_mount mount_root abs =
    if not (has_prefix (mount_root ++ (separator ∷ [])) abs) && not (text_eq abs mount_root)
    then err (sentinel_text invalid_file_request (codes "path escapes workspace mount root"))
    else ok abs

-- Service.resolveAbsPath
unfoldable pub resolve_abs_path : Text → RequestContext → Text → Result Text
resolve_abs_path mount_root ctx rel_path =
    if is_empty mount_root
    then err (sentinel_text invalid_file_request (codes "workspace mount root is required"))
    else if is_empty (trim_space rel_path)
    then ok (user_root_abs mount_root (normalize ctx))
    else (map_err (sentinel_wrap invalid_file_request) (resolve_relative_path ctx rel_path)
        >>= λ resolved. within_mount mount_root (join (mount_root ∷ resolved ∷ [])))

-- Service.resolveActorAndPath
unfoldable pub resolve_actor_and_path :
    Text → RequestContext → Text → Result (RequestContext × Text)
resolve_actor_and_path mount_root ctx path = do
  map_err (sentinel_wrap invalid_file_request) (validate (normalize ctx))
  abs ← resolve_abs_path mount_root (normalize ctx) path
  ok (normalize ctx, abs)
