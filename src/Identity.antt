-- ===== src/Identity.antt =====
-- internal/domain/identity/context.go: the caller and workspace scope of a request.
pub mod Isolation
pub mod Normalizing
mod Examples
use workspace_service.Base.{
  Bool, List, [], ◌∷◌, ◌++◌, Text, codes, text_eq, is_empty, trim_space, has_prefix, if◌then◌else◌,
  ◌||◌,
}
use workspace_service.Errors.{Result, ok, err, sentinel_text, invalid_context, ◌>>◌}
use workspace_service.FilePath.{separator, dot, dot_dot, is_abs, clean, join}

pub record RequestContext : Type 0 where
  pub owner_uin : Text
  pub uin : Text
  pub app_id : Text
  pub workspace_id : Text

-- RequestContext.Validate
unfoldable pub validate : RequestContext → Result (Unit {0})
validate r =
    if is_empty (trim_space r.owner_uin)
    then err (sentinel_text invalid_context (codes "owner_uin is required"))
    else if is_empty (trim_space r.uin)
    then err (sentinel_text invalid_context (codes "uin is required"))
    else if is_empty (trim_space r.app_id)
    then err (sentinel_text invalid_context (codes "app_id is required"))
    else if is_empty (trim_space r.workspace_id)
    then err (sentinel_text invalid_context (codes "workspace_id is required"))
    else ok tt

fill_uin : RequestContext → RequestContext
fill_uin r = if is_empty r.uin then record r { uin = r.owner_uin } else r

fill_owner_uin : RequestContext → RequestContext
fill_owner_uin r = if is_empty r.owner_uin then record r { owner_uin = r.uin } else r

-- RequestContext.Normalize
unfoldable pub normalize : RequestContext → RequestContext
unfolding fill_uin fill_owner_uin
normalize r = fill_owner_uin (
    fill_uin (record {
      owner_uin = trim_space r.owner_uin;
      uin = trim_space r.uin;
      app_id = trim_space r.app_id;
      workspace_id = trim_space r.workspace_id;
    }))

abbrev pub users : Text
users = codes "users"

-- RequestContext.UserPathPrefix
unfoldable pub user_path_prefix : RequestContext → Text
unfolding join
user_path_prefix r = join (r.app_id ∷ r.workspace_id ∷ users ∷ r.uin ∷ [])

-- The path is the prefix or stands below it; otherwise it is joined to it.
under_prefix : Text → Text → Text
under_prefix prefix clean_path =
    if text_eq clean_path prefix || has_prefix (prefix ++ (separator ∷ [])) clean_path
    then clean_path
    else join (prefix ∷ clean_path ∷ [])

escapes_root : Text → Bool
escapes_root clean_path =
    text_eq clean_path dot
    || text_eq clean_path dot_dot
    || has_prefix (dot_dot ++ (separator ∷ [])) clean_path

resolve_trimmed : RequestContext → Text → Result Text
resolve_trimmed r user_path =
    if is_empty user_path
    then err (sentinel_text invalid_context (codes "path is required"))
    else if is_abs user_path
    then err (sentinel_text invalid_context (codes "path must be relative to workspace mount root"))
    else if escapes_root (clean user_path)
    then err (sentinel_text invalid_context (codes "path escapes workspace mount root"))
    else ok (under_prefix (user_path_prefix r) (clean user_path))

-- RequestContext.ResolveRelativePath
unfoldable pub resolve_relative_path : RequestContext → Text → Result Text
unfolding resolve_trimmed trim_space under_prefix escapes_root user_path_prefix clean is_abs text_eq
    has_prefix
resolve_relative_path r user_path = resolve_trimmed r (trim_space user_path)
