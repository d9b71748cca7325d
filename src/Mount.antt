-- ===== src/Mount.antt =====
-- The mount root of the workspace: cleanMountRoot of internal/usecase/fs/service.go, which
-- internal/usecase/git/service.go and internal/infra/fs/workspace_fs.go repeat, and the user's root.
use workspace_service.Base.{
  Option, none, some, [], ◌∷◌, Text, codes, text_eq, is_empty, trim_space, has_prefix,
  if◌then◌else◌,
}
use workspace_service.FilePath.{clean, join}
use workspace_service.Identity.{RequestContext, user_path_prefix}

-- strings.TrimPrefix for a prefix of two characters that is there
drop_two : Text → Text
drop_two (c ∷ d ∷ s) = s
drop_two s = s

-- `home` is the answer of os.UserHomeDir, `none` its error.
clean_trimmed_root : Option Text → Text → Text
unfolding drop_two join clean text_eq has_prefix
clean_trimmed_root none s = if is_empty s then [] else if text_eq s (codes "~") then s else clean s
clean_trimmed_root (some home) s =
    if is_empty s
    then []
    else if text_eq s (codes "~")
    then home
    else if has_prefix (codes "~/") s
    then join (home ∷ drop_two s ∷ [])
    else clean s

-- cleanMountRoot
unfoldable pub clean_mount_root : Option Text → Text → Text
unfolding clean_trimmed_root trim_space
clean_mount_root home mount_root = clean_trimmed_root home (trim_space mount_root)

-- Service.userRootAbs of internal/usecase/fs/tree.go
unfoldable pub user_root_abs : Text → RequestContext → Text
unfolding join user_path_prefix
user_root_abs mount_root ctx = join (mount_root ∷ user_path_prefix ctx ∷ [])
