-- ===== src/WorkspaceGit.antt =====
-- internal/infra/git: where the meta data of a repository are (git_meta_path.go), the clone into a directory
-- (workspace_git_client.go) and the deletion of a repository (DeleteRepo of operations.go). What go-git does for a clone
-- is a parameter.
pub mod Places
mod Examples
use workspace_service.Base.{
  Bool, true, false, not, ◌&&◌, ◌||◌, Option, none, some, List, [], ◌∷◌, ◌++◌, Text, codes,
  is_empty, text_eq, trim_space, has_prefix, if◌then◌else◌,
}
use workspace_service.Calls.{Call}
use workspace_service.Errors.{Error, Result, ok, err, new_error, prefix_wrap}
use workspace_service.File.{Outcome}
use workspace_service.FileInfo.{Actor}
use workspace_service.FilePath.{separator, dot_dot, clean, dir, join, rel}
use workspace_service.GitClient.{CloneReq, CloneResult, DeleteRepoReq}
use workspace_service.Os.{Os, Stat}
use workspace_service.Storage.{after, drop}

-- The relative path leads out of the directory.
unfoldable pub leads_out : Text → Bool
unfolding text_eq has_prefix
leads_out r = text_eq r dot_dot || has_prefix (dot_dot ++ (separator ∷ [])) r

meta_dir_of : Text → Option Text → Result Text
unfolding leads_out join
meta_dir_of git_meta_root none = err (new_error (codes "worktree path relative to mount root"))
meta_dir_of git_meta_root (some r) =
    if leads_out r
    then err (new_error (codes "worktree path escapes workspace mount root"))
    else ok (join (git_meta_root ∷ r ∷ codes ".git" ∷ []))

-- resolveGitDir. A cleaned path is never empty, so the test for an empty mount root behind Clean is without effect.
unfoldable pub resolve_git_dir : Text → Text → Text → Result Text
unfolding meta_dir_of clean join rel trim_space
resolve_git_dir mount_root git_meta_root worktree_path =
    if is_empty (trim_space git_meta_root)
    then ok (join (clean worktree_path ∷ codes ".git" ∷ []))
    else if is_empty (clean mount_root)
    then err (new_error (codes "workspace mount root is required when git_meta_root is set"))
    else meta_dir_of (clean git_meta_root) (rel (clean mount_root) (clean worktree_path))

is_inside : Option Text → Bool
unfolding leads_out
is_inside none = false
is_inside (some r) = not (leads_out r)

-- isSubpath
unfoldable pub is_subpath : Text → Text → Bool
unfolding is_inside clean text_eq rel
is_subpath parent child =
    text_eq (clean parent) (clean child) || is_inside (rel (clean parent) (clean child))

-- normalizeBranchName
unfoldable pub normalize_branch_name : Text → Text
unfolding trim_space has_prefix
normalize_branch_name branch =
    if has_prefix (codes "refs/heads/") (trim_space branch)
    then drop (codes "refs/heads/") (trim_space branch)
    else trim_space branch

-- The client; `clone_context` is go-git's CloneContext for the actor whose files are recorded, a git directory, a worktree, an
-- address and a branch.
pub record WorkspaceGitClient (W : Type 0) : Type 0 where
  pub os : Os W
  pub mount_root : Text
  pub git_meta_root : Text
  pub clone_context : Actor → Text → Text → Text → Text → W → Outcome W

in_parent : Option Error → Option Error
in_parent none = none
in_parent (some e) = some (prefix_wrap (codes "create git metadata parent dir") e)

module _ {W : Type 0} (c : WorkspaceGitClient W) where
  -- WorkspaceGitClient.gitDir
  unfoldable pub git_dir : Text → Result Text
  unfolding resolve_git_dir
  git_dir worktree_path = resolve_git_dir c.mount_root c.git_meta_root worktree_path

  -- ensureGitDirParent
  unfoldable pub ensure_git_dir_parent : Text → W → Outcome W
  unfolding dir in_parent
  ensure_git_dir_parent dir_path w =
      let (failure, made) = c.os.mkdir_all (dir dir_path) w in (in_parent failure, made)

  -- isDirEmpty, for a directory that is there
  unfoldable pub is_dir_empty : Text → W → Result Bool
  is_dir_empty path w = elim (c.os.read_dir path w) [
    | err e ↦ err e
    | ok none ↦ err (new_error (codes "no such file or directory"))
    | ok (some []) ↦ ok true
    | ok (some (name ∷ names)) ↦ ok false
  ]

  emptiness : Text → Result Bool → Option Error
  emptiness path (err e) = some e
  emptiness path (ok true) = none
  emptiness path (ok false) =
      some (new_error (codes "clone target directory is not empty: " ++ path))

  target : Text → Result (Option Stat) → W → Outcome W
  unfolding emptiness is_dir_empty
  target path (ok none) w = c.os.mkdir_all path w
  target path (err e) w = (some e, w)
  target path (ok (some info)) w =
      if not info.is_dir
      then (some (new_error (codes "clone target is not a directory: " ++ path)), w)
      else (emptiness path (is_dir_empty path w), w)

  -- prepareCloneTarget
  unfoldable pub prepare_clone_target : Text → W → Outcome W
  unfolding target
  prepare_clone_target path w = target path (c.os.stat path w) w

  cloned_into : CloneReq → Text → Result Text → Call W CloneResult
  unfolding ensure_git_dir_parent
  cloned_into req branch (err e) w = (err e, w)
  cloned_into req branch (ok dir_path) w =
      after (λ e. e) (ensure_git_dir_parent dir_path w)
        λ w.
          after (λ e. e) (c.clone_context req.actor dir_path req.target_path req.repo_url branch w)
            λ w.
              (ok (record { repo_url = req.repo_url; path = req.target_path; branch = branch }), w)

  -- WorkspaceGitClient.Clone
  unfoldable pub clone : CloneReq → Call W CloneResult
  unfolding prepare_clone_target normalize_branch_name cloned_into git_dir
  clone req w =
      after (λ e. e) (prepare_clone_target req.target_path w)
        λ w.
          if is_empty (normalize_branch_name req.branch)
          then (err (new_error (codes "branch is required")), w)
          else cloned_into req (normalize_branch_name req.branch) (git_dir req.target_path) w

  -- The deletion of the meta data behind that of the worktree; os.RemoveAll of what is not there is no error.
  meta_deleted : Text → Text → Call W (Unit {0})
  unfolding is_subpath
  meta_deleted path dir_path w =
      if is_subpath path dir_path
      then (ok tt, w)
      else after (prefix_wrap (codes "delete repo git metadata")) (c.os.remove_all dir_path w)
          λ w. (ok tt, w)

  repo_deleted : Text → Result Text → Call W (Unit {0})
  unfolding meta_deleted
  repo_deleted path (err e) w = (err e, w)
  repo_deleted path (ok dir_path) w =
      after (prefix_wrap (codes "delete repo worktree")) (c.os.remove_all path w)
        (meta_deleted path dir_path)

  -- WorkspaceGitClient.DeleteRepo
  unfoldable pub delete_repo : DeleteRepoReq → Call W (Unit {0})
  unfolding repo_deleted git_dir trim_space
  delete_repo req w =
      if is_empty (trim_space req.path)
      then (err (new_error (codes "repo path is required")), w)
      else repo_deleted req.path (git_dir req.path) w
