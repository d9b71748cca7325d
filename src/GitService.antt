-- ===== src/GitService.antt =====
-- internal/usecase/git/service.go: the git service's state, and how it resolves the paths of its
-- requests.
pub mod Requests
pub mod Operations
pub mod Isolation
pub mod Fence
pub mod Scope
pub mod Confinement
pub mod Folder
use workspace_service.Base.{
  ℕ, Bool, not, ◌&&◌, Option, List, [], ◌∷◌, ◌++◌, Text, codes, text_eq, is_empty, trim_space,
  has_prefix, if◌then◌else◌,
}
use workspace_service.Errors.{
  Error, Result, ok, err, Sentinel, sentinel_text, sentinel_show, sentinel_wrap,
  invalid_git_request, invalid_clone_req, map_err, ◌>>=◌, ◌>>◌,
}
use workspace_service.File.{NodeStore}
use workspace_service.FilePath.{separator, join}
use workspace_service.Calls.{Call}
use workspace_service.GitClient.{GitClient, CloneReq, ListBranchesResult}
use workspace_service.Identity.{RequestContext, normalize, validate, resolve_relative_path}
use workspace_service.Os.{Os}
use workspace_service.Calls.{checked}
use Requests.{CloneRepositoryReq}

-- A service over the state W; the registry of clone jobs is a state of its own. `format_time` is
-- time.Format.
pub record Service (W : Type 0) : Type 0 where
  pub git_client : GitClient W
  pub mount_root : Text
  pub node_store : Option (NodeStore W)
  pub os : Os W
  pub format_time : ℕ → Text

-- The path joined to the mount root, unless it leaves it.
unfoldable pub within_mount : Sentinel → Text → Text → Result Text
within_mount wrap mount_root abs =
    if not (has_prefix (mount_root ++ (separator ∷ [])) abs) && not (text_eq abs mount_root)
    then err (sentinel_text wrap (codes "path escapes workspace mount root"))
    else ok abs

-- Service.resolveAbsPath
unfoldable pub resolve_abs_path : Text → RequestContext → Text → Sentinel → Result Text
unfolding within_mount
resolve_abs_path mount_root ctx rel_path wrap =
    if is_empty mount_root
    then err (sentinel_text wrap (codes "workspace mount root is required"))
    else (map_err (sentinel_show wrap) (resolve_relative_path ctx rel_path) >>= λ resolved.
        within_mount wrap mount_root (join (mount_root ∷ resolved ∷ [])))

-- Service.resolveActorAndPath
unfoldable pub resolve_actor_and_path :
    Text → RequestContext → Text → Result (RequestContext × Text)
unfolding resolve_abs_path
resolve_actor_and_path mount_root ctx path = do
  map_err (sentinel_wrap invalid_git_request) (validate (normalize ctx))
  abs ← resolve_abs_path mount_root (normalize ctx) path invalid_git_request
  ok (normalize ctx, abs)

-- The text, unless it is empty.
unfoldable pub required : Sentinel → Text → Text → Result Text
required wrap message text = if is_empty text then err (sentinel_text wrap message) else ok text

-- Service.buildCloneReq
unfoldable pub build_clone_req : Text → CloneRepositoryReq → Result CloneReq
unfolding resolve_abs_path required
build_clone_req mount_root input = do
  map_err (sentinel_wrap invalid_clone_req) (validate (normalize input.context))
  repo_url ← required invalid_clone_req (codes "repo_url is required") (trim_space input.repo_url)
  target_path ←
      required invalid_clone_req (codes "target_path is required") (trim_space input.target_path)
  branch ← required invalid_clone_req (codes "branch is required") (trim_space input.branch)
  abs ← resolve_abs_path mount_root (normalize input.context) target_path invalid_clone_req
  ok (record {
    actor = normalize input.context;
    repo_url = repo_url;
    target_path = abs;
    branch = branch;
  })

current : {W : Type 0} → Result ListBranchesResult × W → Result Text × W
current (ok result, w) = (ok result.current_branch, w)
current (err e, w) = (err e, w)

-- Service.LookupGitBranch
unfoldable pub lookup_git_branch : {W : Type 0} → Service W → RequestContext → Text → Call W Text
unfolding resolve_actor_and_path current
lookup_git_branch s ident path =
    checked (resolve_actor_and_path s.mount_root ident path)
      λ found w. current (s.git_client.list_branches (record { actor = found.0; path = found.1 }) w)
