-- ===== src/Http/Router/GitRoutes.antt =====
-- The routes of the git service, registerGitRoutes of internal/adapter/http/router/router.go: a
-- request by its route, and what the engine does with it. The state is that of the git folders: the
-- other requests act on the world in it.
use workspace_service.Base.{ℕ, Text, codes}
use workspace_service.Errors.{Result}
use workspace_service.GitService.{Service}
use workspace_service.GitService.Folder.{Machine}
use workspace_service.Http.{Request, Reply, sent}
use workspace_service.Http.Binding.{identity_of}
use workspace_service.Http.GitBodies.{
  CloneRepositoryReq, CreateGitFolderReq, GetGitFolderStatusReq, PullRepoReq, StageFilesReq,
  UnstageFilesReq, CommitReq, PushRepoReq, CommitAndPushReq, CreateBranchReq, CheckoutBranchReq,
  ListBranchesReq, GetStatusReq, GetFileDiffReq, GetCommitHistoryReq, DiscardChangesReq,
  DeleteRepoReq,
}
use workspace_service.Http.GitHandlers.{
  handle_clone_repository, handle_create_git_folder, handle_get_git_folder_status, handle_pull_repo,
  handle_stage_files, handle_unstage_files, handle_commit, handle_push_repo, handle_commit_and_push,
  handle_create_branch, handle_checkout_branch, handle_list_branches, handle_get_status,
  handle_get_file_diff, handle_get_commit_history, handle_discard_changes, handle_delete_repo,
}
use workspace_service.Http.Router.{join_route}
use workspace_service.Identity.{RequestContext}

-- A POST on one of the routes.
pub data GitRequest : Type 0 where
  to_clone_repo : Request CloneRepositoryReq → GitRequest
  to_create_git_folder : Request CreateGitFolderReq → GitRequest
  to_get_git_folder_status : Request GetGitFolderStatusReq → GitRequest
  to_pull_repo : Request PullRepoReq → GitRequest
  to_stage_files : Request StageFilesReq → GitRequest
  to_unstage_files : Request UnstageFilesReq → GitRequest
  to_commit : Request CommitReq → GitRequest
  to_push_repo : Request PushRepoReq → GitRequest
  to_commit_and_push : Request CommitAndPushReq → GitRequest
  to_create_branch : Request CreateBranchReq → GitRequest
  to_checkout_branch : Request CheckoutBranchReq → GitRequest
  to_list_branches : Request ListBranchesReq → GitRequest
  to_get_status : Request GetStatusReq → GitRequest
  to_get_file_diff : Request GetFileDiffReq → GitRequest
  to_get_commit_history : Request GetCommitHistoryReq → GitRequest
  to_discard_changes : Request DiscardChangesReq → GitRequest
  to_delete_repo : Request DeleteRepoReq → GitRequest

route_name : GitRequest → Text
route_name (to_clone_repo c) = codes "/CloneRepo"
route_name (to_create_git_folder c) = codes "/CreateGitFolder"
route_name (to_get_git_folder_status c) = codes "/GetGitFolderStatus"
route_name (to_pull_repo c) = codes "/PullRepo"
route_name (to_stage_files c) = codes "/StageFiles"
route_name (to_unstage_files c) = codes "/UnstageFiles"
route_name (to_commit c) = codes "/Commit"
route_name (to_push_repo c) = codes "/PushRepo"
route_name (to_commit_and_push c) = codes "/CommitAndPush"
route_name (to_create_branch c) = codes "/CreateBranch"
route_name (to_checkout_branch c) = codes "/CheckoutBranch"
route_name (to_list_branches c) = codes "/ListBranches"
route_name (to_get_status c) = codes "/GetStatus"
route_name (to_get_file_diff c) = codes "/GetFileDiff"
route_name (to_get_commit_history c) = codes "/GetCommitHistory"
route_name (to_discard_changes c) = codes "/DiscardChanges"
route_name (to_delete_repo c) = codes "/DeleteRepo"

-- The path that the request's route is registered on.
unfoldable pub git_route : Text → GitRequest → Text
unfolding join_route route_name
git_route url_prefix r = join_route url_prefix (route_name r)

-- The identity that a handler binds, or why it does not.
unfoldable pub git_identity : GitRequest → Result RequestContext
unfolding identity_of
git_identity (to_clone_repo c) = identity_of (λ b. b.workspace_context) c
git_identity (to_create_git_folder c) = identity_of (λ b. b.workspace_context) c
git_identity (to_get_git_folder_status c) = identity_of (λ b. b.workspace_context) c
git_identity (to_pull_repo c) = identity_of (λ b. b.workspace_context) c
git_identity (to_stage_files c) = identity_of (λ b. b.workspace_context) c
git_identity (to_unstage_files c) = identity_of (λ b. b.workspace_context) c
git_identity (to_commit c) = identity_of (λ b. b.workspace_context) c
git_identity (to_push_repo c) = identity_of (λ b. b.workspace_context) c
git_identity (to_commit_and_push c) = identity_of (λ b. b.workspace_context) c
git_identity (to_create_branch c) = identity_of (λ b. b.workspace_context) c
git_identity (to_checkout_branch c) = identity_of (λ b. b.workspace_context) c
git_identity (to_list_branches c) = identity_of (λ b. b.workspace_context) c
git_identity (to_get_status c) = identity_of (λ b. b.workspace_context) c
git_identity (to_get_file_diff c) = identity_of (λ b. b.workspace_context) c
git_identity (to_get_commit_history c) = identity_of (λ b. b.workspace_context) c
git_identity (to_discard_changes c) = identity_of (λ b. b.workspace_context) c
git_identity (to_delete_repo c) = identity_of (λ b. b.workspace_context) c

-- A request that acts on the world alone.
abbrev pub in_world : {W P : Type 0} → Machine W → Reply P × W → ℕ × Machine W
in_world m (reply, w) = (reply.status, record m { world = w })

module _ {W : Type 0} (s : Service W) where
  -- The status of the reply, and the state that the request leaves.
  unfoldable pub serve_git : GitRequest → Machine W → ℕ × Machine W
  unfolding handle_clone_repository handle_create_git_folder handle_get_git_folder_status
      handle_pull_repo handle_stage_files handle_unstage_files handle_commit handle_push_repo
      handle_commit_and_push handle_create_branch handle_checkout_branch handle_list_branches
      handle_get_status handle_get_file_diff handle_get_commit_history handle_discard_changes
      handle_delete_repo
  serve_git (to_clone_repo c) m = in_world m (handle_clone_repository s c m.world)
  serve_git (to_create_git_folder c) m = sent (handle_create_git_folder s c m)
  serve_git (to_get_git_folder_status c) m = sent (handle_get_git_folder_status s c m)
  serve_git (to_pull_repo c) m = in_world m (handle_pull_repo s c m.world)
  serve_git (to_stage_files c) m = in_world m (handle_stage_files s c m.world)
  serve_git (to_unstage_files c) m = in_world m (handle_unstage_files s c m.world)
  serve_git (to_commit c) m = in_world m (handle_commit s c m.world)
  serve_git (to_push_repo c) m = in_world m (handle_push_repo s c m.world)
  serve_git (to_commit_and_push c) m = in_world m (handle_commit_and_push s c m.world)
  serve_git (to_create_branch c) m = in_world m (handle_create_branch s c m.world)
  serve_git (to_checkout_branch c) m = in_world m (handle_checkout_branch s c m.world)
  serve_git (to_list_branches c) m = in_world m (handle_list_branches s c m.world)
  serve_git (to_get_status c) m = in_world m (handle_get_status s c m.world)
  serve_git (to_get_file_diff c) m = in_world m (handle_get_file_diff s c m.world)
  serve_git (to_get_commit_history c) m = in_world m (handle_get_commit_history s c m.world)
  serve_git (to_discard_changes c) m = in_world m (handle_discard_changes s c m.world)
  serve_git (to_delete_repo c) m = in_world m (handle_delete_repo s c m.world)
