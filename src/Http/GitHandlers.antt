-- ===== src/Http/GitHandlers.antt =====
-- internal/adapter/http/handler/git.go: the handlers of the git service's requests. The clone that
-- CreateGitFolder starts runs beside the service, so the state of its two requests holds the jobs.
use workspace_service.Base.{◌||◌, codes, if◌then◌else◌}
use workspace_service.Errors.{Error, error_is, invalid_clone_req, invalid_git_request}
use workspace_service.Calls.{Call}
use workspace_service.GitService.Requests
use workspace_service.GitService.{Service}
use workspace_service.GitService.Folder.{Machine, create_git_folder}
use workspace_service.GitService.Folder.Status.{get_git_folder_status}
use workspace_service.GitService.Operations.{
  clone_repository, pull_repository, commit_and_push, create_branch, checkout_branch,
  discard_changes, delete_repository, stage_files, unstage_files, commit, push_repository,
}
use workspace_service.GitService.Operations.Queries.{
  list_branches, get_status, get_file_diff, get_commit_history,
}
use workspace_service.GitService.Requests.{
  CloneRepositoryResp, CreateGitFolderResp, GetGitFolderStatusResp, CommitResp, PushRepositoryResp,
  PullRepositoryResp, CommitAndPushResp, BranchResp, ListBranchesResp, StatusResp, FileDiffResp,
  CommitHistoryResp,
}
use workspace_service.Http.{
  Request, Reply, Body, ok_reply, error_reply, bad_request, internal_server_error,
  is_invalid_context, handled, handled_as, Flag, flag,
}
use workspace_service.Http.GitInputs.{
  clone_repository_input, stage_files_input, unstage_files_input, commit_input, push_repo_input,
  pull_repo_input, commit_and_push_input, create_branch_input, checkout_branch_input,
  list_branches_input, get_status_input, get_file_diff_input, get_commit_history_input,
  discard_changes_input, delete_repo_input, create_git_folder_input, get_git_folder_status_input,
}
use workspace_service.Http.GitBodies.{
  CloneRepositoryReq, PullRepoReq, CommitAndPushReq, CreateBranchReq, CheckoutBranchReq,
  ListBranchesReq, GetStatusReq, GetFileDiffReq, GetCommitHistoryReq, DiscardChangesReq,
  DeleteRepoReq, CreateGitFolderReq, GetGitFolderStatusReq, StageFilesReq, UnstageFilesReq,
  CommitReq, PushRepoReq,
}

-- writeGitError
unfoldable pub write_git_error : {B D : Type 0} → Request B → Error → Reply (Body D)
unfolding error_reply is_invalid_context error_is
write_git_error c e =
    if error_is invalid_clone_req e || error_is invalid_git_request e
    then error_reply c bad_request e.message
    else if is_invalid_context e
    then error_reply c bad_request e.message
    else error_reply c internal_server_error e.message

-- The errors of GitHandler.CloneRepository
unfoldable pub write_clone_error : {B D : Type 0} → Request B → Error → Reply (Body D)
unfolding error_reply error_is
write_clone_error c e =
    if error_is invalid_clone_req e
    then error_reply c bad_request e.message
    else error_reply c internal_server_error e.message

-- The machine with the world that a request leaves.
abbrev pub in_machine : {W A : Type 0} → Machine W → A × W → A × Machine W
in_machine m (result, w) = (result, record m { world = w })

module _ {W : Type 0} (s : Service W) where
  -- GitHandler.CloneRepository
  unfoldable pub handle_clone_repository :
      Request CloneRepositoryReq → W → Reply (Body CloneRepositoryResp) × W
  unfolding handled_as clone_repository write_clone_error ok_reply
  handle_clone_repository =
      handled (λ b. b.workspace_context) (λ rc b. clone_repository s (clone_repository_input rc b))
        ok_reply write_clone_error

  -- GitHandler.StageFiles
  unfoldable pub handle_stage_files : Request StageFilesReq → W → Reply (Body Flag) × W
  unfolding handled_as stage_files write_git_error flag
  handle_stage_files =
      handled (λ b. b.workspace_context) (λ rc b. stage_files s (stage_files_input rc b))
        (flag (codes "staged")) write_git_error

  -- GitHandler.UnstageFiles
  unfoldable pub handle_unstage_files : Request UnstageFilesReq → W → Reply (Body Flag) × W
  unfolding handled_as unstage_files write_git_error flag
  handle_unstage_files =
      handled (λ b. b.workspace_context) (λ rc b. unstage_files s (unstage_files_input rc b))
        (flag (codes "unstaged")) write_git_error

  -- GitHandler.Commit
  unfoldable pub handle_commit : Request CommitReq → W → Reply (Body CommitResp) × W
  unfolding handled_as commit write_git_error ok_reply
  handle_commit =
      handled (λ b. b.workspace_context) (λ rc b. commit s (commit_input rc b)) ok_reply
        write_git_error

  -- GitHandler.PushRepo
  unfoldable pub handle_push_repo : Request PushRepoReq → W → Reply (Body PushRepositoryResp) × W
  unfolding handled_as push_repository write_git_error ok_reply
  handle_push_repo =
      handled (λ b. b.workspace_context) (λ rc b. push_repository s (push_repo_input rc b)) ok_reply
        write_git_error

  -- GitHandler.PullRepo
  unfoldable pub handle_pull_repo : Request PullRepoReq → W → Reply (Body PullRepositoryResp) × W
  unfolding handled_as pull_repository write_git_error ok_reply
  handle_pull_repo =
      handled (λ b. b.workspace_context) (λ rc b. pull_repository s (pull_repo_input rc b)) ok_reply
        write_git_error

  -- GitHandler.CommitAndPush
  unfoldable pub handle_commit_and_push :
      Request CommitAndPushReq → W → Reply (Body CommitAndPushResp) × W
  unfolding handled_as commit_and_push write_git_error ok_reply
  handle_commit_and_push =
      handled (λ b. b.workspace_context) (λ rc b. commit_and_push s (commit_and_push_input rc b))
        ok_reply write_git_error

  -- GitHandler.CreateBranch
  unfoldable pub handle_create_branch : Request CreateBranchReq → W → Reply (Body BranchResp) × W
  unfolding handled_as create_branch write_git_error ok_reply
  handle_create_branch =
      handled (λ b. b.workspace_context) (λ rc b. create_branch s (create_branch_input rc b))
        ok_reply write_git_error

  -- GitHandler.CheckoutBranch
  unfoldable pub handle_checkout_branch :
      Request CheckoutBranchReq → W → Reply (Body BranchResp) × W
  unfolding handled_as checkout_branch write_git_error ok_reply
  handle_checkout_branch =
      handled (λ b. b.workspace_context) (λ rc b. checkout_branch s (checkout_branch_input rc b))
        ok_reply write_git_error

  -- GitHandler.ListBranches
  unfoldable pub handle_list_branches :
      Request ListBranchesReq → W → Reply (Body ListBranchesResp) × W
  unfolding handled_as list_branches write_git_error ok_reply
  handle_list_branches =
      handled (λ b. b.workspace_context) (λ rc b. list_branches s (list_branches_input rc b))
        ok_reply write_git_error

  -- GitHandler.GetStatus
  unfoldable pub handle_get_status : Request GetStatusReq → W → Reply (Body StatusResp) × W
  unfolding handled_as get_status write_git_error ok_reply
  handle_get_status =
      handled (λ b. b.workspace_context) (λ rc b. get_status s (get_status_input rc b)) ok_reply
        write_git_error

  -- GitHandler.GetFileDiff
  unfoldable pub handle_get_file_diff : Request GetFileDiffReq → W → Reply (Body FileDiffResp) × W
  unfolding handled_as get_file_diff write_git_error ok_reply
  handle_get_file_diff =
      handled (λ b. b.workspace_context) (λ rc b. get_file_diff s (get_file_diff_input rc b))
        ok_reply write_git_error

  -- GitHandler.GetCommitHistory
  unfoldable pub handle_get_commit_history :
      Request GetCommitHistoryReq → W → Reply (Body CommitHistoryResp) × W
  unfolding handled_as get_commit_history write_git_error ok_reply
  handle_get_commit_history =
      handled (λ b. b.workspace_context)
        (λ rc b. get_commit_history s (get_commit_history_input rc b)) ok_reply write_git_error

  -- GitHandler.DiscardChanges
  unfoldable pub handle_discard_changes : Request DiscardChangesReq → W → Reply (Body Flag) × W
  unfolding handled_as discard_changes write_git_error flag
  handle_discard_changes =
      handled (λ b. b.workspace_context) (λ rc b. discard_changes s (discard_changes_input rc b))
        (flag (codes "discarded")) write_git_error

  -- GitHandler.DeleteRepo
  unfoldable pub handle_delete_repo : Request DeleteRepoReq → W → Reply (Body Flag) × W
  unfolding handled_as delete_repository write_git_error flag
  handle_delete_repo =
      handled (λ b. b.workspace_context) (λ rc b. delete_repository s (delete_repo_input rc b))
        (flag (codes "deleted")) write_git_error

  -- GitHandler.CreateGitFolder
  unfoldable pub handle_create_git_folder :
      Request CreateGitFolderReq → Machine W → Reply (Body CreateGitFolderResp) × Machine W
  unfolding handled_as create_git_folder write_git_error ok_reply
  handle_create_git_folder =
      handled (λ b. b.workspace_context)
        (λ rc b. create_git_folder s (create_git_folder_input rc b)) ok_reply write_git_error

  unfoldable pub known_status :
      Requests.GetGitFolderStatusReq → Call (Machine W) GetGitFolderStatusResp
  unfolding get_git_folder_status
  known_status input m = in_machine m (get_git_folder_status s m.registry input m.world)

  -- GitHandler.GetGitFolderStatus
  unfoldable pub handle_get_git_folder_status :
      Request GetGitFolderStatusReq → Machine W → Reply (Body GetGitFolderStatusResp) × Machine W
  unfolding handled_as known_status write_git_error ok_reply
  handle_get_git_folder_status =
      handled (λ b. b.workspace_context) (λ rc b. known_status (get_git_folder_status_input rc b))
        ok_reply write_git_error
