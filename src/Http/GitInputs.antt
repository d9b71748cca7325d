-- ===== src/Http/GitInputs.antt =====
-- What the handlers of internal/adapter/http/handler/git.go hand to the git service: the requests that
-- they make of the bodies.
use workspace_service.Base.{Bool, true, Option, none, some}
use workspace_service.GitService.Requests
use workspace_service.Http.GitBodies.{
  CloneRepositoryReq, PullRepoReq, CommitAndPushReq, CreateBranchReq, CheckoutBranchReq,
  ListBranchesReq, GetStatusReq, GetFileDiffReq, GetCommitHistoryReq, DiscardChangesReq,
  DeleteRepoReq, CreateGitFolderReq, GetGitFolderStatusReq, StageFilesReq, UnstageFilesReq,
  CommitReq, PushRepoReq,
}
use workspace_service.Identity.{RequestContext}

-- Whether to push: a body that does not say so pushes.
abbrev pub pushes : Option Bool → Bool
pushes none = true
pushes (some push) = push

-- The input of the service, in GitHandler.CloneRepository
abbrev pub clone_repository_input :
    RequestContext → CloneRepositoryReq → Requests.CloneRepositoryReq
clone_repository_input rc b = record {
  context = rc;
  repo_url = b.repo_url;
  target_path = b.target_path;
  branch = b.branch;
}

-- The input of the service, in GitHandler.StageFiles
abbrev pub stage_files_input : RequestContext → StageFilesReq → Requests.StageFilesReq
stage_files_input rc b = record { context = rc; path = b.path; files = b.files; all = b.all }

-- The input of the service, in GitHandler.UnstageFiles
abbrev pub unstage_files_input : RequestContext → UnstageFilesReq → Requests.UnstageFilesReq
unstage_files_input rc b = record { context = rc; path = b.path; files = b.files; all = b.all }

-- The input of the service, in GitHandler.Commit
abbrev pub commit_input : RequestContext → CommitReq → Requests.CommitReq
commit_input rc b = record {
  context = rc;
  path = b.path;
  message = b.message;
  author_name = b.author_name;
  author_email = b.author_email;
}

-- The input of the service, in GitHandler.PushRepo
abbrev pub push_repo_input : RequestContext → PushRepoReq → Requests.PushRepositoryReq
push_repo_input rc b = record {
  context = rc;
  path = b.path;
  remote_name = b.remote_name;
  branch = b.branch;
  git_username = b.git_username;
  git_token = b.git_token;
}

-- The input of the service, in GitHandler.PullRepo
abbrev pub pull_repo_input : RequestContext → PullRepoReq → Requests.PullRepositoryReq
pull_repo_input rc b = record {
  context = rc;
  path = b.path;
  remote_name = b.remote_name;
  branch = b.branch;
  credentials = record { username = b.git_username; token = b.git_token };
}

-- The input of the service, in GitHandler.CommitAndPush
abbrev pub commit_and_push_input : RequestContext → CommitAndPushReq → Requests.CommitAndPushReq
commit_and_push_input rc b = record {
  context = rc;
  path = b.path;
  message = b.message;
  author_name = b.author_name;
  author_email = b.author_email;
  remote_name = b.remote_name;
  push = pushes b.push;
  credentials = record { username = b.git_username; token = b.git_token };
}

-- The input of the service, in GitHandler.CreateBranch
abbrev pub create_branch_input : RequestContext → CreateBranchReq → Requests.CreateBranchReq
create_branch_input rc b = record {
  context = rc;
  path = b.path;
  branch = b.branch;
  checkout = b.checkout;
}

-- The input of the service, in GitHandler.CheckoutBranch
abbrev pub checkout_branch_input : RequestContext → CheckoutBranchReq → Requests.CheckoutBranchReq
checkout_branch_input rc b = record {
  context = rc;
  path = b.path;
  branch = b.branch;
  create = b.create;
}

-- The input of the service, in GitHandler.ListBranches
abbrev pub list_branches_input : RequestContext → ListBranchesReq → Requests.ListBranchesReq
list_branches_input rc b = record { context = rc; path = b.path }

-- The input of the service, in GitHandler.GetStatus
abbrev pub get_status_input : RequestContext → GetStatusReq → Requests.StatusReq
get_status_input rc b = record { context = rc; path = b.path }

-- The input of the service, in GitHandler.GetFileDiff
abbrev pub get_file_diff_input : RequestContext → GetFileDiffReq → Requests.FileDiffReq
get_file_diff_input rc b = record { context = rc; path = b.path; file = b.file }

-- The input of the service, in GitHandler.GetCommitHistory
abbrev pub get_commit_history_input :
    RequestContext → GetCommitHistoryReq → Requests.CommitHistoryReq
get_commit_history_input rc b = record { context = rc; path = b.path; limit = b.limit }

-- The input of the service, in GitHandler.DiscardChanges
abbrev pub discard_changes_input : RequestContext → DiscardChangesReq → Requests.DiscardChangesReq
discard_changes_input rc b = record { context = rc; path = b.path }

-- The input of the service, in GitHandler.DeleteRepo
abbrev pub delete_repo_input : RequestContext → DeleteRepoReq → Requests.DeleteRepositoryReq
delete_repo_input rc b = record { context = rc; path = b.path }

-- The input of the service, in GitHandler.CreateGitFolder
abbrev pub create_git_folder_input :
    RequestContext → CreateGitFolderReq → Requests.CreateGitFolderReq
create_git_folder_input rc b = record {
  context = rc;
  target_path = b.target_path;
  repo_url = b.repo_url;
  branch = b.branch;
  git_username = b.git_username;
  git_token = b.git_token;
}

-- The input of the service, in GitHandler.GetGitFolderStatus
abbrev pub get_git_folder_status_input :
    RequestContext → GetGitFolderStatusReq → Requests.GetGitFolderStatusReq
get_git_folder_status_input rc b = record { context = rc; path = b.path }
