-- ===== src/GitService/Requests.antt =====
-- The requests to the git service and its answers: service.go, operations.go, stage.go and
-- git_folder.go in internal/usecase/git.
use workspace_service.Base.{ℕ, ℤ, Bool, List, Text}
use workspace_service.Identity.{RequestContext}
use workspace_service.GitClient

pub record CloneRepositoryReq : Type 0 where
  pub context : RequestContext
  pub repo_url : Text
  pub target_path : Text
  pub branch : Text

pub record CloneRepositoryResp : Type 0 where
  pub repo_url : Text
  pub path : Text
  pub branch : Text

pub record Credentials : Type 0 where
  pub username : Text
  pub token : Text

-- Credentials.toDomain
unfoldable pub to_domain : Credentials → GitClient.Credentials
to_domain c = record { username = c.username; token = c.token }

pub record PullRepositoryReq : Type 0 where
  pub context : RequestContext
  pub path : Text
  pub remote_name : Text
  pub branch : Text
  pub credentials : Credentials

pub record PullRepositoryResp : Type 0 where
  pub already_up_to_date : Bool
  pub head_commit : Text
  pub current_branch : Text

pub record CommitAndPushReq : Type 0 where
  pub context : RequestContext
  pub path : Text
  pub message : Text
  pub author_name : Text
  pub author_email : Text
  pub remote_name : Text
  pub push : Bool
  pub credentials : Credentials

pub record CommitAndPushResp : Type 0 where
  pub nothing_to_commit : Bool
  pub commit_hash : Text
  pub pushed : Bool

pub record CreateBranchReq : Type 0 where
  pub context : RequestContext
  pub path : Text
  pub branch : Text
  pub checkout : Bool

pub record CheckoutBranchReq : Type 0 where
  pub context : RequestContext
  pub path : Text
  pub branch : Text
  pub create : Bool

pub record BranchResp : Type 0 where
  pub current_branch : Text

pub record ListBranchesReq : Type 0 where
  pub context : RequestContext
  pub path : Text

pub record ListBranchesResp : Type 0 where
  pub current_branch : Text
  pub branches : List Text

pub record StatusReq : Type 0 where
  pub context : RequestContext
  pub path : Text

pub record FileStatus : Type 0 where
  pub path : Text
  pub staging : Text
  pub worktree : Text

pub record StatusResp : Type 0 where
  pub clean : Bool
  pub files : List FileStatus

pub record FileDiffReq : Type 0 where
  pub context : RequestContext
  pub path : Text
  pub file : Text

pub record FileDiffResp : Type 0 where
  pub file : Text
  pub head_content_base64 : Text
  pub worktree_content_base64 : Text
  pub head_missing : Bool
  pub worktree_missing : Bool

pub record CommitHistoryReq : Type 0 where
  pub context : RequestContext
  pub path : Text
  pub limit : ℤ

pub record CommitInfo : Type 0 where
  pub hash : Text
  pub author : Text
  pub email : Text
  pub message : Text
  pub when : Text

pub record CommitHistoryResp : Type 0 where
  pub commits : List CommitInfo

pub record DiscardChangesReq : Type 0 where
  pub context : RequestContext
  pub path : Text

pub record DeleteRepositoryReq : Type 0 where
  pub context : RequestContext
  pub path : Text

pub record StageFilesReq : Type 0 where
  pub context : RequestContext
  pub path : Text
  pub files : List Text
  pub all : Bool

pub record UnstageFilesReq : Type 0 where
  pub context : RequestContext
  pub path : Text
  pub files : List Text
  pub all : Bool

pub record CommitReq : Type 0 where
  pub context : RequestContext
  pub path : Text
  pub message : Text
  pub author_name : Text
  pub author_email : Text

pub record CommitResp : Type 0 where
  pub nothing_to_commit : Bool
  pub commit_hash : Text

pub record PushRepositoryReq : Type 0 where
  pub context : RequestContext
  pub path : Text
  pub remote_name : Text
  pub branch : Text
  pub git_username : Text
  pub git_token : Text

pub record PushRepositoryResp : Type 0 where
  pub pushed : Bool

pub record CreateGitFolderReq : Type 0 where
  pub context : RequestContext
  pub target_path : Text
  pub repo_url : Text
  pub branch : Text
  pub git_username : Text
  pub git_token : Text

pub record CreateGitFolderResp : Type 0 where
  pub path : Text
  pub status : ℕ
  pub branch : Text
  pub repo_url : Text

pub record GetGitFolderStatusReq : Type 0 where
  pub context : RequestContext
  pub path : Text

pub record GetGitFolderStatusResp : Type 0 where
  pub status : ℕ
  pub message : Text
  pub path : Text
  pub branch : Text
  pub repo_url : Text
