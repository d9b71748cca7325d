-- ===== src/Http/GitBodies.antt =====
-- internal/adapter/http/req/git.go: the bodies of the requests to the git service.
use workspace_service.Base.{ℤ, Bool, Option, List, Text}
use workspace_service.Http.{WorkspaceContext}

pub record CloneRepositoryReq : Type 0 where
  pub workspace_context : WorkspaceContext
  pub repo_url : Text
  pub target_path : Text
  pub branch : Text

pub record PullRepoReq : Type 0 where
  pub workspace_context : WorkspaceContext
  pub path : Text
  pub remote_name : Text
  pub branch : Text
  pub git_username : Text
  pub git_token : Text

pub record CommitAndPushReq : Type 0 where
  pub workspace_context : WorkspaceContext
  pub path : Text
  pub message : Text
  pub author_name : Text
  pub author_email : Text
  pub remote_name : Text
  pub push : Option Bool
  pub git_username : Text
  pub git_token : Text

pub record CreateBranchReq : Type 0 where
  pub workspace_context : WorkspaceContext
  pub path : Text
  pub branch : Text
  pub checkout : Bool

pub record CheckoutBranchReq : Type 0 where
  pub workspace_context : WorkspaceContext
  pub path : Text
  pub branch : Text
  pub create : Bool

pub record ListBranchesReq : Type 0 where
  pub workspace_context : WorkspaceContext
  pub path : Text

pub record GetStatusReq : Type 0 where
  pub workspace_context : WorkspaceContext
  pub path : Text

pub record GetFileDiffReq : Type 0 where
  pub workspace_context : WorkspaceContext
  pub path : Text
  pub file : Text

pub record GetCommitHistoryReq : Type 0 where
  pub workspace_context : WorkspaceContext
  pub path : Text
  pub limit : ℤ

pub record DiscardChangesReq : Type 0 where
  pub workspace_context : WorkspaceContext
  pub path : Text

pub record DeleteRepoReq : Type 0 where
  pub workspace_context : WorkspaceContext
  pub path : Text

pub record CreateGitFolderReq : Type 0 where
  pub workspace_context : WorkspaceContext
  pub target_path : Text
  pub repo_url : Text
  pub branch : Text
  pub git_username : Text
  pub git_token : Text

pub record GetGitFolderStatusReq : Type 0 where
  pub workspace_context : WorkspaceContext
  pub path : Text

pub record StageFilesReq : Type 0 where
  pub workspace_context : WorkspaceContext
  pub path : Text
  pub files : List Text
  pub all : Bool

pub record UnstageFilesReq : Type 0 where
  pub workspace_context : WorkspaceContext
  pub path : Text
  pub files : List Text
  pub all : Bool

pub record CommitReq : Type 0 where
  pub workspace_context : WorkspaceContext
  pub path : Text
  pub message : Text
  pub author_name : Text
  pub author_email : Text

pub record PushRepoReq : Type 0 where
  pub workspace_context : WorkspaceContext
  pub path : Text
  pub remote_name : Text
  pub branch : Text
  pub git_username : Text
  pub git_token : Text
