-- ===== src/GitClient.antt =====
-- internal/domain/git: the requests to the git client with their answers, and its interface, whose
-- operations take the state W that they act on. A time is a number.
use workspace_service.Base.{ℕ, ℤ, Bool, List, Text}
use workspace_service.FileInfo.{Actor}
use workspace_service.Calls.{Call}

pub record Credentials : Type 0 where
  pub username : Text
  pub token : Text

pub record CloneReq : Type 0 where
  pub actor : Actor
  pub repo_url : Text
  pub target_path : Text
  pub branch : Text

pub record CloneResult : Type 0 where
  pub repo_url : Text
  pub path : Text
  pub branch : Text

pub record PullReq : Type 0 where
  pub actor : Actor
  pub path : Text
  pub remote_name : Text
  pub branch : Text
  pub credentials : Credentials

pub record PullResult : Type 0 where
  pub already_up_to_date : Bool
  pub head_commit : Text
  pub current_branch : Text

pub record StageReq : Type 0 where
  pub actor : Actor
  pub path : Text
  pub files : List Text
  pub all : Bool

pub record UnstageReq : Type 0 where
  pub actor : Actor
  pub path : Text
  pub files : List Text
  pub all : Bool

pub record CommitReq : Type 0 where
  pub actor : Actor
  pub path : Text
  pub message : Text
  pub author_name : Text
  pub author_email : Text

pub record CommitResult : Type 0 where
  pub nothing_to_commit : Bool
  pub commit_hash : Text

pub record PushReq : Type 0 where
  pub actor : Actor
  pub path : Text
  pub remote_name : Text
  pub branch : Text
  pub credentials : Credentials

pub record PushResult : Type 0 where
  pub pushed : Bool

pub record CommitAndPushReq : Type 0 where
  pub actor : Actor
  pub path : Text
  pub message : Text
  pub author_name : Text
  pub author_email : Text
  pub remote_name : Text
  pub push : Bool
  pub credentials : Credentials

pub record CommitAndPushResult : Type 0 where
  pub nothing_to_commit : Bool
  pub commit_hash : Text
  pub pushed : Bool

pub record CreateBranchReq : Type 0 where
  pub actor : Actor
  pub path : Text
  pub branch : Text
  pub checkout : Bool

pub record CheckoutBranchReq : Type 0 where
  pub actor : Actor
  pub path : Text
  pub branch : Text
  pub create : Bool

pub record BranchResult : Type 0 where
  pub current_branch : Text

pub record ListBranchesReq : Type 0 where
  pub actor : Actor
  pub path : Text

pub record ListBranchesResult : Type 0 where
  pub current_branch : Text
  pub branches : List Text

pub record StatusReq : Type 0 where
  pub actor : Actor
  pub path : Text

pub record RepoInfoReq : Type 0 where
  pub actor : Actor
  pub path : Text

pub record RepoInfoResult : Type 0 where
  pub current_branch : Text
  pub remote_url : Text

pub record FileStatus : Type 0 where
  pub path : Text
  pub staging : Text
  pub worktree : Text

pub record StatusResult : Type 0 where
  pub clean : Bool
  pub files : List FileStatus

pub record CommitHistoryReq : Type 0 where
  pub actor : Actor
  pub path : Text
  pub limit : ℤ

pub record CommitInfo : Type 0 where
  pub hash : Text
  pub author : Text
  pub email : Text
  pub message : Text
  pub when : ℕ

pub record CommitHistoryResult : Type 0 where
  pub commits : List CommitInfo

pub record FileDiffReq : Type 0 where
  pub actor : Actor
  pub path : Text
  pub file : Text

pub record FileDiffResult : Type 0 where
  pub file : Text
  pub head_content_base64 : Text
  pub worktree_content_base64 : Text
  pub head_missing : Bool
  pub worktree_missing : Bool

pub record DiscardChangesReq : Type 0 where
  pub actor : Actor
  pub path : Text

pub record DeleteRepoReq : Type 0 where
  pub actor : Actor
  pub path : Text

pub record GitClient (W : Type 0) : Type 0 where
  pub clone : CloneReq → Call W CloneResult
  pub pull : PullReq → Call W PullResult
  pub stage : StageReq → Call W (Unit {0})
  pub unstage : UnstageReq → Call W (Unit {0})
  pub commit : CommitReq → Call W CommitResult
  pub push : PushReq → Call W PushResult
  pub commit_and_push : CommitAndPushReq → Call W CommitAndPushResult
  pub create_branch : CreateBranchReq → Call W BranchResult
  pub checkout_branch : CheckoutBranchReq → Call W BranchResult
  pub list_branches : ListBranchesReq → Call W ListBranchesResult
  pub status : StatusReq → Call W StatusResult
  pub repo_info : RepoInfoReq → Call W RepoInfoResult
  pub file_diff : FileDiffReq → Call W FileDiffResult
  pub commit_history : CommitHistoryReq → Call W CommitHistoryResult
  pub discard_changes : DiscardChangesReq → Call W (Unit {0})
  pub delete_repo : DeleteRepoReq → Call W (Unit {0})
