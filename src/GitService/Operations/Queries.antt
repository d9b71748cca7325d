-- ===== src/GitService/Operations/Queries.antt =====
-- The requests to the git service that read, of internal/usecase/git/operations.go.
use workspace_service.Base.{codes, map, trim_space}
use workspace_service.Calls.{Call, checked, answer}
use workspace_service.Errors.{invalid_git_request}
use workspace_service.GitClient
use workspace_service.GitService.{Service, resolve_actor_and_path, required}
use workspace_service.GitService.Requests.{
  ListBranchesReq, ListBranchesResp, StatusReq, StatusResp, FileStatus, FileDiffReq, FileDiffResp,
  CommitHistoryReq, CommitHistoryResp, CommitInfo,
}

module _ {W : Type 0} (s : Service W) where
  -- Service.ListBranches
  unfoldable pub list_branches : ListBranchesReq → Call W ListBranchesResp
  list_branches input =
      checked (resolve_actor_and_path s.mount_root input.context input.path) λ found w.
        answer (codes "list branches")
          (λ r. record { current_branch = r.current_branch; branches = r.branches })
          (s.git_client.list_branches (record { actor = found.0; path = found.1 }) w)

  file_status : GitClient.FileStatus → FileStatus
  file_status f = record { path = f.path; staging = f.staging; worktree = f.worktree }

  -- Service.GetStatus
  unfoldable pub get_status : StatusReq → Call W StatusResp
  unfolding file_status
  get_status input =
      checked (resolve_actor_and_path s.mount_root input.context input.path) λ found w.
        answer (codes "get status")
          (λ r. record { clean = r.clean; files = map file_status r.files })
          (s.git_client.status (record { actor = found.0; path = found.1 }) w)

  -- Service.GetFileDiff
  unfoldable pub get_file_diff : FileDiffReq → Call W FileDiffResp
  unfolding required
  get_file_diff input =
      checked (resolve_actor_and_path s.mount_root input.context input.path) λ found.
        checked (required invalid_git_request (codes "file is required") (trim_space input.file))
          λ file w.
            answer (codes "get file diff")
              (λ r. record {
                file = r.file;
                head_content_base64 = r.head_content_base64;
                worktree_content_base64 = r.worktree_content_base64;
                head_missing = r.head_missing;
                worktree_missing = r.worktree_missing;
              })
              (s.git_client.file_diff (record { actor = found.0; path = found.1; file = file }) w)

  commit_info : GitClient.CommitInfo → CommitInfo
  commit_info c = record {
    hash = c.hash;
    author = c.author;
    email = c.email;
    message = c.message;
    when = s.format_time c.when;
  }

  -- Service.GetCommitHistory
  unfoldable pub get_commit_history : CommitHistoryReq → Call W CommitHistoryResp
  unfolding commit_info
  get_commit_history input =
      checked (resolve_actor_and_path s.mount_root input.context input.path) λ found w.
        answer (codes "get commit history") (λ r. record { commits = map commit_info r.commits })
          (s.git_client.commit_history
            (record { actor = found.0; path = found.1; limit = input.limit }) w)
