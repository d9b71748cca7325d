-- ===== src/GitService/Operations.antt =====
-- The requests to the git service, of operations.go, stage.go and service.go in internal/usecase/git:
-- each is checked and resolved, and handed to the git client. On Unix filepath.ToSlash changes
-- nothing.
pub mod Queries
use workspace_service.Base.{
  Bool, List, [], ◌∷◌, ◌++◌, Text, codes, is_empty, trim_space, if◌then◌else◌,
}
use workspace_service.Calls.{Call, checked, answer}
use workspace_service.Errors.{Result, ok, err, invalid_git_request}
use workspace_service.GitClient
use workspace_service.GitService.{Service, resolve_actor_and_path, build_clone_req, required}
use workspace_service.GitService.Requests.{
  CloneRepositoryReq, CloneRepositoryResp, PullRepositoryReq, PullRepositoryResp, CommitAndPushReq,
  CommitAndPushResp, CreateBranchReq, CheckoutBranchReq, BranchResp, StageFilesReq, UnstageFilesReq,
  CommitReq, CommitResp, PushRepositoryReq, PushRepositoryResp, DiscardChangesReq,
  DeleteRepositoryReq, to_domain,
}

-- The text, or another one in place of an empty one.
unfoldable pub or_default : Text → Text → Text
or_default text other = if is_empty text then other else text

unfoldable pub author_email_of : Text → Text → Text
unfolding or_default
author_email_of uin given = or_default (trim_space given) (uin ++ codes "@wedata")

unfoldable pub message_of : Text → Result Text
unfolding required
message_of given = required invalid_git_request (codes "message is required") (trim_space given)

unfoldable pub branch_of : Text → Result Text
unfolding required
branch_of given = required invalid_git_request (codes "branch is required") (trim_space given)

abbrev pub branch_resp : GitClient.BranchResult → BranchResp
branch_resp r = record { current_branch = r.current_branch }

module _ {W : Type 0} (s : Service W) where
  -- Service.CloneRepository
  unfoldable pub clone_repository : CloneRepositoryReq → Call W CloneRepositoryResp
  unfolding build_clone_req
  clone_repository input = checked (build_clone_req s.mount_root input) λ req w.
      answer (codes "clone repository")
        (λ r. record { repo_url = r.repo_url; path = r.path; branch = r.branch })
        (s.git_client.clone req w)

  -- Service.PullRepository
  unfoldable pub pull_repository : PullRepositoryReq → Call W PullRepositoryResp
  unfolding to_domain
  pull_repository input =
      checked (resolve_actor_and_path s.mount_root input.context input.path) λ found w.
        answer (codes "pull repository")
          (λ r. record {
            already_up_to_date = r.already_up_to_date;
            head_commit = r.head_commit;
            current_branch = r.current_branch;
          })
          (s.git_client.pull
            (record {
              actor = found.0;
              path = found.1;
              remote_name = trim_space input.remote_name;
              branch = trim_space input.branch;
              credentials = to_domain input.credentials;
            })
            w)

  -- Service.CommitAndPush
  unfoldable pub commit_and_push : CommitAndPushReq → Call W CommitAndPushResp
  unfolding to_domain message_of author_email_of
  commit_and_push input =
      checked (resolve_actor_and_path s.mount_root input.context input.path) λ found.
        checked (message_of input.message) λ message w.
          answer (codes "commit and push")
            (λ r. record {
              nothing_to_commit = r.nothing_to_commit;
              commit_hash = r.commit_hash;
              pushed = r.pushed;
            })
            (s.git_client.commit_and_push
              (record {
                actor = found.0;
                path = found.1;
                message = message;
                author_name = or_default (trim_space input.author_name) found.0.uin;
                author_email = author_email_of found.0.uin input.author_email;
                remote_name = trim_space input.remote_name;
                push = input.push;
                credentials = to_domain input.credentials;
              })
              w)

  -- Service.CreateBranch
  unfoldable pub create_branch : CreateBranchReq → Call W BranchResp
  unfolding branch_of
  create_branch input =
      checked (resolve_actor_and_path s.mount_root input.context input.path) λ found.
        checked (branch_of input.branch) λ branch w. answer (codes "create branch") branch_resp (
          s.git_client.create_branch
            (record { actor = found.0; path = found.1; branch = branch; checkout = input.checkout })
            w)

  -- Service.CheckoutBranch
  unfoldable pub checkout_branch : CheckoutBranchReq → Call W BranchResp
  unfolding branch_of
  checkout_branch input =
      checked (resolve_actor_and_path s.mount_root input.context input.path) λ found.
        checked (branch_of input.branch) λ branch w. answer (codes "checkout branch") branch_resp (
          s.git_client.checkout_branch
            (record { actor = found.0; path = found.1; branch = branch; create = input.create }) w)

  -- Service.DiscardChanges
  unfoldable pub discard_changes : DiscardChangesReq → Call W (Unit {0})
  discard_changes input =
      checked (resolve_actor_and_path s.mount_root input.context input.path) λ found w.
        answer (codes "discard changes") (λ u. u)
          (s.git_client.discard_changes (record { actor = found.0; path = found.1 }) w)

  -- Service.DeleteRepository
  unfoldable pub delete_repository : DeleteRepositoryReq → Call W (Unit {0})
  delete_repository input =
      checked (resolve_actor_and_path s.mount_root input.context input.path) λ found w.
        answer (codes "delete repository") (λ u. u)
          (s.git_client.delete_repo (record { actor = found.0; path = found.1 }) w)

  -- Service.StageFiles
  unfoldable pub stage_files : StageFilesReq → Call W (Unit {0})
  stage_files input =
      checked (resolve_actor_and_path s.mount_root input.context input.path) λ found w.
        answer (codes "stage files") (λ u. u)
          (s.git_client.stage
            (record { actor = found.0; path = found.1; files = input.files; all = input.all }) w)

  -- Service.UnstageFiles
  unfoldable pub unstage_files : UnstageFilesReq → Call W (Unit {0})
  unstage_files input =
      checked (resolve_actor_and_path s.mount_root input.context input.path) λ found w.
        answer (codes "unstage files") (λ u. u)
          (s.git_client.unstage
            (record { actor = found.0; path = found.1; files = input.files; all = input.all }) w)

  -- Service.Commit
  unfoldable pub commit : CommitReq → Call W CommitResp
  unfolding message_of author_email_of
  commit input = checked (resolve_actor_and_path s.mount_root input.context input.path) λ found.
      checked (message_of input.message) λ message w.
        answer (codes "commit")
          (λ r. record { nothing_to_commit = r.nothing_to_commit; commit_hash = r.commit_hash })
          (s.git_client.commit
            (record {
              actor = found.0;
              path = found.1;
              message = message;
              author_name = or_default (trim_space input.author_name) found.0.uin;
              author_email = author_email_of found.0.uin input.author_email;
            })
            w)

  -- Service.PushRepository
  unfoldable pub push_repository : PushRepositoryReq → Call W PushRepositoryResp
  unfolding to_domain
  push_repository input =
      checked (resolve_actor_and_path s.mount_root input.context input.path) λ found w.
        answer (codes "push") (λ r. record { pushed = r.pushed })
          (s.git_client.push
            (record {
              actor = found.0;
              path = found.1;
              remote_name = trim_space input.remote_name;
              branch = trim_space input.branch;
              credentials =
                  to_domain (record { username = input.git_username; token = input.git_token });
            })
            w)
