-- ===== src/Http/Router/GitRefusals.antt =====
-- A request to the git service that is bound to no identity reaches nothing.
use workspace_service.Base.{◌≡◌, codes, ap}
use workspace_service.Errors.{Error, err}
use workspace_service.GitService.{Service}
use workspace_service.GitService.Folder.{Machine, create_git_folder}
use workspace_service.GitService.Operations.{
  checkout_branch, clone_repository, commit, commit_and_push, create_branch, delete_repository,
  discard_changes, pull_repository, push_repository, stage_files, unstage_files,
}
use workspace_service.GitService.Operations.Queries.{
  list_branches, get_status, get_file_diff, get_commit_history,
}
use workspace_service.Http.{bad_request, sent, flag, ok_reply, error_reply}
use workspace_service.Http.Binding.{handled_as-refused}
use workspace_service.Http.GitHandlers.{
  handle_clone_repository, handle_create_git_folder, handle_get_git_folder_status, handle_pull_repo,
  handle_stage_files, handle_unstage_files, handle_commit, handle_push_repo, handle_commit_and_push,
  handle_create_branch, handle_checkout_branch, handle_list_branches, handle_get_status,
  handle_get_file_diff, handle_get_commit_history, handle_discard_changes, handle_delete_repo,
  write_git_error, write_clone_error, known_status,
}
use workspace_service.Http.GitInputs.{
  clone_repository_input, create_git_folder_input, get_git_folder_status_input, pull_repo_input,
  stage_files_input, unstage_files_input, commit_input, push_repo_input, commit_and_push_input,
  create_branch_input, checkout_branch_input, list_branches_input, get_status_input,
  get_file_diff_input, get_commit_history_input, discard_changes_input, delete_repo_input,
}
use workspace_service.Http.Router.GitRoutes.{
  GitRequest, to_clone_repo, to_create_git_folder, to_get_git_folder_status, to_pull_repo,
  to_stage_files, to_unstage_files, to_commit, to_push_repo, to_commit_and_push, to_create_branch,
  to_checkout_branch, to_list_branches, to_get_status, to_get_file_diff, to_get_commit_history,
  to_discard_changes, to_delete_repo, git_identity, serve_git, in_world,
}

module _ {W : Type 0} (s : Service W) where
  -- When the body of a request to a route of the git service can not be decoded, or its body and
  -- headers do not give a valid identity, the reply has status 400 and the jobs, the goroutines
  -- and the world are left as they were.
  pub serve_git-refused :
      (r : GitRequest) (m : Machine W) (e : Error)
      → git_identity r ≡ err e
      → serve_git s r m ≡ (bad_request, m)
  unfolding serve_git git_identity error_reply handle_clone_repository handle_create_git_folder
      handle_get_git_folder_status handle_pull_repo handle_stage_files handle_unstage_files
      handle_commit handle_push_repo handle_commit_and_push handle_create_branch
      handle_checkout_branch handle_list_branches handle_get_status handle_get_file_diff
      handle_get_commit_history handle_discard_changes handle_delete_repo
  serve_git-refused (to_clone_repo c) m e h = ap (in_world m) (
      handled_as-refused (λ r. r) (λ b. b.workspace_context) e
        (λ actor b. clone_repository s (clone_repository_input actor b)) ok_reply write_clone_error
        c m.world h)
  serve_git-refused (to_create_git_folder c) m e h = ap sent (
      handled_as-refused (λ r. r) (λ b. b.workspace_context) e
        (λ actor b. create_git_folder s (create_git_folder_input actor b)) ok_reply write_git_error
        c m h)
  serve_git-refused (to_get_git_folder_status c) m e h = ap sent (
      handled_as-refused (λ r. r) (λ b. b.workspace_context) e
        (λ actor b. known_status s (get_git_folder_status_input actor b)) ok_reply write_git_error c
        m h)
  serve_git-refused (to_pull_repo c) m e h = ap (in_world m) (
      handled_as-refused (λ r. r) (λ b. b.workspace_context) e
        (λ actor b. pull_repository s (pull_repo_input actor b)) ok_reply write_git_error c m.world
        h)
  serve_git-refused (to_stage_files c) m e h = ap (in_world m) (
      handled_as-refused (λ r. r) (λ b. b.workspace_context) e
        (λ actor b. stage_files s (stage_files_input actor b)) (flag (codes "staged"))
        write_git_error c m.world h)
  serve_git-refused (to_unstage_files c) m e h = ap (in_world m) (
      handled_as-refused (λ r. r) (λ b. b.workspace_context) e
        (λ actor b. unstage_files s (unstage_files_input actor b)) (flag (codes "unstaged"))
        write_git_error c m.world h)
  serve_git-refused (to_commit c) m e h = ap (in_world m) (
      handled_as-refused (λ r. r) (λ b. b.workspace_context) e
        (λ actor b. commit s (commit_input actor b)) ok_reply write_git_error c m.world h)
  serve_git-refused (to_push_repo c) m e h = ap (in_world m) (
      handled_as-refused (λ r. r) (λ b. b.workspace_context) e
        (λ actor b. push_repository s (push_repo_input actor b)) ok_reply write_git_error c m.world
        h)
  serve_git-refused (to_commit_and_push c) m e h = ap (in_world m) (
      handled_as-refused (λ r. r) (λ b. b.workspace_context) e
        (λ actor b. commit_and_push s (commit_and_push_input actor b)) ok_reply write_git_error c
        m.world h)
  serve_git-refused (to_create_branch c) m e h = ap (in_world m) (
      handled_as-refused (λ r. r) (λ b. b.workspace_context) e
        (λ actor b. create_branch s (create_branch_input actor b)) ok_reply write_git_error c
        m.world h)
  serve_git-refused (to_checkout_branch c) m e h = ap (in_world m) (
      handled_as-refused (λ r. r) (λ b. b.workspace_context) e
        (λ actor b. checkout_branch s (checkout_branch_input actor b)) ok_reply write_git_error c
        m.world h)
  serve_git-refused (to_list_branches c) m e h = ap (in_world m) (
      handled_as-refused (λ r. r) (λ b. b.workspace_context) e
        (λ actor b. list_branches s (list_branches_input actor b)) ok_reply write_git_error c
        m.world h)
  serve_git-refused (to_get_status c) m e h = ap (in_world m) (
      handled_as-refused (λ r. r) (λ b. b.workspace_context) e
        (λ actor b. get_status s (get_status_input actor b)) ok_reply write_git_error c m.world h)
  serve_git-refused (to_get_file_diff c) m e h = ap (in_world m) (
      handled_as-refused (λ r. r) (λ b. b.workspace_context) e
        (λ actor b. get_file_diff s (get_file_diff_input actor b)) ok_reply write_git_error c
        m.world h)
  serve_git-refused (to_get_commit_history c) m e h = ap (in_world m) (
      handled_as-refused (λ r. r) (λ b. b.workspace_context) e
        (λ actor b. get_commit_history s (get_commit_history_input actor b)) ok_reply
        write_git_error c m.world h)
  serve_git-refused (to_discard_changes c) m e h = ap (in_world m) (
      handled_as-refused (λ r. r) (λ b. b.workspace_context) e
        (λ actor b. discard_changes s (discard_changes_input actor b)) (flag (codes "discarded"))
        write_git_error c m.world h)
  serve_git-refused (to_delete_repo c) m e h = ap (in_world m) (
      handled_as-refused (λ r. r) (λ b. b.workspace_context) e
        (λ actor b. delete_repository s (delete_repo_input actor b)) (flag (codes "deleted"))
        write_git_error c m.world h)
