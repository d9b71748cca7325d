-- ===== src/GitService/Scope.antt =====
-- The requests of the git service reach repositories only inside the directory of the user: they do
-- the same over a client that refuses every other worktree.
use workspace_service.Base.{◌≡◌, refl, true, Text, trim_space}
use workspace_service.Calls.{Call, checked, checked_cong}
use workspace_service.Errors.{ok, invalid_clone_req}
use workspace_service.FsService.Operations.Fence.{lies_in, lies_in-IsInside, fenced_call}
use workspace_service.GitClient.{CloneReq}
use workspace_service.GitService.{
  Service, build_clone_req, resolve_actor_and_path, resolve_abs_path,
}
use workspace_service.GitService.Fence.{fence, fenced}
use workspace_service.GitService.Isolation.{
  resolve_abs_path-IsInside, resolve_actor_and_path-eq_ok, build_clone_req-eq_ok,
}
use workspace_service.GitService.Operations.{
  clone_repository, pull_repository, commit_and_push, create_branch, checkout_branch,
  discard_changes, delete_repository, stage_files, unstage_files, commit, push_repository,
}
use workspace_service.GitService.Operations.Queries.{
  list_branches, get_status, get_file_diff, get_commit_history,
}
use workspace_service.GitService.Requests.{
  CloneRepositoryReq, PullRepositoryReq, CommitAndPushReq, CreateBranchReq, CheckoutBranchReq,
  DiscardChangesReq, DeleteRepositoryReq, StageFilesReq, UnstageFilesReq, CommitReq,
  PushRepositoryReq, ListBranchesReq, StatusReq, FileDiffReq, CommitHistoryReq,
}
use workspace_service.Identity.{RequestContext, normalize}
use workspace_service.Identity.Isolation.{IsPlainContext}
use workspace_service.Mount.{user_root_abs}

module _ {W : Type 0} (s : Service W) (ctx : RequestContext)
    (plain : IsPlainContext (normalize ctx)) where
  found_inside :
      (path : Text) (found : RequestContext × Text)
      → resolve_actor_and_path s.mount_root ctx path ≡ ok found
      → lies_in (user_root_abs s.mount_root (normalize ctx)) found.1 ≡ true
  found_inside path (actor, abs) e =
      let (valid, same, resolved) = resolve_actor_and_path-eq_ok s.mount_root ctx path e in
      lies_in-IsInside (user_root_abs s.mount_root (normalize ctx)) abs
        (resolve_abs_path-IsInside s.mount_root (normalize ctx) path _ plain resolved)

  -- Two services that do the same for every path inside the directory do the same for a request.
  resolved_cong :
      {A : Type 0} (path : Text) (f g : RequestContext × Text → Call W A) (w : W)
      → ((found : RequestContext × Text)
          → lies_in (user_root_abs s.mount_root (normalize ctx)) found.1 ≡ true
          → f found w ≡ g found w)
      → checked (resolve_actor_and_path s.mount_root ctx path) f w
        ≡ checked (resolve_actor_and_path s.mount_root ctx path) g w
  resolved_cong path f g w h =
      checked_cong (resolve_actor_and_path s.mount_root ctx path) f g w
        λ found e. h found (found_inside path found e)

  pub pull_repository-fenced :
      (input : PullRepositoryReq) (w : W)
      → input.context ≡ ctx
      → pull_repository (fenced ctx s) input w ≡ pull_repository s input w
  unfolding pull_repository fence fenced_call
  pull_repository-fenced input w same =
      rw same (resolved_cong input.path _ _ w λ found inside. rw inside refl)

  pub commit_and_push-fenced :
      (input : CommitAndPushReq) (w : W)
      → input.context ≡ ctx
      → commit_and_push (fenced ctx s) input w ≡ commit_and_push s input w
  unfolding commit_and_push fence fenced_call
  commit_and_push-fenced input w same =
      rw same (resolved_cong input.path _ _ w λ found inside. rw inside refl)

  pub create_branch-fenced :
      (input : CreateBranchReq) (w : W)
      → input.context ≡ ctx
      → create_branch (fenced ctx s) input w ≡ create_branch s input w
  unfolding create_branch fence fenced_call
  create_branch-fenced input w same =
      rw same (resolved_cong input.path _ _ w λ found inside. rw inside refl)

  pub checkout_branch-fenced :
      (input : CheckoutBranchReq) (w : W)
      → input.context ≡ ctx
      → checkout_branch (fenced ctx s) input w ≡ checkout_branch s input w
  unfolding checkout_branch fence fenced_call
  checkout_branch-fenced input w same =
      rw same (resolved_cong input.path _ _ w λ found inside. rw inside refl)

  pub discard_changes-fenced :
      (input : DiscardChangesReq) (w : W)
      → input.context ≡ ctx
      → discard_changes (fenced ctx s) input w ≡ discard_changes s input w
  unfolding discard_changes fence fenced_call
  discard_changes-fenced input w same =
      rw same (resolved_cong input.path _ _ w λ found inside. rw inside refl)

  pub delete_repository-fenced :
      (input : DeleteRepositoryReq) (w : W)
      → input.context ≡ ctx
      → delete_repository (fenced ctx s) input w ≡ delete_repository s input w
  unfolding delete_repository fence fenced_call
  delete_repository-fenced input w same =
      rw same (resolved_cong input.path _ _ w λ found inside. rw inside refl)

  pub stage_files-fenced :
      (input : StageFilesReq) (w : W)
      → input.context ≡ ctx
      → stage_files (fenced ctx s) input w ≡ stage_files s input w
  unfolding stage_files fence fenced_call
  stage_files-fenced input w same =
      rw same (resolved_cong input.path _ _ w λ found inside. rw inside refl)

  pub unstage_files-fenced :
      (input : UnstageFilesReq) (w : W)
      → input.context ≡ ctx
      → unstage_files (fenced ctx s) input w ≡ unstage_files s input w
  unfolding unstage_files fence fenced_call
  unstage_files-fenced input w same =
      rw same (resolved_cong input.path _ _ w λ found inside. rw inside refl)

  pub commit-fenced :
      (input : CommitReq) (w : W)
      → input.context ≡ ctx
      → commit (fenced ctx s) input w ≡ commit s input w
  unfolding commit fence fenced_call
  commit-fenced input w same =
      rw same (resolved_cong input.path _ _ w λ found inside. rw inside refl)

  pub push_repository-fenced :
      (input : PushRepositoryReq) (w : W)
      → input.context ≡ ctx
      → push_repository (fenced ctx s) input w ≡ push_repository s input w
  unfolding push_repository fence fenced_call
  push_repository-fenced input w same =
      rw same (resolved_cong input.path _ _ w λ found inside. rw inside refl)

  pub list_branches-fenced :
      (input : ListBranchesReq) (w : W)
      → input.context ≡ ctx
      → list_branches (fenced ctx s) input w ≡ list_branches s input w
  unfolding list_branches fence fenced_call
  list_branches-fenced input w same =
      rw same (resolved_cong input.path _ _ w λ found inside. rw inside refl)

  pub get_status-fenced :
      (input : StatusReq) (w : W)
      → input.context ≡ ctx
      → get_status (fenced ctx s) input w ≡ get_status s input w
  unfolding get_status fence fenced_call
  get_status-fenced input w same =
      rw same (resolved_cong input.path _ _ w λ found inside. rw inside refl)

  pub get_file_diff-fenced :
      (input : FileDiffReq) (w : W)
      → input.context ≡ ctx
      → get_file_diff (fenced ctx s) input w ≡ get_file_diff s input w
  unfolding get_file_diff fence fenced_call
  get_file_diff-fenced input w same =
      rw same (resolved_cong input.path _ _ w λ found inside. rw inside refl)

  pub get_commit_history-fenced :
      (input : CommitHistoryReq) (w : W)
      → input.context ≡ ctx
      → get_commit_history (fenced ctx s) input w ≡ get_commit_history s input w
  unfolding get_commit_history fence fenced_call
  get_commit_history-fenced input w same =
      rw same (resolved_cong input.path _ _ w λ found inside. rw inside refl)

  pub target_inside :
      (input : CloneRepositoryReq) (req : CloneReq)
      → input.context ≡ ctx
      → build_clone_req s.mount_root input ≡ ok req
      → lies_in (user_root_abs s.mount_root (normalize ctx)) req.target_path ≡ true
  target_inside input req same e =
      let (actor, resolved) = build_clone_req-eq_ok s.mount_root input e in
      let found : resolve_abs_path s.mount_root (normalize ctx) (trim_space input.target_path)
            invalid_clone_req
          ≡ ok req.target_path =
        rw same at resolved in
      lies_in-IsInside (user_root_abs s.mount_root (normalize ctx)) req.target_path (
        resolve_abs_path-IsInside s.mount_root (normalize ctx) (trim_space input.target_path)
          invalid_clone_req plain found)

  pub clone_repository-fenced :
      (input : CloneRepositoryReq) (w : W)
      → input.context ≡ ctx
      → clone_repository (fenced ctx s) input w ≡ clone_repository s input w
  unfolding clone_repository fence fenced_call
  clone_repository-fenced input w same =
      checked_cong (build_clone_req s.mount_root input) _ _ w
        λ req e. rw (target_inside input req same e) refl
