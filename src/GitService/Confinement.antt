-- ===== src/GitService/Confinement.antt =====
-- All requests of the git service together do the same over the client that refuses what lies
-- outside of the directory of the user.
use workspace_service.Base.{List, Bool, ℤ, ◌≡◌, refl, Text}
use workspace_service.GitService.{Service}
use workspace_service.GitService.Fence.{fenced}
use workspace_service.GitService.Operations.{
  clone_repository, pull_repository, commit_and_push, create_branch, checkout_branch,
  discard_changes, delete_repository, stage_files, unstage_files, commit, push_repository,
}
use workspace_service.GitService.Operations.Queries.{
  list_branches, get_status, get_file_diff, get_commit_history,
}
use workspace_service.GitService.Requests.{Credentials}
use workspace_service.Identity.{RequestContext, normalize}
use workspace_service.Identity.Isolation.{IsPlainContext}
use workspace_service.GitService.Scope.{
  clone_repository-fenced, pull_repository-fenced, commit_and_push-fenced, create_branch-fenced,
  checkout_branch-fenced, discard_changes-fenced, delete_repository-fenced, stage_files-fenced,
  unstage_files-fenced, commit-fenced, push_repository-fenced, list_branches-fenced,
  get_status-fenced, get_file_diff-fenced, get_commit_history-fenced,
}

-- Two services do the same for each request that is made of the given fields.
abbrev pub SameRequests :
    {W : Type 0}
    → Service W
    → Service W
    → RequestContext
    → Text
    → Text
    → Text
    → Text
    → Text
    → List Text
    → Bool
    → ℤ
    → Credentials
    → W
    → Type 0
SameRequests s t ctx path one two three four files flag limit credentials w =
    (clone_repository s (record { context = ctx; repo_url = one; target_path = path; branch = two })
        w
      ≡ clone_repository t
          (record { context = ctx; repo_url = one; target_path = path; branch = two }) w)
    × (pull_repository s
          (record {
            context = ctx;
            path = path;
            remote_name = one;
            branch = two;
            credentials = credentials;
          })
          w
        ≡ pull_repository t
            (record {
              context = ctx;
              path = path;
              remote_name = one;
              branch = two;
              credentials = credentials;
            })
            w)
    × (commit_and_push s
          (record {
            context = ctx;
            path = path;
            message = one;
            author_name = two;
            author_email = three;
            remote_name = four;
            push = flag;
            credentials = credentials;
          })
          w
        ≡ commit_and_push t
            (record {
              context = ctx;
              path = path;
              message = one;
              author_name = two;
              author_email = three;
              remote_name = four;
              push = flag;
              credentials = credentials;
            })
            w)
    × (create_branch s (record { context = ctx; path = path; branch = one; checkout = flag }) w
        ≡ create_branch t (record { context = ctx; path = path; branch = one; checkout = flag }) w)
    × (checkout_branch s (record { context = ctx; path = path; branch = one; create = flag }) w
        ≡ checkout_branch t (record { context = ctx; path = path; branch = one; create = flag }) w)
    × (discard_changes s (record { context = ctx; path = path }) w
        ≡ discard_changes t (record { context = ctx; path = path }) w)
    × (delete_repository s (record { context = ctx; path = path }) w
        ≡ delete_repository t (record { context = ctx; path = path }) w)
    × (stage_files s (record { context = ctx; path = path; files = files; all = flag }) w
        ≡ stage_files t (record { context = ctx; path = path; files = files; all = flag }) w)
    × (unstage_files s (record { context = ctx; path = path; files = files; all = flag }) w
        ≡ unstage_files t (record { context = ctx; path = path; files = files; all = flag }) w)
    × (commit s
          (record {
            context = ctx;
            path = path;
            message = one;
            author_name = two;
            author_email = three;
          })
          w
        ≡ commit t
            (record {
              context = ctx;
              path = path;
              message = one;
              author_name = two;
              author_email = three;
            })
            w)
    × (push_repository s
          (record {
            context = ctx;
            path = path;
            remote_name = one;
            branch = two;
            git_username = three;
            git_token = four;
          })
          w
        ≡ push_repository t
            (record {
              context = ctx;
              path = path;
              remote_name = one;
              branch = two;
              git_username = three;
              git_token = four;
            })
            w)
    × (list_branches s (record { context = ctx; path = path }) w
        ≡ list_branches t (record { context = ctx; path = path }) w)
    × (get_status s (record { context = ctx; path = path }) w
        ≡ get_status t (record { context = ctx; path = path }) w)
    × (get_file_diff s (record { context = ctx; path = path; file = one }) w
        ≡ get_file_diff t (record { context = ctx; path = path; file = one }) w)
    × (get_commit_history s (record { context = ctx; path = path; limit = limit }) w
        ≡ get_commit_history t (record { context = ctx; path = path; limit = limit }) w)

module _ {W : Type 0} (s : Service W) (ctx : RequestContext)
    (plain : IsPlainContext (normalize ctx)) where
  -- When the normalized app id, workspace id and uin of the request are plain directory names,
  -- each request to the git service but those for git folders has the same answer and leaves the
  -- same state over a git client that refuses every worktree outside of the directory of the
  -- user.
  pub git_requests_fenced :
      (path one two three four : Text) (files : List Text) (flag : Bool) (limit : ℤ)
      (credentials : Credentials) (w : W)
      → SameRequests (fenced ctx s) s ctx path one two three four files flag limit credentials w
  git_requests_fenced path one two three four files flag limit credentials w = (
    clone_repository-fenced s ctx plain _ w refl,
    pull_repository-fenced s ctx plain _ w refl,
    commit_and_push-fenced s ctx plain _ w refl,
    create_branch-fenced s ctx plain _ w refl,
    checkout_branch-fenced s ctx plain _ w refl,
    discard_changes-fenced s ctx plain _ w refl,
    delete_repository-fenced s ctx plain _ w refl,
    stage_files-fenced s ctx plain _ w refl,
    unstage_files-fenced s ctx plain _ w refl,
    commit-fenced s ctx plain _ w refl,
    push_repository-fenced s ctx plain _ w refl,
    list_branches-fenced s ctx plain _ w refl,
    get_status-fenced s ctx plain _ w refl,
    get_file_diff-fenced s ctx plain _ w refl,
    get_commit_history-fenced s ctx plain _ w refl,
  )
