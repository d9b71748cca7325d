-- ===== src/GitService/Fence.antt =====
-- A git client that refuses every worktree outside of a directory, and files of the system that
-- refuse what lies outside of it.
use workspace_service.Base.{Bool, true, false, some, Text}
use workspace_service.Errors.{Result, err, sentinel, invalid_request}
use workspace_service.File.{Outcome}
use workspace_service.FsService.Operations.Fence.{lies_in, fenced_call}
use workspace_service.GitClient.{GitClient}
use workspace_service.GitService.{Service}
use workspace_service.Identity.{RequestContext, normalize}
use workspace_service.Os.{Os}
use workspace_service.Mount.{user_root_abs}

module _ {W : Type 0} (root : Text) where
  -- The client that refuses worktrees outside of the directory.
  unfoldable pub fence : GitClient W → GitClient W
  unfolding fenced_call lies_in
  fence c = record {
    clone = λ r. fenced_call (lies_in root r.target_path) (c.clone r);
    pull = λ r. fenced_call (lies_in root r.path) (c.pull r);
    stage = λ r. fenced_call (lies_in root r.path) (c.stage r);
    unstage = λ r. fenced_call (lies_in root r.path) (c.unstage r);
    commit = λ r. fenced_call (lies_in root r.path) (c.commit r);
    push = λ r. fenced_call (lies_in root r.path) (c.push r);
    commit_and_push = λ r. fenced_call (lies_in root r.path) (c.commit_and_push r);
    create_branch = λ r. fenced_call (lies_in root r.path) (c.create_branch r);
    checkout_branch = λ r. fenced_call (lies_in root r.path) (c.checkout_branch r);
    list_branches = λ r. fenced_call (lies_in root r.path) (c.list_branches r);
    status = λ r. fenced_call (lies_in root r.path) (c.status r);
    repo_info = λ r. fenced_call (lies_in root r.path) (c.repo_info r);
    file_diff = λ r. fenced_call (lies_in root r.path) (c.file_diff r);
    commit_history = λ r. fenced_call (lies_in root r.path) (c.commit_history r);
    discard_changes = λ r. fenced_call (lies_in root r.path) (c.discard_changes r);
    delete_repo = λ r. fenced_call (lies_in root r.path) (c.delete_repo r);
  }

-- A change of the files that is made in the directory only.
unfoldable pub fenced_change : {W : Type 0} → Bool → (W → Outcome W) → W → Outcome W
fenced_change true change w = change w
fenced_change false change w = (some (sentinel invalid_request), w)

unfoldable pub fenced_look : {A : Type 0} → Bool → Result A → Result A
fenced_look true seen = seen
fenced_look false seen = err (sentinel invalid_request)

-- The files of the system, of which only what is in the directory can be looked at or made into a
-- directory, and nothing else can be changed.
unfoldable pub fence_os : {W : Type 0} → Text → Os W → Os W
unfolding fenced_change fenced_look lies_in
fence_os root os = record os {
  stat = λ p w. fenced_look (lies_in root p) (os.stat p w);
  mkdir_all = λ p. fenced_change (lies_in root p) (os.mkdir_all p);
  rename = λ p q. fenced_change false (os.rename p q);
  remove = λ p. fenced_change false (os.remove p);
  remove_all = λ p. fenced_change false (os.remove_all p);
  write_file = λ p b. fenced_change false (os.write_file p b);
  write_temp = λ p b. fenced_change false (os.write_temp p b);
  chmod = λ p. fenced_change false (os.chmod p);
}

abbrev pub fenced : {W : Type 0} → RequestContext → Service W → Service W
fenced ctx s = record s {
  git_client = fence (user_root_abs s.mount_root (normalize ctx)) s.git_client;
  os = fence_os (user_root_abs s.mount_root (normalize ctx)) s.os;
}
