-- ===== src/GitService/Folder/Examples.antt =====
-- Runs and instances of the git service, over a client that clones by writing down the target, and
-- refuses a branch that is named "gone".
use workspace_service.Base.{
  ◌≡◌, refl, codes, Text, List, [], ◌∷◌, true, none, some, ◌&&◌, text_eq, trim_space, if◌then◌else◌,
  pos,
}
use workspace_service.Errors.{Result, ok, err, new_error}
use workspace_service.GitClient.{GitClient, CloneReq, CloneResult}
use workspace_service.GitService.{
  Service, build_clone_req, resolve_abs_path, required, within_mount,
}
use workspace_service.GitService.Confinement.{SameRequests, git_requests_fenced}
use workspace_service.Os.{Os}
use workspace_service.GitService.Fence.{fenced}
use workspace_service.GitService.Folder.{
  new_clone_job_registry, idle, created, advanced, create_git_folder, step_nth, get, clone_job_key,
  Machine,
}
use workspace_service.GitService.Folder.Status.{get_git_folder_status}
use workspace_service.GitService.Folder.Alone.{
  idle_machine, run_first, settled, clone_input, create_git_folder-settles,
}
use workspace_service.GitService.Folder.Guarded.{busy, at_work, busy-at_work}
use workspace_service.GitService.Folder.Keys.{clone_job_key-inj, bar_free}
use workspace_service.GitService.Requests.{CreateGitFolderReq}
use workspace_service.Identity.{normalize, validate, resolve_relative_path}
use workspace_service.FsService.Resolve.Examples.{tenant, mount, tenant_plain}

-- The targets that were cloned, the last one first.
abbrev pub Log : Type 0
Log = List Text

abbrev pub clone_to : CloneReq → Log → Result CloneResult × Log
clone_to r w =
    if text_eq r.branch (codes "gone")
    then (err (new_error (codes "reference not found")), w)
    else (
      ok (record { repo_url = r.repo_url; path = r.target_path; branch = r.branch }),
      r.target_path ∷ w,
    )

abbrev pub client : GitClient Log
client = record {
  clone = clone_to;
  pull = λ r w. (err (new_error (codes "offline")), w);
  stage = λ r w. (ok tt, w);
  unstage = λ r w. (ok tt, w);
  commit = λ r w. (ok (record { nothing_to_commit = true; commit_hash = codes "" }), w);
  push = λ r w. (err (new_error (codes "offline")), w);
  commit_and_push = λ r w. (err (new_error (codes "offline")), w);
  create_branch = λ r w. (ok (record { current_branch = r.branch }), r.path ∷ w);
  checkout_branch = λ r w. (ok (record { current_branch = r.branch }), r.path ∷ w);
  list_branches = λ r w. (ok (record { current_branch = codes "main"; branches = [] }), w);
  status = λ r w. (ok (record { clean = true; files = [] }), w);
  repo_info = λ r w. (ok (record { current_branch = codes "main"; remote_url = codes "" }), w);
  file_diff = λ r w. (err (new_error (codes "head")), w);
  commit_history = λ r w. (ok (record { commits = [] }), w);
  discard_changes = λ r w. (ok tt, r.path ∷ w);
  delete_repo = λ r w. (ok tt, r.path ∷ w);
}

abbrev pub empty_os : Os Log
empty_os = record {
  stat = λ p w. ok none;
  read_file = λ p w. err (new_error (codes "no such file"));
  read_dir = λ p w. ok (some []);
  walk = λ p w. [];
  mkdir_all = λ p w. (none, w);
  rename = λ p q w. (none, w);
  remove = λ p w. (none, w);
  remove_all = λ p w. (none, w);
  write_file = λ p b w. (none, w);
  create_temp = λ d p w. (ok (codes "tmp"), w);
  write_temp = λ p b w. (none, w);
  sync_temp = λ p w. (none, w);
  close_temp = λ p w. (none, w);
  chmod = λ p w. (none, w);
}

abbrev pub service : Service Log
service = record {
  git_client = client;
  mount_root = mount;
  node_store = none;
  os = empty_os;
  format_time = λ t. codes "";
}

abbrev input : CreateGitFolderReq
input = record {
  context = tenant;
  target_path = codes " repo";
  repo_url = codes "https://example.org/r.git";
  branch = codes "gone";
  git_username = codes "";
  git_token = codes "";
}

abbrev request : CloneReq
request = record {
  actor = normalize tenant;
  repo_url = codes "https://example.org/r.git";
  target_path = codes "/mnt/jfs/app/ws/users/200/repo";
  branch = codes "gone";
}

built : build_clone_req mount (clone_input input) ≡ ok request
unfolding build_clone_req resolve_abs_path required within_mount normalize validate
    resolve_relative_path trim_space
built = refl

create_git_folder-settles_example :
    ((run_first service (create_git_folder service input (idle_machine [])).1).tasks ≡ [])
    × (get_git_folder_status service
          (run_first service (create_git_folder service input (idle_machine [])).1).registry
          (record { context = tenant; path = codes " repo" })
          []
        ≡ (ok (settled request (trim_space (codes " repo")) (clone_to request []).0), []))
create_git_folder-settles_example = create_git_folder-settles service input [] [] built refl

abbrev one_step : Machine Log
one_step = step_nth service 0 (create_git_folder service input (idle_machine [])).1

in_clone_now :
    busy (get (clone_job_key (normalize tenant) (trim_space (codes " repo"))) one_step.registry)
    ≡ true
unfolding busy get step_nth create_git_folder clone_job_key normalize trim_space build_clone_req
    validate resolve_relative_path new_clone_job_registry
in_clone_now = refl

busy-at_work_example :
    at_work (clone_job_key (normalize tenant) (trim_space (codes " repo"))) one_step.tasks ≡ true
busy-at_work_example =
    busy-at_work service (clone_job_key (normalize tenant) (trim_space (codes " repo")))
      (advanced 0 (created input (idle []))) in_clone_now

tenant_bar_free :
    bar_free tenant.app_id && bar_free tenant.workspace_id && bar_free tenant.uin ≡ true
unfolding bar_free
tenant_bar_free = refl

clone_job_key-inj_example :
    (tenant.app_id ≡ tenant.app_id)
    × (tenant.workspace_id ≡ tenant.workspace_id)
    × (tenant.uin ≡ tenant.uin)
    × (codes "a|b" ≡ codes "a|b")
clone_job_key-inj_example =
    clone_job_key-inj tenant tenant (codes "a|b") (codes "a|b") tenant_bar_free tenant_bar_free refl

git_requests_fenced_example :
    SameRequests
      (fenced tenant service)
      service
      tenant
      (codes "repo")
      (codes "main")
      (codes "")
      (codes "")
      (codes "")
      []
      true
      (pos 10)
      (record { username = codes ""; token = codes "" })
      []
git_requests_fenced_example =
    git_requests_fenced service tenant tenant_plain (codes "repo") (codes "main") (codes "")
      (codes "") (codes "") [] true (pos 10) (record { username = codes ""; token = codes "" }) []
