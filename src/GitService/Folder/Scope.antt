-- ===== src/GitService/Folder/Scope.antt =====
-- The two requests on git folders, and the goroutines that they start, do the same over a client and
-- files that refuse what lies outside of the directory of the user.
use workspace_service.Base.{
  ◌≡◌, refl, ap, true, Option, none, some, List, [], ◌∷◌, ◌++◌, All, Text, trim_space,
}
use workspace_service.Calls.{checked_cong}
use workspace_service.Errors.{Error, Result, ok, err, invalid_git_request}
use workspace_service.File.{NodeStore}
use workspace_service.File.NodeType.{git_folder}
use workspace_service.FsService.Operations.Fence.{lies_in, lies_in-IsInside, fenced_call}
use workspace_service.GitClient.{CloneReq, StatusResult}
use workspace_service.GitService.{Service, build_clone_req}
use workspace_service.GitService.Fence.{fence, fence_os, fenced_look, fenced_change, fenced}
use workspace_service.GitService.Folder.{
  CloneJobRegistry, GitFolderJob, Machine, CloneTask, Stage, starting, in_clone, failing, cloned,
  recording, advance, clone_job_key, create_git_folder, start, started,
}
use workspace_service.GitService.Folder.Status.{
  get_git_folder_status, known_path, status_of, by_storage, by_client,
}
use workspace_service.GitService.Isolation.{resolve_abs_path-IsInside}
use workspace_service.GitService.Scope.{target_inside}
use workspace_service.GitService.Requests.{
  CloneRepositoryReq, CreateGitFolderReq, GetGitFolderStatusReq,
}
use workspace_service.Identity.{RequestContext, normalize}
use workspace_service.Identity.Isolation.{IsPlainContext}
use workspace_service.InodeRecord.{record_inode}
use workspace_service.Mount.{user_root_abs}

module _ {W : Type 0} (s : Service W) (ctx : RequestContext) where
  -- Whatever stage it is in, and whatever happened since, the next step of the goroutine is the same
  -- over the client and the files that refuse what lies outside of the directory of the user. A step
  -- changes the stage of a goroutine only.
  abbrev pub IsConfined : CloneTask → Type 0
  IsConfined t =
      (stage : Stage) (registry : CloneJobRegistry) (w : W)
      → advance (fenced ctx s) (record t { stage = stage }) registry w
        ≡ advance s (record t { stage = stage }) registry w

  -- The second machine has the goroutines of the first one, and such goroutines besides.
  abbrev pub StartsConfined : Machine W → Machine W → Type 0
  StartsConfined m m' =
      (started_tasks : List CloneTask) × (m'.tasks ≡ started_tasks ++ m.tasks)
      × All IsConfined started_tasks

  recorded_inside :
      (store : Option (NodeStore W)) (t : CloneTask) (w : W)
      → lies_in (user_root_abs s.mount_root (normalize ctx)) t.req.target_path ≡ true
      → record_inode (fenced ctx s).os store t.req.actor t.req.target_path git_folder w
        ≡ record_inode s.os store t.req.actor t.req.target_path git_folder w
  unfolding record_inode fence_os fenced_look
  recorded_inside none t w inside = refl
  recorded_inside (some store) t w inside = rw inside refl

  inside-IsConfined :
      (t : CloneTask)
      → lies_in (user_root_abs s.mount_root (normalize ctx)) t.req.target_path ≡ true
      → IsConfined t
  unfolding advance fence fenced_call
  inside-IsConfined t inside starting registry w = refl
  inside-IsConfined t inside in_clone registry w = rw inside refl
  inside-IsConfined t inside (failing message) registry w = refl
  inside-IsConfined t inside cloned registry w = refl
  inside-IsConfined t inside recording registry w =
      ap (λ v. ([], registry, v)) (recorded_inside s.node_store t w inside)

  started-StartsConfined :
      (req : CloneReq) (rel_path : Text) (t : CloneTask) (made : Option Error × W) (m : Machine W)
      → IsConfined t
      → StartsConfined m (started s req rel_path t made m).1
  unfolding started
  started-StartsConfined req rel_path t (some e, w) m h = ([], refl, tt)
  started-StartsConfined req rel_path t (none, w) m h = (t ∷ [], refl, (h, tt))

  start-StartsConfined :
      (target : Text) (r : Result CloneReq) (m : Machine W)
      → ((req : CloneReq)
          → r ≡ ok req
          → lies_in (user_root_abs s.mount_root (normalize ctx)) req.target_path ≡ true)
      → StartsConfined m (start s target r m).1
  unfolding start
  start-StartsConfined target (err e) m h = ([], refl, tt)
  start-StartsConfined target (ok req) m h =
      let t : CloneTask = record {
        key = clone_job_key req.actor (trim_space target);
        req = req;
        rel_path = trim_space target;
        stage = starting;
      } in
      started-StartsConfined req (trim_space target) t _ m (inside-IsConfined t (h req refl))

  start-fenced :
      (target : Text) (r : Result CloneReq) (m : Machine W)
      → ((req : CloneReq)
          → r ≡ ok req
          → lies_in (user_root_abs s.mount_root (normalize ctx)) req.target_path ≡ true)
      → start (fenced ctx s) target r m ≡ start s target r m
  unfolding start started fence_os fenced_change
  start-fenced target (err e) m h = refl
  start-fenced target (ok req) m h = let inside = h req refl in rw inside refl

  module _ (plain : IsPlainContext (normalize ctx)) where
    abbrev asked_clone : CreateGitFolderReq → CloneRepositoryReq
    asked_clone input = record {
      context = input.context;
      repo_url = input.repo_url;
      target_path = input.target_path;
      branch = input.branch;
    }

    pub create_git_folder-fenced :
        (input : CreateGitFolderReq) (m : Machine W)
        → input.context ≡ ctx
        → create_git_folder (fenced ctx s) input m ≡ create_git_folder s input m
    unfolding create_git_folder
    create_git_folder-fenced input m same =
        start-fenced input.target_path (build_clone_req s.mount_root (asked_clone input)) m
          λ req. target_inside s ctx plain (asked_clone input) req same

    pub create_git_folder-StartsConfined :
        (input : CreateGitFolderReq) (m : Machine W)
        → input.context ≡ ctx
        → StartsConfined m (create_git_folder s input m).1
    unfolding create_git_folder
    create_git_folder-StartsConfined input m same =
        start-StartsConfined input.target_path (build_clone_req s.mount_root (asked_clone input)) m
          λ req. target_inside s ctx plain (asked_clone input) req same

    by_client-fenced :
        (path abs : Text) (answered : Result StatusResult × W)
        → lies_in (user_root_abs s.mount_root (normalize ctx)) abs ≡ true
        → by_client (fenced ctx s) (normalize ctx) path abs answered
          ≡ by_client s (normalize ctx) path abs answered
    unfolding by_client fence fenced_call
    by_client-fenced path abs (err e, w) inside = refl
    by_client-fenced path abs (ok r, w) inside = rw inside refl

    by_storage-fenced :
        (path : Text) (resolved : Result Text) (w : W)
        → ((abs : Text)
            → resolved ≡ ok abs
            → lies_in (user_root_abs s.mount_root (normalize ctx)) abs ≡ true)
        → by_storage (fenced ctx s) (normalize ctx) path resolved w
          ≡ by_storage s (normalize ctx) path resolved w
    unfolding by_storage fence fence_os fenced_look fenced_call
    by_storage-fenced path (err e) w inside = refl
    by_storage-fenced path (ok abs) w inside =
        let here = inside abs refl in rw (here, by_client-fenced path abs _ here) refl

    status_of-fenced :
        (path : Text) (known : Option GitFolderJob) (w : W)
        → status_of (fenced ctx s) (normalize ctx) path known w
          ≡ status_of s (normalize ctx) path known w
    unfolding status_of
    status_of-fenced path (some job) w = refl
    status_of-fenced path none w = by_storage-fenced path _ w λ abs found.
        lies_in-IsInside (user_root_abs s.mount_root (normalize ctx)) abs (
          resolve_abs_path-IsInside s.mount_root (normalize ctx) path invalid_git_request plain
            found)

    pub get_git_folder_status-fenced :
        (registry : CloneJobRegistry) (input : GetGitFolderStatusReq) (w : W)
        → input.context ≡ ctx
        → get_git_folder_status (fenced ctx s) registry input w
          ≡ get_git_folder_status s registry input w
    unfolding get_git_folder_status
    get_git_folder_status-fenced registry input w same = rw same (
        checked_cong (known_path s (normalize ctx) (trim_space input.path)) _ _ w
          λ path _. status_of-fenced path _ w)
