-- ===== src/GitService/Folder/Alone.antt =====
-- The goroutine of a request that nothing comes between, and the status that its user is told.
use workspace_service.Base.{
  ◌≡◌, refl, sym, ap, ◌∙◌, none, some, [], Text, codes, trim_space, text_key, arith,
}
use workspace_service.Errors.{Result, ok, err}
use workspace_service.GitClient.{CloneReq, CloneResult}
use workspace_service.GitService.{Service, build_clone_req, required}
use workspace_service.GitService.Isolation.{build_clone_req-eq_ok}
use workspace_service.GitService.Requests.{
  CreateGitFolderReq, CloneRepositoryReq, GetGitFolderStatusResp,
}
use workspace_service.GitService.Folder.{
  GitFolderJob, CloneJobRegistry, get, starting, job_of, clone_job_key, after_clone, Machine,
  advance, advance_nth, create_git_folder, new_clone_job_registry, started, start, step_nth,
}
use workspace_service.GitService.Folder.Status.{known_path, get_git_folder_status, status_of}
use workspace_service.GitService.Folder.Registry.{get-set_self}
use workspace_service.Identity.{RequestContext, normalize}

abbrev pub clone_input : CreateGitFolderReq → CloneRepositoryReq
clone_input input = record {
  context = input.context;
  repo_url = input.repo_url;
  target_path = input.target_path;
  branch = input.branch;
}

-- The answer for a folder whose clone has ended.
abbrev pub settled : CloneReq → Text → Result CloneResult → GetGitFolderStatusResp
settled req path (ok r) = record {
  status = 4;
  message = codes "";
  path = path;
  branch = req.branch;
  repo_url = req.repo_url;
}
settled req path (err e) = record {
  status = 5;
  message = e.message;
  path = path;
  branch = req.branch;
  repo_url = req.repo_url;
}

abbrev pub idle_machine : {W : Type 0} → W → Machine W
idle_machine w = record { registry = new_clone_job_registry; tasks = []; world = w }

module _ {W : Type 0} (s : Service W) where
  -- Four steps of the first goroutine, as many as one takes.
  unfoldable pub run_first : Machine W → Machine W
  run_first m = step_nth s 0 (step_nth s 0 (step_nth s 0 (step_nth s 0 m)))

  abbrev waiting_machine : CloneReq → Text → Text → W → Machine W
  waiting_machine req key path w =
      (started s req path (record { key = key; req = req; rel_path = path; stage = starting })
        (none, w) (idle_machine w)).1

  run_first-waiting_machine :
      (req : CloneReq) (key path : Text) (w : W) (o : Result CloneResult × W)
      → s.git_client.clone req w ≡ o
      → ((run_first (waiting_machine req key path w)).tasks ≡ [])
        × (get key (run_first (waiting_machine req key path w)).registry
            ≡ some (record {
              status = (settled req path o.0).status;
              message = (settled req path o.0).message;
              repo_url = req.repo_url;
              branch = req.branch;
              path = path;
            }))
  unfolding run_first step_nth advance_nth advance started after_clone job_of
  run_first-waiting_machine req key path w (ok r, w') e = rw e (refl, get-set_self key _ _)
  run_first-waiting_machine req key path w (err r, w') e = rw e (refl, get-set_self key _ _)

  build_clone_req-known_path :
      (input : CloneRepositoryReq) {req : CloneReq}
      → build_clone_req s.mount_root input ≡ ok req
      → known_path s (normalize input.context) (trim_space input.target_path)
        ≡ ok (trim_space input.target_path)
  unfolding build_clone_req required known_path
  build_clone_req-known_path input e = ground arith

  start-waiting_machine :
      (target : Text) (w made : W) (built : Result CloneReq) {req : CloneReq}
      → built ≡ ok req
      → s.os.mkdir_all req.target_path w ≡ (none, made)
      → (start s target built (idle_machine w)).1
        ≡ waiting_machine req (clone_job_key req.actor (trim_space target)) (trim_space target) made
  unfolding start started
  start-waiting_machine target w made built e there = rw (e, there) refl

  create_git_folder-waiting_machine :
      (input : CreateGitFolderReq) (w made : W) {req : CloneReq}
      → build_clone_req s.mount_root (clone_input input) ≡ ok req
      → s.os.mkdir_all req.target_path w ≡ (none, made)
      → (create_git_folder s input (idle_machine w)).1
        ≡ waiting_machine req
            (clone_job_key req.actor (trim_space input.target_path))
            (trim_space input.target_path)
            made
  unfolding create_git_folder
  create_git_folder-waiting_machine input w made built there =
      start-waiting_machine input.target_path w made
        (build_clone_req s.mount_root (clone_input input)) built there

  get_git_folder_status-known :
      (ctx : RequestContext) (given : Text) (registry : CloneJobRegistry) (w : W) {key : Text}
      {job : GitFolderJob}
      → known_path s (normalize ctx) (trim_space given) ≡ ok (trim_space given)
      → clone_job_key (normalize ctx) (trim_space given) ≡ key
      → get key registry ≡ some job
      → get_git_folder_status s registry (record { context = ctx; path = given }) w ≡ (
        ok (record {
          status = job.status;
          message = job.message;
          path = job.path;
          branch = job.branch;
          repo_url = job.repo_url;
        }),
        w,
      )
  unfolding get_git_folder_status status_of
  get_git_folder_status-known ctx given registry w known same found = rw (known, same, found) refl

  settled-eq :
      (req : CloneReq) (path : Text) (o : Result CloneResult)
      → settled req path o ≡ record {
        status = (settled req path o).status;
        message = (settled req path o).message;
        path = path;
        branch = req.branch;
        repo_url = req.repo_url;
      }
  settled-eq req path (ok r) = refl
  settled-eq req path (err e) = refl

  -- When the request builds a clone request and the directory can be made, the goroutine of
  -- CreateGitFolder that starts from a registry without jobs and that nothing comes between ends
  -- within four steps, and GetGitFolderStatus for the same identity and path then answers ready
  -- if the clone came through, and else failed with the message of its error, with the repository
  -- and branch of the request.
  pub create_git_folder-settles :
      (input : CreateGitFolderReq) (w made : W) {req : CloneReq}
      → build_clone_req s.mount_root (clone_input input) ≡ ok req
      → s.os.mkdir_all req.target_path w ≡ (none, made)
      → ((run_first (create_git_folder s input (idle_machine w)).1).tasks ≡ [])
        × (get_git_folder_status s
              (run_first (create_git_folder s input (idle_machine w)).1).registry
              (record { context = input.context; path = input.target_path })
              made
            ≡ (
              ok (settled req (trim_space input.target_path) (s.git_client.clone req made).0),
              made,
            ))
  create_git_folder-settles input w made {req} built there =
      let path : Text = trim_space input.target_path in
      let (actor, resolved) = build_clone_req-eq_ok s.mount_root (clone_input input) built in
      let (ended, found) =
        run_first-waiting_machine req (clone_job_key req.actor path) path made
          (s.git_client.clone req made) refl in
      rw (create_git_folder-waiting_machine input w made built there) (
        ended,
        get_git_folder_status-known input.context input.target_path _ made
              (build_clone_req-known_path (clone_input input) built)
              (ap (λ a. clone_job_key a path) (sym actor)) found
            ∙ ap (λ r. (ok r, made)) (sym (settled-eq req path (s.git_client.clone req made).0)),
      )
