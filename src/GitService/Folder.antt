-- ===== src/GitService/Folder.antt =====
-- internal/usecase/git/clone_jobs.go and git_folder.go: the registry of clone jobs, and the requests
-- that clone in the background. Each call of the registry, of the git client and of the recorder is
-- one step of the goroutine, which others can come between.
pub mod Status
pub mod Scope
pub mod Registry
pub mod Guarded
pub mod Alone
pub mod Keys
pub mod Examples
use workspace_service.Base.{
  ℕ, zero, suc, Bool, true, false, Option, none, some, List, [], ◌∷◌, ◌++◌, Text, codes, text_key,
  Map, lookup, insert, trim_space, is_empty, if◌then◌else◌,
}
use workspace_service.Errors.{
  Error, Result, ok, err, prefix_wrap, sentinel_text, sentinel_wrap, invalid_git_request, map_err,
  ◌>>=◌, ◌>>◌,
}
use workspace_service.File.NodeType.{git_folder}
use workspace_service.GitClient.{CloneReq, CloneResult, StatusResult, RepoInfoResult}
use workspace_service.GitService.{Service, required, build_clone_req, resolve_abs_path}
use workspace_service.GitService.Requests.{
  CreateGitFolderReq, CreateGitFolderResp, GetGitFolderStatusReq, GetGitFolderStatusResp,
}
use workspace_service.Identity.{RequestContext, normalize, validate}
use workspace_service.InodeRecord.{record_inode}
use workspace_service.Calls.{checked}
use workspace_service.Os.{Os}

abbrev pub status_unspecified : ℕ
status_unspecified = 0

abbrev pub status_waiting : ℕ
status_waiting = 1

abbrev pub status_cloning : ℕ
status_cloning = 2

abbrev pub status_checking_out : ℕ
status_checking_out = 3

abbrev pub status_ready : ℕ
status_ready = 4

abbrev pub status_failed : ℕ
status_failed = 5

pub record GitFolderJob : Type 0 where
  pub status : ℕ
  pub message : Text
  pub repo_url : Text
  pub branch : Text
  pub path : Text

-- `none` is a nil job.
pub record CloneJobRegistry : Type 0 where
  pub jobs : Map Text (Option GitFolderJob)

-- newCloneJobRegistry
unfoldable pub new_clone_job_registry : CloneJobRegistry
new_clone_job_registry = record { jobs = [] }

-- cloneJobRegistry.set
unfoldable pub set : Text → GitFolderJob → CloneJobRegistry → CloneJobRegistry
unfolding insert
set key job r = record { jobs = insert key (some job) r.jobs }

there : Option (Option GitFolderJob) → Option GitFolderJob
there none = none
there (some job) = job

-- cloneJobRegistry.get
unfoldable pub get : Text → CloneJobRegistry → Option GitFolderJob
unfolding there lookup
get key r = there (lookup key r.jobs)

-- Service.cloneJobKey
unfoldable pub clone_job_key : RequestContext → Text → Text
clone_job_key ctx rel_path =
    ctx.app_id ++ (b'|' ∷ (ctx.workspace_id ++ (b'|' ∷ (ctx.uin ++ (b'|' ∷ rel_path)))))

-- Where a goroutine of CreateGitFolder stands: before its first line, in the clone, after a clone that
-- failed or came through, and before the recording of the inode.
pub data Stage : Type 0 where
  starting : Stage
  in_clone : Stage
  failing : Text → Stage
  cloned : Stage
  recording : Stage

pub record CloneTask : Type 0 where
  pub key : Text
  pub req : CloneReq
  pub rel_path : Text
  pub stage : Stage

-- The job that a goroutine sets.
unfoldable pub job_of : CloneTask → ℕ → Text → GitFolderJob
job_of t status message = record {
  status = status;
  message = message;
  repo_url = t.req.repo_url;
  branch = t.req.branch;
  path = t.rel_path;
}

after_clone : {A : Type 0} → Result A → Stage
after_clone (ok r) = cloned
after_clone (err e) = failing e.message

-- The service with its registry, its goroutines and the world outside.
pub record Machine (W : Type 0) : Type 0 where
  pub registry : CloneJobRegistry
  pub tasks : List CloneTask
  pub world : W

module _ {W : Type 0} (s : Service W) where
  advance_from : Stage → CloneTask → CloneJobRegistry → W → List CloneTask × CloneJobRegistry × W
  unfolding set job_of after_clone record_inode
  advance_from starting t r w =
      (record t { stage = in_clone } ∷ [], set t.key (job_of t status_cloning (codes "")) r, w)
  advance_from in_clone t r w =
      let (result, w') = s.git_client.clone t.req w in
      (record t { stage = after_clone result } ∷ [], r, w')
  advance_from (failing message) t r w = ([], set t.key (job_of t status_failed message) r, w)
  advance_from cloned t r w =
      (record t { stage = recording } ∷ [], set t.key (job_of t status_ready (codes "")) r, w)
  advance_from recording t r w =
      ([], r, record_inode s.os s.node_store t.req.actor t.req.target_path git_folder w)

  -- One step of a goroutine: it, or nothing once it has ended, with the registry and the world.
  unfoldable pub advance : CloneTask → CloneJobRegistry → W → List CloneTask × CloneJobRegistry × W
  unfolding advance_from
  advance t = advance_from t.stage t

  -- A step of the n-th goroutine.
  unfoldable pub advance_nth :
      ℕ → List CloneTask → CloneJobRegistry → W → List CloneTask × CloneJobRegistry × W
  unfolding advance
  advance_nth n [] r w = ([], r, w)
  advance_nth zero (t ∷ ts) r w = let (here, r', w') = advance t r w in (here ++ ts, r', w')
  advance_nth (suc n) (t ∷ ts) r w = let (rest, r', w') = advance_nth n ts r w in (t ∷ rest, r', w')

  -- What CreateGitFolder does for a request that is complete, once its directory is made.
  unfoldable pub started :
      CloneReq
      → Text
      → CloneTask
      → Option Error × W
      → Machine W
      → Result CreateGitFolderResp × Machine W
  unfolding set job_of
  started req rel_path t (some e, w) m =
      (err (prefix_wrap (codes "prepare git folder") e), record m { world = w })
  started req rel_path t (none, w) m = (
    ok (record {
      path = rel_path;
      status = status_waiting;
      branch = req.branch;
      repo_url = req.repo_url;
    }),
    record {
      registry = set t.key (job_of t status_waiting (codes "")) m.registry;
      tasks = t ∷ m.tasks;
      world = w;
    },
  )

  unfoldable pub start : Text → Result CloneReq → Machine W → Result CreateGitFolderResp × Machine W
  unfolding started clone_job_key trim_space
  start target_path (err e) m = (err e, m)
  start target_path (ok req) m =
      started req (trim_space target_path)
        (record {
          key = clone_job_key req.actor (trim_space target_path);
          req = req;
          rel_path = trim_space target_path;
          stage = starting;
        })
        (s.os.mkdir_all req.target_path m.world) m

  -- Service.CreateGitFolder
  unfoldable pub create_git_folder :
      CreateGitFolderReq → Machine W → Result CreateGitFolderResp × Machine W
  unfolding start build_clone_req
  create_git_folder input = start input.target_path (
      build_clone_req s.mount_root (record {
        context = input.context;
        repo_url = input.repo_url;
        target_path = input.target_path;
        branch = input.branch;
      }))

  -- The machine after a step of the n-th goroutine.
  unfoldable pub step_nth : ℕ → Machine W → Machine W
  unfolding advance_nth
  step_nth n m =
      let (tasks, registry, world) = advance_nth n m.tasks m.registry m.world in
      record { registry = registry; tasks = tasks; world = world }

-- The machines that requests, steps of goroutines and changes of the world outside lead to, in every
-- order.
pub data Reached {W : Type 0} (s : Service W) : Machine W → Type 0 where
  idle : (w : W) → Reached s (record { registry = new_clone_job_registry; tasks = []; world = w })
  created :
      {m : Machine W} (input : CreateGitFolderReq)
      → Reached s m
      → Reached s (create_git_folder s input m).1
  advanced : {m : Machine W} (n : ℕ) → Reached s m → Reached s (step_nth s n m)
  elsewhere :
      {m : Machine W} (change : W → W)
      → Reached s m
      → Reached s (record m { world = change m.world })
