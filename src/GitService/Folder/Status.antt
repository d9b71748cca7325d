-- ===== src/GitService/Folder/Status.antt =====
-- Service.GetGitFolderStatus of internal/usecase/git/git_folder.go
use workspace_service.Base.{
  Bool, true, false, Option, none, some, Text, codes, text_key, trim_space, if◌then◌else◌,
}
use workspace_service.Errors.{Result, ok, err, sentinel_wrap, invalid_git_request, map_err, ◌>>◌}
use workspace_service.GitClient.{StatusResult, RepoInfoResult}
use workspace_service.GitService.{Service, required, resolve_abs_path}
use workspace_service.GitService.Requests.{GetGitFolderStatusReq, GetGitFolderStatusResp}
use workspace_service.Identity.{RequestContext, normalize, validate}
use workspace_service.Os.{Stat}
use workspace_service.Calls.{checked}
use workspace_service.GitService.Folder.{
  GitFolderJob, CloneJobRegistry, get, clone_job_key, status_unspecified, status_ready,
}

module _ {W : Type 0} (s : Service W) where
  -- What the client knows of a repository, for the answer.
  described : Text → Result RepoInfoResult × W → Result GetGitFolderStatusResp × W
  described path (err e, w) = (
    ok (record {
      status = status_ready;
      message = codes "";
      path = path;
      branch = codes "";
      repo_url = codes "";
    }),
    w,
  )
  described path (ok info, w) = (
    ok (record {
      status = status_ready;
      message = codes "";
      path = path;
      branch = info.current_branch;
      repo_url = info.remote_url;
    }),
    w,
  )

  abbrev unspecified : Text → GetGitFolderStatusResp
  unspecified path = record {
    status = status_unspecified;
    message = codes "";
    path = path;
    branch = codes "";
    repo_url = codes "";
  }

  unfoldable pub by_client :
      RequestContext → Text → Text → Result StatusResult × W → Result GetGitFolderStatusResp × W
  unfolding described
  by_client ident path abs (err e, w) = (ok (unspecified path), w)
  by_client ident path abs (ok r, w) =
      described path (s.git_client.repo_info (record { actor = ident; path = abs }) w)

  -- os.IsNotExist of the error of os.Stat
  is_missing : Result (Option Stat) → Bool
  is_missing (ok none) = true
  is_missing (ok (some there)) = false
  is_missing (err e) = false

  -- The status of a folder that the registry does not know.
  unfoldable pub by_storage :
      RequestContext → Text → Result Text → W → Result GetGitFolderStatusResp × W
  unfolding by_client is_missing
  by_storage ident path (err e) w = (err e, w)
  by_storage ident path (ok abs) w =
      if is_missing (s.os.stat abs w)
      then (ok (unspecified path), w)
      else by_client ident path abs (s.git_client.status (record { actor = ident; path = abs }) w)

  unfoldable pub status_of :
      RequestContext → Text → Option GitFolderJob → W → Result GetGitFolderStatusResp × W
  unfolding by_storage resolve_abs_path
  status_of ident path none w =
      by_storage ident path (resolve_abs_path s.mount_root ident path invalid_git_request) w
  status_of ident path (some job) w = (
    ok (record {
      status = job.status;
      message = job.message;
      path = job.path;
      branch = job.branch;
      repo_url = job.repo_url;
    }),
    w,
  )

  unfoldable pub known_path : RequestContext → Text → Result Text
  unfolding required
  known_path ident path = do
    map_err (sentinel_wrap invalid_git_request) (validate ident)
    required invalid_git_request (codes "path is required") path

  -- Service.GetGitFolderStatus
  unfoldable pub get_git_folder_status :
      CloneJobRegistry → GetGitFolderStatusReq → W → Result GetGitFolderStatusResp × W
  unfolding known_path status_of clone_job_key get normalize trim_space
  get_git_folder_status registry input =
      checked (known_path (normalize input.context) (trim_space input.path)) λ path.
        status_of (normalize input.context) path
          (get (clone_job_key (normalize input.context) path) registry)
