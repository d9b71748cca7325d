-- ===== src/Http/Router/Examples.antt =====
-- Requests over HTTP: to the file service over a client that logs its paths, and to the git service
-- over one that logs the worktrees.
use workspace_service.Base.{
  ◌≡◌, refl, Text, codes, some, none, [], true, false, has_prefix, text_eq, contains, trim_space,
  if◌then◌else◌,
}
use workspace_service.Errors.{ok, err, new_error, not_found, ◌>>=◌}
use workspace_service.FsService.Operations.Examples
use workspace_service.FsService.Operations.Fence
use workspace_service.FsService.Resolve.Examples.{tenant}
use workspace_service.GitService.Fence as GitFence
use workspace_service.GitService.Folder.Alone.{idle_machine}
use workspace_service.GitService.Folder.Examples as GitExamples
use workspace_service.Http.{WorkspaceContext, bad_request, resolve_workspace_context}
use workspace_service.Http.Binding.{identity_of, bound_request}
use workspace_service.Http.Context.{sources, resolve_workspace_context-sources}
use workspace_service.Http.Router.FileRoutes.{
  FileRequest, to_delete_path, to_restore_path, file_identity, serve_file,
}
use workspace_service.Http.Router.FileScope.{stays_inside, serve_file-fenced}
use workspace_service.Http.Router.FileRefusals.{serve_file-refused}
use workspace_service.Http.Router.GitRoutes.{
  GitRequest, to_delete_repo, to_create_git_folder, git_identity, serve_git,
}
use workspace_service.Http.Router.GitRefusals.{serve_git-refused}
use workspace_service.FsService.Operations.Faults.{faulty}
use workspace_service.Http.Router.StorageFaults.{storage_fault-status}
use workspace_service.Http.FileHandlers.Statuses.{Faulty}
use workspace_service.FilePath.Elements.{is_plain}
use workspace_service.Identity.Isolation.{IsPlainContext}
use workspace_service.Identity.{RequestContext, normalize, validate}

-- A body that leaves the workspace to the headers.
abbrev context : WorkspaceContext
context = record {
  owner_uin = tenant.owner_uin;
  uin = tenant.uin;
  app_id = tenant.app_id;
  workspace_id = codes "";
}

abbrev headers : Text → Text
headers name =
    if text_eq name (codes "X-Wedata-Workspace-Id") then tenant.workspace_id else codes ""

abbrev delete_request : FileRequest
delete_request = to_delete_path (record {
  body = some (record {
    workspace_context = context;
    path = codes "a.txt";
    soft_delete = false;
    permanent = false;
  });
  get_header = headers;
  request_id = codes "r";
})

-- A restoration into a directory below that of the user.
abbrev restore_request : FileRequest
restore_request = to_restore_path (record {
  body = some (record {
    workspace_context = context;
    trash_path = codes "trash/a.txt";
    target_parent = codes "b";
  });
  get_header = headers;
  request_id = codes "r";
})

abbrev create_request : GitRequest
create_request = to_create_git_folder (record {
  body = some (record {
    workspace_context = context;
    repo_url = codes "u";
    target_path = codes "repo";
    branch = codes "main";
    git_username = codes "";
    git_token = codes "";
  });
  get_header = headers;
  request_id = codes "r";
})

abbrev unreadable : FileRequest
unreadable = to_delete_path (record { body = none; get_header = headers; request_id = codes "r" })

abbrev git_request : GitRequest
git_request = to_delete_repo (record {
  body = some (record { workspace_context = context; path = codes "repo" });
  get_header = headers;
  request_id = codes "r";
})

abbrev unreadable_git : GitRequest
unreadable_git =
    to_delete_repo (record { body = none; get_header = headers; request_id = codes "r" })

-- The caller: the tenant, without the spaces.
abbrev caller : RequestContext
caller = record {
  owner_uin = codes "100";
  uin = codes "200";
  app_id = codes "app";
  workspace_id = codes "ws";
}

caller_plain : IsPlainContext (normalize caller)
unfolding normalize trim_space is_plain text_eq contains
caller_plain = refl

bound : file_identity delete_request ≡ ok caller
unfolding file_identity identity_of bound_request resolve_workspace_context normalize validate
    text_eq trim_space
bound = refl

bound_git : git_identity git_request ≡ ok caller
unfolding git_identity identity_of bound_request resolve_workspace_context normalize validate
    text_eq trim_space
bound_git = refl

bound_restore : file_identity restore_request ≡ ok caller
unfolding file_identity identity_of bound_request resolve_workspace_context normalize validate
    text_eq trim_space
bound_restore = refl

restored_inside : stays_inside Examples.service.mount_root caller restore_request ≡ true
unfolding stays_inside normalize trim_space has_prefix
restored_inside = refl

unbound : file_identity unreadable ≡ err (new_error (codes "invalid request body"))
unfolding file_identity identity_of bound_request
unbound = refl

unbound_git : git_identity unreadable_git ≡ err (new_error (codes "invalid request body"))
unfolding git_identity identity_of bound_request
unbound_git = refl

serve_file-fenced_example :
    serve_file (Fence.closed caller Examples.service) (codes "id") restore_request []
    ≡ serve_file Examples.service (codes "id") restore_request []
serve_file-fenced_example =
    serve_file-fenced Examples.service (codes "id") restore_request [] caller bound_restore
      caller_plain restored_inside

serve_file-refused_example :
    serve_file Examples.service (codes "id") unreadable [] ≡ (bad_request, [])
serve_file-refused_example =
    serve_file-refused Examples.service (codes "id") unreadable [] _ unbound

serve_git-refused_example :
    serve_git GitExamples.service unreadable_git (idle_machine []) ≡ (bad_request, idle_machine [])
serve_git-refused_example =
    serve_git-refused GitExamples.service unreadable_git (idle_machine []) _ unbound_git

storage_fault-status_example :
    Faulty not_found []
      (serve_file (faulty not_found Examples.service) (codes "id") delete_request [])
storage_fault-status_example =
    storage_fault-status Examples.service (codes "id") not_found delete_request []

resolve_workspace_context-sources_example :
    resolve_workspace_context headers context
    ≡ (validate (sources headers context) >>= λ _. ok (sources headers context))
resolve_workspace_context-sources_example = resolve_workspace_context-sources headers context
