-- ===== src/FsService/Operations/Examples.antt =====
-- Runs and instances of the file service's requests, over a client that logs the paths it is given.
use workspace_service.Base.{◌≡◌, codes, Text, List, [], ◌∷◌, true, false, none}
use workspace_service.Errors.{ok, err, sentinel, not_found}
use workspace_service.FileInfo.{FileInfo, WorkspaceFs}
use workspace_service.FsService.Resolve.Examples.{tenant, mount, tenant_plain}
use workspace_service.FsService.Service.{Service}
use workspace_service.FsService.Operations.{
  delete_path, move_path, copy_path, rename_path, make_folder, make_file, make_notebook,
  overwrite_file,
}
use workspace_service.FsService.Operations.Queries.{
  list_files, read_file, get_file_info, download_file, get_folder_node_path, validate_path,
}
use workspace_service.FsService.Operations.Fence.{fenced}
use workspace_service.FsService.Operations.Scope.{writes_fenced, reads_fenced}

-- The paths that the client was called with, the last one first.
abbrev pub Log : Type 0
Log = List Text

abbrev pub known : FileInfo
known = record {
  name = codes "a.txt";
  path = codes "/mnt/jfs/app/ws/users/200/a.txt";
  is_dir = false;
  size = 3;
  modify_time = 10;
  inode_id = 18446744073709551615;
  owner_uin = codes "";
  creator_uin = codes "";
  node_type = codes "";
  is_git_folder = false;
  in_recycle = false;
  origin_path = codes "";
}

abbrev pub client : WorkspaceFs Log
client = record {
  create_folder = λ r w. (ok known, r.path ∷ w);
  create_file = λ r w. (ok known, r.path ∷ w);
  create_notebook = λ r w. (ok known, r.path ∷ w);
  delete_path = λ r w. (ok tt, r.path ∷ w);
  move_path = λ r w. (ok known, r.src_path ∷ r.dest_path ∷ w);
  copy_path = λ r w. (ok known, r.src_path ∷ r.dest_path ∷ w);
  rename_path = λ r w. (ok known, r.path ∷ w);
  list_files = λ r w. (ok (known ∷ []), r.path ∷ w);
  validate_path = λ r w. (ok true, r.parent_path ∷ w);
  get_folder_node_path = λ r w. (ok (known ∷ []), r.path ∷ w);
  list_recycle_bin = λ a w. (ok [], w);
  restore_path = λ r w. (ok known, r.trash_path ∷ w);
  empty_recycle_bin = λ a w. (ok tt, w);
  get_file_info = λ p w. (ok known, p ∷ w);
  read_file = λ r w. (err (sentinel not_found), r.path ∷ w);
  write_file = λ r w. (ok known, r.path ∷ w);
}

abbrev pub service : Service Log
service = record {
  fs_client = client;
  mount_root = mount;
  git_branches = none;
  recorder = none;
  decode_base64 = ok;
  encode_base64 = λ b. b;
}

writes_fenced_example :
    (make_folder (fenced tenant service) (codes "id") tenant (codes "a") []
      ≡ make_folder service (codes "id") tenant (codes "a") [])
    × (make_file (fenced tenant service) (codes "id") tenant (codes "a") [] (codes "") true []
        ≡ make_file service (codes "id") tenant (codes "a") [] (codes "") true [])
    × (overwrite_file (fenced tenant service) (codes "id") tenant (codes "a") [] (codes "") true []
        ≡ overwrite_file service (codes "id") tenant (codes "a") [] (codes "") true [])
    × (make_notebook (fenced tenant service) (codes "id") tenant (codes "a") (codes "") true []
        ≡ make_notebook service (codes "id") tenant (codes "a") (codes "") true [])
    × (delete_path (fenced tenant service) tenant (codes "a") true false []
        ≡ delete_path service tenant (codes "a") true false [])
    × (move_path (fenced tenant service) tenant (codes "a") (codes "b") true []
        ≡ move_path service tenant (codes "a") (codes "b") true [])
    × (copy_path (fenced tenant service) tenant (codes "a") (codes "b") true []
        ≡ copy_path service tenant (codes "a") (codes "b") true [])
    × (rename_path (fenced tenant service) tenant (codes "a") (codes "") true []
        ≡ rename_path service tenant (codes "a") (codes "") true [])
writes_fenced_example =
    writes_fenced service tenant tenant_plain (codes "id") (codes "a") (codes "b") (codes "") []
      true false []

reads_fenced_example :
    (list_files (fenced tenant service) tenant (codes "a") true []
      ≡ list_files service tenant (codes "a") true [])
    × (get_file_info (fenced tenant service) tenant (codes "a") []
        ≡ get_file_info service tenant (codes "a") [])
    × (read_file (fenced tenant service) tenant (codes "a") []
        ≡ read_file service tenant (codes "a") [])
    × (download_file (fenced tenant service) tenant (codes "a") []
        ≡ download_file service tenant (codes "a") [])
    × (validate_path (fenced tenant service) tenant (codes "a") (codes "n") []
        ≡ validate_path service tenant (codes "a") (codes "n") [])
    × (get_folder_node_path (fenced tenant service) tenant (codes "a") []
        ≡ get_folder_node_path service tenant (codes "a") [])
reads_fenced_example = reads_fenced service tenant tenant_plain (codes "a") (codes "n") true []
