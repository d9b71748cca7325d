-- ===== src/FsService/Service.antt =====
-- internal/usecase/fs/service.go: the service's state, and the answers that it makes of what the
-- storage client tells. Times stay numbers: their text is a matter of the wire format.
use workspace_service.Base.{
  ℕ, Bool, format_uint, Option, none, some, List, [], ◌∷◌, Text, codes, has_prefix, is_empty,
  if◌then◌else◌, ◌==◌,
}
use workspace_service.Errors.{Result, ok, err}
use workspace_service.FilePath.{rel}
use workspace_service.Identity.{RequestContext}
use workspace_service.FileInfo.{FileInfo, WorkspaceFs}
use workspace_service.FsService.Recorder.{NodeRecorder}

-- A service over the state W. `decode_base64` and `encode_base64` are encoding/base64.
pub record Service (W : Type 0) : Type 0 where
  pub fs_client : WorkspaceFs W
  pub mount_root : Text
  pub git_branches : Option (RequestContext → Text → W → Result Text)
  pub recorder : Option (NodeRecorder W)
  pub decode_base64 : Text → Result (List ℕ)
  pub encode_base64 : List ℕ → Text

pub record FileInfoResp : Type 0 where
  pub name : Text
  pub path : Text
  pub is_dir : Bool
  pub size : ℕ
  pub modify_time : ℕ
  pub inode_id : ℕ
  pub owner_uin : Text
  pub creator_uin : Text
  pub node_type : Text
  pub is_git_folder : Bool
  pub git_branch : Text
  pub in_recycle : Bool
  pub origin_path : Text
  pub file_id : Text

pub record FolderNodeResp : Type 0 where
  pub name : Text
  pub path : Text
  pub is_dir : Bool
  pub size : ℕ
  pub modify_time : ℕ
  pub inode_id : ℕ
  pub owner_uin : Text
  pub creator_uin : Text
  pub node_type : Text
  pub is_git_folder : Bool
  pub git_branch : Text
  pub file_id : Text

-- resolveFileID
unfoldable pub resolve_file_id : FileInfo → Text
unfolding format_uint
resolve_file_id info = if info.inode_id == 0 then codes "" else format_uint info.inode_id

-- relPathFromMount
unfoldable pub rel_path_from_mount : Text → Text → Text
unfolding rel has_prefix
rel_path_from_mount abs_path mount_root =
    if has_prefix mount_root abs_path
    then (elim (rel mount_root abs_path) [ none ↦ abs_path | some r ↦ r ])
    else abs_path

-- mapFolderNode
unfoldable pub map_folder_node : FileInfo → Text → FolderNodeResp
unfolding resolve_file_id rel_path_from_mount
map_folder_node info mount_root = record {
  name = info.name;
  path = rel_path_from_mount info.path mount_root;
  is_dir = info.is_dir;
  size = info.size;
  modify_time = info.modify_time;
  inode_id = info.inode_id;
  owner_uin = info.owner_uin;
  creator_uin = info.creator_uin;
  node_type = info.node_type;
  is_git_folder = info.is_git_folder;
  git_branch = codes "";
  file_id = resolve_file_id info;
}

-- mapFileInfo. On Unix filepath.ToSlash changes nothing.
unfoldable pub map_file_info : FileInfo → Text → FileInfoResp
unfolding map_folder_node
map_file_info info mount_root =
    let resp : FolderNodeResp = map_folder_node info mount_root in
    record {
      name = resp.name;
      path = resp.path;
      is_dir = resp.is_dir;
      size = resp.size;
      modify_time = resp.modify_time;
      inode_id = resp.inode_id;
      owner_uin = resp.owner_uin;
      creator_uin = resp.creator_uin;
      node_type = resp.node_type;
      is_git_folder = resp.is_git_folder;
      git_branch = resp.git_branch;
      in_recycle = info.in_recycle;
      origin_path = info.origin_path;
      file_id = resp.file_id;
    }

-- What GetFolderNodePath answers of a node.
unfoldable pub folder_node : FileInfoResp → FolderNodeResp
folder_node n = record {
  name = n.name;
  path = n.path;
  is_dir = n.is_dir;
  size = n.size;
  modify_time = n.modify_time;
  inode_id = n.inode_id;
  owner_uin = n.owner_uin;
  creator_uin = n.creator_uin;
  node_type = n.node_type;
  is_git_folder = n.is_git_folder;
  git_branch = n.git_branch;
  file_id = n.file_id;
}

-- What is made of one file by enrichGitBranches.
with_branch : FileInfoResp → Result Text → FileInfoResp
with_branch f (err e) = f
with_branch f (ok branch) = if is_empty branch then f else record f { git_branch = branch }

enrich_with :
    {W : Type 0}
    → (RequestContext → Text → W → Result Text)
    → RequestContext
    → W
    → List FileInfoResp
    → List FileInfoResp
unfolding with_branch
enrich_with lookup_branch ident w [] = []
enrich_with lookup_branch ident w (f ∷ files) =
    (if f.is_git_folder then with_branch f (lookup_branch ident f.path w) else f)
    ∷ enrich_with lookup_branch ident w files

-- Service.enrichGitBranches of internal/usecase/fs/git_meta.go
unfoldable pub enrich_git_branches :
    {W : Type 0} → Service W → RequestContext → List FileInfoResp → W → List FileInfoResp
unfolding enrich_with
enrich_git_branches s ident files w = elim s.git_branches [
  | none ↦ files
  | some lookup_branch ↦ enrich_with lookup_branch ident w files
]
