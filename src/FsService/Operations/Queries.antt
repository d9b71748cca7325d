-- ===== src/FsService/Operations/Queries.antt =====
-- The requests that read, of operations.go, recycle.go and tree.go in internal/usecase/fs.
use workspace_service.Base.{
  ℕ, Bool, List, [], ◌∷◌, Text, codes, is_empty, text_eq, if◌then◌else◌, map, length,
}
use workspace_service.Errors.{Result, ok, err}
use workspace_service.Identity.{RequestContext, normalize}
use workspace_service.Mount.{user_root_abs}
use workspace_service.FileInfo.{FileInfo, ReadFileResult}
use workspace_service.Calls.{Call}
use workspace_service.FsService.Resolve.{resolve_abs_path, resolve_actor_and_path}
use workspace_service.FsService.Service.{
  Service, FileInfoResp, FolderNodeResp, map_file_info, folder_node, enrich_git_branches,
}
use workspace_service.FsService.Operations.{identified}
use workspace_service.Calls.{checked, answer}

pub record ReadFileResp : Type 0 where
  pub file : FileInfoResp
  pub b64 : Text
  pub size : ℕ

without_meta : List FileInfo → List FileInfo
without_meta [] = []
without_meta (f ∷ files) =
    let rest = without_meta files in if text_eq f.name (codes "_meta") then rest else f ∷ rest

module _ {W : Type 0} (s : Service W) where
  mapped : FileInfo → FileInfoResp
  unfolding map_file_info
  mapped info = map_file_info info s.mount_root

  enriched : RequestContext → Result (List FileInfo) × W → Result (List FileInfoResp) × W
  unfolding enrich_git_branches mapped
  enriched ctx (ok files, w) = (ok (enrich_git_branches s (normalize ctx) (map mapped files) w), w)
  enriched ctx (err e, w) = (err e, w)

  -- Service.ListFiles
  unfoldable pub list_files : RequestContext → Text → Bool → Call W (List FileInfoResp)
  unfolding enriched
  list_files ctx path recursive = checked (resolve_actor_and_path s.mount_root ctx path) λ found w.
      enriched ctx (
        answer (codes "list files") (λ files. files)
          (s.fs_client.list_files
            (record { actor = found.0; path = found.1; recursive = recursive }) w))

  -- Service.GetFileInfo
  unfoldable pub get_file_info : RequestContext → Text → Call W FileInfoResp
  unfolding mapped
  get_file_info ctx path =
      checked (resolve_actor_and_path s.mount_root ctx path)
        λ found w. answer (codes "get file info") mapped (s.fs_client.get_file_info found.1 w)

  read_resp : ReadFileResult → ReadFileResp
  unfolding mapped
  read_resp r = record {
    file = mapped r.info;
    b64 = s.encode_base64 r.content;
    size = length r.content;
  }

  -- Service.ReadFile
  unfoldable pub read_file : RequestContext → Text → Call W ReadFileResp
  unfolding read_resp
  read_file ctx path = checked (resolve_actor_and_path s.mount_root ctx path) λ found w.
      answer (codes "read file") read_resp
        (s.fs_client.read_file (record { actor = found.0; path = found.1 }) w)

  -- Service.DownloadFile
  unfoldable pub download_file : RequestContext → Text → Call W (List ℕ × Text)
  download_file ctx path = checked (resolve_actor_and_path s.mount_root ctx path) λ found w.
      answer (codes "download file") (λ r. (r.content, r.info.name))
        (s.fs_client.read_file (record { actor = found.0; path = found.1 }) w)

  unfoldable pub parent_of : RequestContext → Text → Result Text
  parent_of ctx parent_path =
      if is_empty parent_path
      then ok (user_root_abs s.mount_root (normalize ctx))
      else resolve_abs_path s.mount_root (normalize ctx) parent_path

  -- Service.ValidatePath
  unfoldable pub validate_path : RequestContext → Text → Text → Call W Bool
  unfolding parent_of identified
  validate_path ctx parent_path name = checked (identified s ctx) λ _.
      checked (parent_of ctx parent_path) λ parent w.
        answer (codes "validate path") (λ there. there)
          (s.fs_client.validate_path
            (record { actor = normalize ctx; parent_path = parent; name = name }) w)

  as_nodes : Result (List FileInfoResp) × W → Result (List FolderNodeResp) × W
  unfolding folder_node
  as_nodes (ok files, w) = (ok (map folder_node files), w)
  as_nodes (err e, w) = (err e, w)

  -- Service.GetFolderNodePath
  unfoldable pub get_folder_node_path : RequestContext → Text → Call W (List FolderNodeResp)
  unfolding enriched as_nodes
  get_folder_node_path ctx path = checked (resolve_actor_and_path s.mount_root ctx path) λ found w.
      as_nodes (
        enriched ctx (
          answer (codes "get folder node path") (λ nodes. nodes)
            (s.fs_client.get_folder_node_path (record { actor = normalize ctx; path = found.1 })
              w)))

  -- Service.ListRecycleBin
  unfoldable pub list_recycle_bin : RequestContext → Call W (List FileInfoResp)
  unfolding without_meta mapped identified
  list_recycle_bin ctx = checked (identified s ctx) λ _ w.
      answer (codes "list recycle bin") (λ files. map mapped (without_meta files))
        (s.fs_client.list_recycle_bin (normalize ctx) w)

  -- Service.RestorePath
  unfoldable pub restore_path : RequestContext → Text → Text → Call W FileInfoResp
  unfolding mapped
  restore_path ctx trash_path target_parent =
      checked (resolve_actor_and_path s.mount_root ctx trash_path) λ found w.
        answer (codes "restore path") mapped (
          s.fs_client.restore_path
            (record { actor = found.0; trash_path = found.1; target_parent = target_parent }) w)

  -- Service.EmptyRecycleBin
  unfoldable pub empty_recycle_bin : RequestContext → Call W (Unit {0})
  unfolding identified
  empty_recycle_bin ctx = checked (identified s ctx) λ _ w.
      answer (codes "empty recycle bin") (λ u. u) (s.fs_client.empty_recycle_bin (normalize ctx) w)
