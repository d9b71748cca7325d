-- ===== src/Storage/Reads.antt =====
-- The operations of internal/infra/fs/workspace_fs.go that list directories and look at paths, and
-- StatInode of inspector.go.
pub mod Chain
mod Examples
use workspace_service.Base.{
  ℕ, zero, suc, Bool, true, false, not, ◌&&◌, ◌||◌, Option, none, some, List, [], ◌∷◌, ◌++◌, Text,
  codes, is_empty, text_eq, trim_space, has_prefix, contains_any, length, if◌then◌else◌,
}
use workspace_service.Calls.{Call}
use workspace_service.Errors.{
  Error, Result, ok, err, sentinel, new_error, not_found, not_a_directory, invalid_request,
}
use workspace_service.File.{Outcome}
use workspace_service.FileInfo.{
  Actor, FileInfo, ListFilesReq, ValidatePathReq, GetFolderNodePathReq,
}
use workspace_service.FilePath.{dot, dot_dot, join, clean, dir}
use workspace_service.Os.{Os, Stat}
use workspace_service.Storage.{WorkspaceFsClient, after, user_root_of, user_trash_dir_abs}
use workspace_service.Storage.Enrich.{build_file_info, build_enriched_file_info, enrich_file_info}
use workspace_service.Storage.Enrich.Many.{enrich_many}

-- skipListEntry
unfoldable pub skip_list_entry : Text → Bool
unfolding text_eq has_prefix
skip_list_entry name = text_eq name (codes "_meta") || has_prefix (codes ".") name

-- A name of a new file that ValidatePath refuses.
unfoldable pub is_invalid_name : Text → Bool
unfolding text_eq contains_any
is_invalid_name name =
    is_empty name || text_eq name dot || text_eq name dot_dot || contains_any (codes "/\\") name

inode_of : Result (Option Stat) → Result (ℕ × Bool)
inode_of (ok none) = ok (0, false)
inode_of (err e) = err e
inode_of (ok (some info)) = ok (info.inode, true)

-- InodeInspector.StatInode: the inode, and whether the path exists
unfoldable pub stat_inode : {W : Type 0} → Os W → Text → W → Result (ℕ × Bool)
unfolding inode_of
stat_inode os abs_path w = inode_of (os.stat abs_path w)

module _ {W : Type 0} (c : WorkspaceFsClient W) where
  -- What the function given to WalkDir appends for a path, or the error that ends the walk.
  walked : Text → List (Result Text) → W → Result (List FileInfo)
  unfolding build_file_info text_eq
  walked root [] w = ok []
  walked root (err e ∷ visits) w = err e
  walked root (ok path ∷ visits) w =
      let rest = walked root visits w in
      if text_eq path root then rest else elim (build_file_info c path w) [
        | err e ↦ err e
        | ok info ↦ elim rest [ err e ↦ err e | ok files ↦ ok (info ∷ files) ]
      ]

  entries_of : Text → List Text → W → List FileInfo
  unfolding skip_list_entry build_file_info join
  entries_of root [] w = []
  entries_of root (name ∷ names) w =
      let rest = entries_of root names w in
      if skip_list_entry name then rest else elim (build_file_info c (join (root ∷ name ∷ [])) w) [
        | err e ↦ rest
        | ok info ↦ info ∷ rest
      ]

  listed : Text → Result (Option (List Text)) → W → Result (List FileInfo)
  unfolding entries_of
  listed root (err e) w = err e
  listed root (ok none) w = err (new_error (codes "no such file or directory"))
  listed root (ok (some names)) w = ok (entries_of root names w)

  enriched_files : Actor → Result (List FileInfo) → Call W (List FileInfo)
  unfolding enrich_many
  enriched_files actor (err e) w = (err e, w)
  enriched_files actor (ok files) w = (ok (enrich_many c actor files w), w)

  listing : ListFilesReq → Result (Option Stat) → Call W (List FileInfo)
  unfolding walked listed enriched_files
  listing req (ok none) w = (err (sentinel not_found), w)
  listing req (err e) w = (err e, w)
  listing req (ok (some info)) w =
      if not info.is_dir
      then (err (sentinel not_a_directory), w)
      else enriched_files req.actor
          (if req.recursive
            then walked req.path (c.os.walk req.path w) w
            else listed req.path (c.os.read_dir req.path w) w)
          w

  -- WorkspaceFSClient.ListFiles
  unfoldable pub list_files : ListFilesReq → Call W (List FileInfo)
  unfolding listing
  list_files req w = listing req (c.os.stat req.path w) w

  looked_up : Actor → Text → Result (Option Stat) → Call W FileInfo
  unfolding build_enriched_file_info
  looked_up actor abs_path (ok none) w = (err (sentinel not_found), w)
  looked_up actor abs_path (err e) w = (err e, w)
  looked_up actor abs_path (ok (some info)) w = build_enriched_file_info c actor abs_path w

  -- WorkspaceFSClient.GetFileInfo, for the identity on the context
  unfoldable pub get_file_info : Actor → Text → Call W FileInfo
  unfolding looked_up
  get_file_info actor abs_path w = looked_up actor abs_path (c.os.stat abs_path w) w

  parent_of : Actor → Text → Text
  unfolding user_root_of text_eq
  parent_of actor parent =
      if is_empty parent || text_eq parent dot then user_root_of c actor else parent

  exists : Result (Option Stat) → Result Bool
  exists (ok none) = ok false
  exists (err e) = err e
  exists (ok (some info)) = ok true

  -- WorkspaceFSClient.ValidatePath
  unfoldable pub validate_path : ValidatePathReq → Call W Bool
  unfolding is_invalid_name parent_of exists join trim_space
  validate_path req w =
      if is_invalid_name (trim_space req.name) then (err (sentinel invalid_request), w) else (
        exists (
            c.os.stat
              (join (parent_of req.actor (trim_space req.parent_path) ∷ trim_space req.name ∷ []))
              w),
        w,
      )

  -- The end of a round of the loop of GetFolderNodePath: the parent is the next one, unless it is not the user's.
  unfoldable pub above :
      Actor
      → Text
      → List FileInfo
      → (Text → List FileInfo → Option (Result (List FileInfo)))
      → Option (Result (List FileInfo))
  unfolding user_root_of dir text_eq has_prefix
  above actor current found next =
      if text_eq current (user_root_of c actor)
        || text_eq (dir current) current
        || not (has_prefix (user_root_of c actor) (dir current))
      then some (ok found)
      else next (dir current) found

  unfoldable pub visited :
      Actor
      → Text
      → List FileInfo
      → Result FileInfo
      → (Text → List FileInfo → Option (Result (List FileInfo)))
      → W
      → Option (Result (List FileInfo))
  unfolding above enrich_file_info
  visited actor current nodes (err e) next w = some (err e)
  visited actor current nodes (ok info) next w =
      above actor current (enrich_file_info c actor info w ∷ nodes) next

  -- The loop, with the nodes that are found; `none` when the fuel runs out.
  unfoldable pub folder_nodes :
      ℕ → Actor → Text → List FileInfo → W → Option (Result (List FileInfo))
  unfolding visited build_file_info
  folder_nodes zero actor current nodes w = none
  folder_nodes (suc fuel) actor current nodes w =
      visited actor current nodes (build_file_info c current w)
        (λ parent found. folder_nodes fuel actor parent found w) w

  unfoldable pub chain_of :
      GetFolderNodePathReq → Result (Option Stat) → W → Option (Result (List FileInfo))
  unfolding folder_nodes clean
  chain_of req (ok none) w = some (err (sentinel not_found))
  chain_of req (err e) w = some (err e)
  chain_of req (ok (some info)) w =
      if not info.is_dir
      then some (err (sentinel not_a_directory))
      else folder_nodes (suc (length (clean req.path))) req.actor (clean req.path) [] w

  -- WorkspaceFSClient.GetFolderNodePath
  unfoldable pub get_folder_node_path : GetFolderNodePathReq → W → Option (Result (List FileInfo))
  unfolding chain_of clean
  get_folder_node_path req w = chain_of req (c.os.stat (clean req.path) w) w

  -- WorkspaceFSClient.ListRecycleBin
  unfoldable pub list_recycle_bin : Actor → Call W (List FileInfo)
  unfolding list_files user_trash_dir_abs
  list_recycle_bin actor w =
      after (λ e. e) (c.os.mkdir_all (user_trash_dir_abs c actor) w)
        (list_files
          (record { actor = actor; path = user_trash_dir_abs c actor; recursive = false }))
