-- ===== src/Storage/Reads/Examples.antt =====
-- Runs of GetFolderNodePath over a disk on which every path is a directory.
use workspace_service.Base.{
  ◌≡◌, refl, Option, none, some, List, [], ◌∷◌, Text, codes, map, trim_space, all, true, text_eq,
  contains,
}
use workspace_service.Errors.{Result, ok, err}
use workspace_service.FileInfo.{FileInfo}
use workspace_service.FilePath.{join_elements}
use workspace_service.FilePath.Elements.{is_plain}
use workspace_service.FsService.Resolve.Examples.{tenant, tenant_plain}
use workspace_service.Identity.{normalize}
use workspace_service.Os.{Stat}
use workspace_service.Storage.{WorkspaceFsClient, user_root_of}
use workspace_service.Storage.Parents.{place, ancestors}
use workspace_service.Storage.Reads.{get_folder_node_path}
use workspace_service.Storage.Reads.Chain.{nodes_along, get_folder_node_path-eq}
use workspace_service.Storage.Examples.{client, full_disk, plain_names}

abbrev a_directory : Stat
a_directory = record { name = codes "d"; is_dir = true; size = 0; mod_time = 10; inode = 7 }

abbrev on_directories : WorkspaceFsClient (List Text)
on_directories = record client { os = record full_disk { stat = λ p w. ok (some a_directory) } }

abbrev below : List Text
below = codes "b" ∷ codes "a" ∷ []

below_plain : all is_plain below ≡ true
unfolding is_plain text_eq contains
below_plain = refl

get_folder_node_path-eq_example :
    get_folder_node_path on_directories
      (record {
        actor = normalize tenant;
        path = place (user_root_of on_directories (normalize tenant)) below;
      })
      []
    ≡ some (
        nodes_along on_directories
          (normalize tenant)
          (ancestors (user_root_of on_directories (normalize tenant)) below)
          []
          [])
unfolding join_elements
get_folder_node_path-eq_example =
    get_folder_node_path-eq on_directories (normalize tenant) (codes "mnt") (codes "jfs" ∷ []) below
      [] refl plain_names tenant_plain below_plain refl refl

abbrev paths_of : Option (Result (List FileInfo)) → List Text
paths_of (some (ok nodes)) = map (λ info. info.path) nodes
paths_of (some (err e)) = []
paths_of none = []

get_folder_node_path_run :
    paths_of (
      get_folder_node_path on_directories
        (record { actor = normalize tenant; path = codes "/mnt/jfs/app/ws/users/200/a/b" })
        [])
    ≡ codes "/mnt/jfs/app/ws/users/200"
      ∷ codes "/mnt/jfs/app/ws/users/200/a"
      ∷ codes "/mnt/jfs/app/ws/users/200/a/b"
      ∷ []
unfolding get_folder_node_path normalize trim_space
get_folder_node_path_run = refl
