-- ===== src/Storage/Examples.antt =====
-- Runs and instances of the storage client, over a disk whose every path is a file.
use workspace_service.Base.{
  ◌≡◌, refl, none, some, List, [], ◌∷◌, ◌++◌, Text, codes, true, false, text_eq, contains, all,
  if◌then◌else◌,
}
use workspace_service.Errors.{ok, err, sentinel, already_exists, invalid_request}
use workspace_service.FilePath.{separator, join, join_elements}
use workspace_service.FilePath.Elements.{is_plain}
use workspace_service.FsService.Resolve.Examples.{tenant, tenant_plain}
use workspace_service.Identity.{normalize}
use workspace_service.Os.{Os, Stat}
use workspace_service.Storage.{
  trash_dir_name, WorkspaceFsClient, user_root_of, user_rel_path, trash_entry_name,
}
use workspace_service.Storage.Trash.{restored_place, delete_path}
use workspace_service.Storage.Writes.{rename_or_move}
use workspace_service.Storage.Places.{restored_place-user_rel_path}
use workspace_service.Storage.Names.{trash_entry_name-collides}
use workspace_service.Storage.Twice.{delete_path-trash}
use workspace_service.Storage.Refusals.{careful_client, rename_or_move-careful}

abbrev a_file : Stat
a_file = record { name = codes "a"; is_dir = false; size = 3; mod_time = 10; inode = 42 }

-- The paths that were changed, the last one first.
abbrev pub full_disk : Os (List Text)
full_disk = record {
  stat = λ p w. ok (some a_file);
  read_file = λ p w. ok [];
  read_dir = λ p w. ok (some []);
  walk = λ p w. [];
  mkdir_all = λ p w. (none, p ∷ w);
  rename = λ p q w. (none, p ∷ q ∷ w);
  remove = λ p w. (none, p ∷ w);
  remove_all = λ p w. (none, p ∷ w);
  write_file = λ p b w. (none, p ∷ w);
  create_temp = λ d p w. (ok (codes "tmp"), w);
  write_temp = λ p b w. (none, p ∷ w);
  sync_temp = λ p w. (none, w);
  close_temp = λ p w. (none, w);
  chmod = λ p w. (none, w);
}

abbrev pub client : WorkspaceFsClient (List Text)
client = record {
  store = none;
  mount_root = codes "/mnt/jfs";
  os = full_disk;
  now = λ w. 0;
  encode_meta = λ m. m.original_path;
  decode_meta = λ b. ok (record { original_path = b; deleted_at = 0 });
  default_notebook = λ k. [];
}

-- The same disk without the file b.
abbrev without_b : WorkspaceFsClient (List Text)
without_b = record client {
  os = record full_disk {
    stat = λ p w. if text_eq p (codes "/mnt/jfs/b") then ok none else ok (some a_file);
  };
}

rename_or_move-careful_example :
    rename_or_move
      (careful_client false without_b)
      tenant
      (codes "/mnt/jfs/a")
      (codes "/mnt/jfs/b")
      false
      []
    ≡ rename_or_move without_b tenant (codes "/mnt/jfs/a") (codes "/mnt/jfs/b") false []
rename_or_move-careful_example =
    rename_or_move-careful without_b (λ p w h. h) (λ store mutation p w e. absurd (cc e)) tenant
      (codes "/mnt/jfs/a") (codes "/mnt/jfs/b") false []

occupied :
    rename_or_move client tenant (codes "/mnt/jfs/a") (codes "/mnt/jfs/b") false []
    ≡ (err (sentinel already_exists), [])
unfolding rename_or_move
occupied = refl

plain_name : all is_plain (codes "jfs" ∷ []) ≡ true
unfolding is_plain text_eq contains
plain_name = refl

pub plain_names : all is_plain (codes "mnt" ∷ codes "jfs" ∷ []) ≡ true
unfolding is_plain text_eq contains
plain_names = refl

restored_place-user_rel_path_example :
    (user_rel_path client (normalize tenant) (
        user_root_of client (normalize tenant)
        ++ (separator ∷ join_elements (codes "mnt" ∷ codes "jfs" ∷ [])))
      ≡ ok (join_elements (codes "mnt" ∷ codes "jfs" ∷ [])))
    × (join (
          user_root_of client (normalize tenant)
          ∷ restored_place (codes "") (record {
            original_path = join_elements (codes "mnt" ∷ codes "jfs" ∷ []);
            deleted_at = 7;
          })
          ∷ [])
        ≡ user_root_of client (normalize tenant)
          ++ (separator ∷ join_elements (codes "mnt" ∷ codes "jfs" ∷ [])))
unfolding join_elements
restored_place-user_rel_path_example =
    restored_place-user_rel_path client (codes "mnt") (codes "jfs" ∷ []) (normalize tenant)
      (codes "mnt") (codes "jfs" ∷ []) 7 refl plain_names tenant_plain plain_names

trash_entry_name-collides_example :
    trash_entry_name (codes "a" ++ (separator ∷ codes "b"))
    ≡ trash_entry_name (codes "a" ++ (codes "__" ++ codes "b"))
trash_entry_name-collides_example = trash_entry_name-collides (codes "a") (codes "b")

delete_path-trash_example :
    delete_path client
      (record {
        actor = normalize tenant;
        path =
            user_root_of client (normalize tenant)
            ++ (separator ∷ join_elements (trash_dir_name ∷ codes "jfs" ∷ []));
        soft_delete = true;
        permanent = false;
      })
      []
    ≡ (err (sentinel invalid_request), [])
unfolding join_elements
delete_path-trash_example =
    delete_path-trash client (codes "mnt") (codes "jfs" ∷ []) (normalize tenant) (codes "jfs" ∷ [])
      [] refl plain_names tenant_plain plain_name refl
