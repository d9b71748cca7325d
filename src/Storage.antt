-- ===== src/Storage.antt =====
-- internal/infra/fs: the client of the storage on the mount (workspace_fs.go, trash.go, enrich.go), over
-- the files of the operating system. The system tells the inode of every file that it finds.
pub mod Enrich
pub mod Reads
pub mod Emptying
pub mod Writes
pub mod Trash
pub mod Refusals
pub mod Places
pub mod Parents
pub mod Names
pub mod Twice
pub mod Atomic
pub mod Examples
use workspace_service.Base.{
  ℕ, zero, suc, Bool, true, false, not, ◌&&◌, ◌||◌, Option, none, some, List, [], ◌∷◌, ◌++◌, Text,
  codes, text_eq, is_empty, has_prefix, replace_all, number_key, Map, lookup, if◌then◌else◌, ◌==◌,
}
use workspace_service.Calls.{Call}
use workspace_service.Errors.{Error, Result, ok, err, new_error}
use workspace_service.File.{NodeRecord, NodeStore, Outcome}
use workspace_service.File.NodeType.{git_folder, infer_node_type_from_name}
use workspace_service.FileInfo.{Actor, FileInfo}
use workspace_service.FilePath.{separator, join, clean, base}
use workspace_service.Identity.{user_path_prefix}
use workspace_service.Os.{Os, Stat}

pub record TrashMeta : Type 0 where
  pub original_path : Text
  pub deleted_at : ℕ

-- The client; `encode_meta` and `decode_meta` are encoding/json on trashMeta, and `now` is the clock.
pub record WorkspaceFsClient (W : Type 0) : Type 0 where
  pub store : Option (NodeStore W)
  pub mount_root : Text
  pub os : Os W
  pub now : W → ℕ
  pub encode_meta : TrashMeta → List ℕ
  pub decode_meta : List ℕ → Result TrashMeta
  pub default_notebook : Text → List ℕ

-- The rest of an operation after a call that may fail: its error is the answer.
abbrev pub after : {W A : Type 0} → (Error → Error) → Outcome W → Call W A → Result A × W
after shown (some e, w) rest = (err (shown e), w)
after shown (none, w) rest = rest w

abbrev pub trash_dir_name : Text
trash_dir_name = codes "trash"

-- trashEntryName
unfoldable pub trash_entry_name : Text → Text
unfolding replace_all
trash_entry_name rel_path = replace_all separator (codes "__") rel_path

abbrev pub drop : Text → Text → Text
drop [] s = s
drop (c ∷ p) [] = []
drop (c ∷ p) (d ∷ s) = drop p s

module _ {W : Type 0} (c : WorkspaceFsClient W) where
  -- WorkspaceFSClient.userRootAbs
  unfoldable pub user_root_of : Actor → Text
  unfolding join clean user_path_prefix
  user_root_of actor =
      if is_empty c.mount_root
      then clean (user_path_prefix actor)
      else join (c.mount_root ∷ user_path_prefix actor ∷ [])

  -- WorkspaceFSClient.userTrashDirAbs
  unfoldable pub user_trash_dir_abs : Actor → Text
  unfolding join user_root_of
  user_trash_dir_abs actor = join (user_root_of actor ∷ trash_dir_name ∷ [])

  -- WorkspaceFSClient.userTrashMetaDirAbs
  unfoldable pub user_trash_meta_dir_abs : Actor → Text
  unfolding join user_trash_dir_abs
  user_trash_meta_dir_abs actor = join (user_trash_dir_abs actor ∷ codes "_meta" ∷ [])

  -- WorkspaceFSClient.trashMetaPath
  unfoldable pub trash_meta_path : Actor → Text → Text
  unfolding join user_trash_meta_dir_abs
  trash_meta_path actor entry_name =
      join (user_trash_meta_dir_abs actor ∷ (entry_name ++ codes ".json") ∷ [])

  -- WorkspaceFSClient.isUnderTrash
  unfoldable pub is_under_trash : Actor → Text → Bool
  unfolding user_trash_dir_abs clean text_eq has_prefix
  is_under_trash actor abs_path =
      text_eq (clean abs_path) (user_trash_dir_abs actor)
      || has_prefix (user_trash_dir_abs actor ++ (separator ∷ [])) (clean abs_path)

  -- WorkspaceFSClient.userRelPath
  unfoldable pub user_rel_path : Actor → Text → Result Text
  unfolding user_root_of clean text_eq has_prefix
  user_rel_path actor abs_path =
      if text_eq (clean abs_path) (user_root_of actor)
      then ok (codes "")
      else if has_prefix (user_root_of actor ++ (separator ∷ [])) (clean abs_path)
      then ok (drop (user_root_of actor ++ (separator ∷ [])) (clean abs_path))
      else err (new_error (codes "path not under user prefix"))

  -- WorkspaceFSClient.readTrashMeta
  unfoldable pub read_trash_meta : Actor → Text → W → Result TrashMeta
  unfolding trash_meta_path
  read_trash_meta actor entry_name w = elim (c.os.read_file (trash_meta_path actor entry_name) w) [
    | err e ↦ err e
    | ok data_ ↦ c.decode_meta data_
  ]
