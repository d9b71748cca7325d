-- ===== src/Storage/Emptying.antt =====
-- EmptyRecycleBin of internal/infra/fs/workspace_fs.go.
pub mod Cage
pub mod Confined
mod Examples
use workspace_service.Base.{
  Bool, true, false, Option, none, some, List, [], ◌∷◌, Text, codes, text_eq, if◌then◌else◌,
}
use workspace_service.Calls.{Call}
use workspace_service.Errors.{Result, ok, err}
use workspace_service.FileInfo.{Actor}
use workspace_service.FilePath.{join}
use workspace_service.Storage.{WorkspaceFsClient, user_trash_dir_abs, user_trash_meta_dir_abs}
use workspace_service.Storage.Trash.{delete_path, remove_trash_meta}

module _ {W : Type 0} (c : WorkspaceFsClient W) where
  -- An entry that is deleted for good, and the rest of the loop behind it.
  unfoldable pub entry_emptied :
      Actor → Text → Result (Unit {0}) × W → (W → Result (Unit {0}) × W) → Result (Unit {0}) × W
  unfolding remove_trash_meta
  entry_emptied actor name (err e, w) rest = (err e, w)
  entry_emptied actor name (ok u, w) rest = rest (remove_trash_meta c actor name w)

  -- The loop, and the removal of the meta data behind it, whose error is dropped.
  unfoldable pub entries_emptied : Actor → List Text → Call W (Unit {0})
  unfolding entry_emptied delete_path user_trash_dir_abs user_trash_meta_dir_abs join text_eq
  entries_emptied actor [] w = (ok tt, (c.os.remove_all (user_trash_meta_dir_abs c actor) w).1)
  entries_emptied actor (name ∷ names) w =
      let rest = entries_emptied actor names in
      if text_eq name (codes "_meta")
      then rest w
      else entry_emptied actor name
          (delete_path c
            (record {
              actor = actor;
              path = join (user_trash_dir_abs c actor ∷ name ∷ []);
              soft_delete = false;
              permanent = true;
            })
            w)
          rest

  unfoldable pub bin_emptied : Actor → Result (Option (List Text)) → Call W (Unit {0})
  unfolding entries_emptied
  bin_emptied actor (ok none) w = (ok tt, w)
  bin_emptied actor (err e) w = (err e, w)
  bin_emptied actor (ok (some names)) w = entries_emptied actor names w

  -- WorkspaceFSClient.EmptyRecycleBin
  unfoldable pub empty_recycle_bin : Actor → Call W (Unit {0})
  unfolding bin_emptied user_trash_dir_abs
  empty_recycle_bin actor w = bin_emptied actor (c.os.read_dir (user_trash_dir_abs c actor) w) w
