-- ===== src/Storage/Trash.antt =====
-- Deletion, the recycle bin and restoration: internal/infra/fs/trash.go and workspace_fs.go. os.Remove of a
-- file that does not exist leaves the state as it is; its error is dropped by every caller.
use workspace_service.Base.{
  Bool, not, ◌&&◌, ◌||◌, Option, none, some, [], ◌∷◌, ◌++◌, Text, codes, text_eq, is_empty,
  trim_space, has_prefix, if◌then◌else◌,
}
use workspace_service.Calls.{Call}
use workspace_service.Errors.{
  Error, Result, ok, err, sentinel, prefix_wrap, not_found, already_exists, invalid_request,
}
use workspace_service.File.{Outcome}
use workspace_service.FileInfo.{Actor, FileInfo, DeletePathReq, RestorePathReq}
use workspace_service.FilePath.{separator, join, clean, dir, base}
use workspace_service.InodeRecord.{record_upsert}
use workspace_service.Os.{Stat}
use workspace_service.Storage.{
  WorkspaceFsClient, TrashMeta, after, trash_dir_name, trash_entry_name, user_root_of,
  user_rel_path, user_trash_dir_abs, user_trash_meta_dir_abs, trash_meta_path, is_under_trash,
  read_trash_meta,
}
use workspace_service.Storage.Enrich.{build_enriched_file_info}
use workspace_service.Storage.Writes.{mark_row_deleted, as_it_is}

-- A path of the trash, or the user's directory itself: not to be put into the trash.
unfoldable pub is_not_for_trash : Text → Bool
unfolding text_eq has_prefix
is_not_for_trash user_rel =
    is_empty user_rel
    || text_eq user_rel trash_dir_name
    || has_prefix (trash_dir_name ++ (separator ∷ [])) user_rel

-- The path is free: os.Stat of it fails.
unfoldable pub taken : Result (Option Stat) → Option Error
taken (ok (some info)) = some (sentinel already_exists)
taken (ok none) = none
taken (err e) = none

-- Where an entry goes back to, below the directory of the user.
unfoldable pub restored_place : Text → TrashMeta → Text
unfolding join base
restored_place target_parent meta =
    if is_empty target_parent
    then meta.original_path
    else join (target_parent ∷ base meta.original_path ∷ [])

module _ {W : Type 0} (c : WorkspaceFsClient W) where
  write_meta : Actor → Text → Text → Outcome W → Outcome W
  unfolding trash_meta_path
  write_meta actor entry_name original_path (some e, w) = (some e, w)
  write_meta actor entry_name original_path (none, w) =
      c.os.write_file (trash_meta_path c actor entry_name)
        (c.encode_meta (record { original_path = original_path; deleted_at = c.now w })) w

  -- WorkspaceFSClient.writeTrashMeta
  unfoldable pub write_trash_meta : Actor → Text → Text → W → Outcome W
  unfolding write_meta user_trash_meta_dir_abs
  write_trash_meta actor entry_name original_path w =
      write_meta actor entry_name original_path (c.os.mkdir_all (user_trash_meta_dir_abs c actor) w)

  -- WorkspaceFSClient.removeTrashMeta, whose error the callers drop
  unfoldable pub remove_trash_meta : Actor → Text → W → W
  unfolding trash_meta_path
  remove_trash_meta actor entry_name w = (c.os.remove (trash_meta_path c actor entry_name) w).1

  -- The meta data of an entry, whose file is put back if they can not be written.
  recorded : Actor → Text → Text → Outcome W → Result (Unit {0}) × W
  unfolding record_upsert
  recorded actor abs_path trash_dest (some e, w) = (err e, (c.os.rename trash_dest abs_path w).1)
  recorded actor abs_path trash_dest (none, w) =
      (ok tt, record_upsert c.os c.store actor trash_dest w)

  put_into_trash : Actor → Text → Text → Call W (Unit {0})
  unfolding trash_entry_name user_trash_dir_abs taken write_trash_meta recorded join
  put_into_trash actor abs_path user_rel w =
      let entry_name : Text = trash_entry_name user_rel in
      let trash_dest : Text = join (user_trash_dir_abs c actor ∷ entry_name ∷ []) in
      after as_it_is (c.os.mkdir_all (user_trash_dir_abs c actor) w) λ w.
        after as_it_is (taken (c.os.stat trash_dest w), w)
          λ w.
            after (prefix_wrap (codes "move to trash")) (c.os.rename abs_path trash_dest w)
              λ w. recorded actor abs_path trash_dest (write_trash_meta actor entry_name user_rel w)

  soft_deleted : Actor → Text → Result Text → Call W (Unit {0})
  unfolding is_not_for_trash put_into_trash
  soft_deleted actor abs_path (err e) w = (err (sentinel invalid_request), w)
  soft_deleted actor abs_path (ok user_rel) w =
      if is_not_for_trash user_rel
      then (err (sentinel invalid_request), w)
      else put_into_trash actor abs_path user_rel w

  -- WorkspaceFSClient.softDelete
  unfoldable pub soft_delete : Actor → Text → Call W (Unit {0})
  unfolding soft_deleted user_rel_path
  soft_delete actor abs_path w = soft_deleted actor abs_path (user_rel_path c actor abs_path) w

  done : Call W (Unit {0})
  done w = (ok tt, w)

  unfoldable pub removed : Text → Stat → Call W (Unit {0})
  unfolding done
  removed path info w =
      if info.is_dir
      then after (prefix_wrap (codes "delete folder")) (c.os.remove_all path w) done
      else after (prefix_wrap (codes "delete file")) (c.os.remove path w) done

  unfoldable pub deleted : DeletePathReq → Result (Option Stat) → Call W (Unit {0})
  unfolding soft_delete removed mark_row_deleted
  deleted req (ok none) w = (err (sentinel not_found), w)
  deleted req (err e) w = (err e, w)
  deleted req (ok (some info)) w =
      if req.soft_delete && not req.permanent
      then soft_delete req.actor req.path w
      else removed req.path info (mark_row_deleted c req.actor info w)

  -- WorkspaceFSClient.DeletePath
  unfoldable pub delete_path : DeletePathReq → Call W (Unit {0})
  unfolding deleted
  delete_path req w = deleted req (c.os.stat req.path w) w

  put_back : Actor → Text → Text → Text → Call W FileInfo
  unfolding dir taken remove_trash_meta record_upsert build_enriched_file_info
  put_back actor trash_abs entry_name dest_abs w =
      after as_it_is (c.os.mkdir_all (dir dest_abs) w) λ w.
        after as_it_is (taken (c.os.stat dest_abs w), w)
          λ w. after (prefix_wrap (codes "restore")) (c.os.rename trash_abs dest_abs w) λ w.
            build_enriched_file_info c actor dest_abs
              (record_upsert c.os c.store actor dest_abs (remove_trash_meta actor entry_name w))

  restored : RestorePathReq → Text → Result TrashMeta → Call W FileInfo
  unfolding put_back restored_place user_root_of trim_space join base
  restored req trash_abs (err e) w = (err (sentinel not_found), w)
  restored req trash_abs (ok meta) w =
      put_back req.actor trash_abs (base trash_abs)
        (join (user_root_of c req.actor ∷ restored_place (trim_space req.target_parent) meta ∷ []))
        w

  -- WorkspaceFSClient.RestorePath
  unfoldable pub restore_path : RestorePathReq → Call W FileInfo
  unfolding is_under_trash restored read_trash_meta clean base
  restore_path req w =
      if not (is_under_trash c req.actor (clean req.trash_path))
      then (err (sentinel invalid_request), w)
      else restored req (clean req.trash_path)
          (read_trash_meta c req.actor (base (clean req.trash_path)) w) w
