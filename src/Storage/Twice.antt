-- ===== src/Storage/Twice.antt =====
-- What lies in the trash is not put there a second time.
use workspace_service.Base.{
  ◌≡◌, refl, true, false, List, [], ◌∷◌, ◌++◌, Text, text_eq, has_prefix, contains, all, arith,
  some,
}
use workspace_service.Errors.{ok, err, sentinel, invalid_request}
use workspace_service.FileInfo.{Actor}
use workspace_service.FilePath.{separator, join_elements}
use workspace_service.FilePath.Elements.{is_plain}
use workspace_service.Identity.Isolation.{IsPlainContext}
use workspace_service.Os.{Stat}
use workspace_service.Storage.{WorkspaceFsClient, trash_dir_name, user_root_of}
use workspace_service.Storage.Places.{absolute, restored_place-user_rel_path}
use workspace_service.Storage.Trash.{is_not_for_trash, soft_delete, delete_path}

trash_is_plain : is_plain trash_dir_name ≡ true
unfolding is_plain text_eq contains
trash_is_plain = refl

is_not_for_trash-inside :
    (ps : List Text) → is_not_for_trash (join_elements (trash_dir_name ∷ ps)) ≡ true
unfolding is_not_for_trash join_elements text_eq has_prefix
is_not_for_trash-inside [] = refl
is_not_for_trash-inside (q ∷ qs) = refl

module _ {W : Type 0} (c : WorkspaceFsClient W) (m : Text) (ms : List Text) (actor : Actor) where
  -- When the mount root is an absolute path of plain elements and app id, workspace id and uin of
  -- the actor are plain directory names, a soft deletion of an existing path that is the
  -- directory trash of the user or lies below it by plain elements answers that the request is
  -- invalid, and the state is the one before.
  pub delete_path-trash :
      (ps : List Text) (w : W) {there : Stat}
      → c.mount_root ≡ absolute (m ∷ ms)
      → all is_plain (m ∷ ms) ≡ true
      → IsPlainContext actor
      → all is_plain ps ≡ true
      → c.os.stat (user_root_of c actor ++ (separator ∷ join_elements (trash_dir_name ∷ ps))) w
        ≡ ok (some there)
      → delete_path c
          (record {
            actor = actor;
            path = user_root_of c actor ++ (separator ∷ join_elements (trash_dir_name ∷ ps));
            soft_delete = true;
            permanent = false;
          })
          w
        ≡ (err (sentinel invalid_request), w)
  unfolding delete_path soft_delete
  delete_path-trash ps w e h plain k found =
      let (rel, back) =
        restored_place-user_rel_path c m ms actor trash_dir_name ps 0 e h plain
          (ground (arith, trash_is_plain)) in
      rw (found, rel, is_not_for_trash-inside ps) refl
