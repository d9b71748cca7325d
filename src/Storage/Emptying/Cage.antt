-- ===== src/Storage/Emptying/Cage.antt =====
-- The files of the system for a caller that removes nothing outside of a directory.
use workspace_service.Base.{
  Bool, true, false, ◌≡◌, refl, ap, ◌∙◌, Option, none, some, [], ◌∷◌, ◌++◌, Text, arith, has_prefix,
}
use workspace_service.Errors.{Result, ok, err, sentinel, invalid_request}
use workspace_service.File.{Outcome}
use workspace_service.FileInfo.{Actor}
use workspace_service.FilePath.{separator}
use workspace_service.FsService.Operations.Fence.{lies_in, has_prefix-below}
use workspace_service.Os.{Os, Stat}
use workspace_service.Storage.{WorkspaceFsClient, trash_meta_path}
use workspace_service.Storage.Emptying.{entry_emptied}
use workspace_service.Storage.Trash.{delete_path, deleted, removed, remove_trash_meta}
use workspace_service.Storage.Writes.{mark_row_deleted}

-- A removal that is refused outside of a directory.
unfoldable pub caged_removal : {W : Type 0} → Bool → (W → Outcome W) → W → Outcome W
caged_removal true act w = act w
caged_removal false act w = (some (sentinel invalid_request), w)

-- The files of the system for a caller that may look at everything, remove what is in the directory, and change
-- nothing else.
unfoldable pub caged : {W : Type 0} → Text → Os W → Os W
unfolding caged_removal lies_in
caged root os = record os {
  mkdir_all = λ p. caged_removal false (os.mkdir_all p);
  rename = λ p q. caged_removal false (os.rename p q);
  remove = λ p. caged_removal (lies_in root p) (os.remove p);
  remove_all = λ p. caged_removal (lies_in root p) (os.remove_all p);
  write_file = λ p b. caged_removal false (os.write_file p b);
  create_temp = λ d p w. (err (sentinel invalid_request), w);
  write_temp = λ p b. caged_removal false (os.write_temp p b);
  chmod = λ p. caged_removal false (os.chmod p);
}

-- The client whose files are caged to a directory.
abbrev pub caged_client : {W : Type 0} → Text → WorkspaceFsClient W → WorkspaceFsClient W
caged_client root c = record c { os = caged root c.os }

pub lies_in-below : (root s : Text) → lies_in root (root ++ (separator ∷ s)) ≡ true
unfolding lies_in
lies_in-below root s =
    let below : has_prefix (root ++ (separator ∷ [])) (root ++ (separator ∷ s)) ≡ true =
      has_prefix-below root s in
    ground (arith, below)

-- The two clients do the same to what is in the directory.
module _ {W : Type 0} (c : WorkspaceFsClient W) (root : Text) where
  remove-caged :
      (p : Text) (w : W) → lies_in root p ≡ true → (caged root c.os).remove p w ≡ c.os.remove p w
  unfolding caged caged_removal
  remove-caged p w h = ap (λ b. caged_removal b (c.os.remove p) w) h

  pub remove_all-caged :
      (p : Text) (w : W)
      → lies_in root p ≡ true
      → (caged root c.os).remove_all p w ≡ c.os.remove_all p w
  unfolding caged caged_removal
  remove_all-caged p w h = ap (λ b. caged_removal b (c.os.remove_all p) w) h

  removed-caged :
      (p : Text) (info : Stat) (w : W)
      → lies_in root p ≡ true
      → removed (caged_client root c) p info w ≡ removed c p info w
  unfolding removed
  removed-caged p info w h = rw (remove-caged p w h, remove_all-caged p w h) refl

  deleted-caged :
      (actor : Actor) (p : Text) (s : Result (Option Stat)) (w : W)
      → lies_in root p ≡ true
      → deleted
          (caged_client root c)
          (record { actor = actor; path = p; soft_delete = false; permanent = true })
          s
          w
        ≡ deleted c (record { actor = actor; path = p; soft_delete = false; permanent = true }) s w
  unfolding deleted
  deleted-caged actor p (ok none) w h = refl
  deleted-caged actor p (err e) w h = refl
  deleted-caged actor p (ok (some info)) w h =
      removed-caged p info (mark_row_deleted c actor info w) h

  remove_trash_meta-caged :
      (actor : Actor) (name : Text) (w : W)
      → lies_in root (trash_meta_path c actor name) ≡ true
      → remove_trash_meta (caged_client root c) actor name w ≡ remove_trash_meta c actor name w
  unfolding remove_trash_meta
  remove_trash_meta-caged actor name w h =
      ap (λ o. o.1) (remove-caged (trash_meta_path c actor name) w h)

  pub delete_path-caged :
      (actor : Actor) (p : Text) (w : W)
      → lies_in root p ≡ true
      → delete_path
          (caged_client root c)
          (record { actor = actor; path = p; soft_delete = false; permanent = true })
          w
        ≡ delete_path c
            (record { actor = actor; path = p; soft_delete = false; permanent = true })
            w
  unfolding delete_path caged
  delete_path-caged actor p w h = deleted-caged actor p (c.os.stat p w) w h

  pub entry_emptied-caged :
      (actor : Actor) (name : Text) (r : Result (Unit {0}) × W) (f g : W → Result (Unit {0}) × W)
      → lies_in root (trash_meta_path c actor name) ≡ true
      → ((w : W) → f w ≡ g w)
      → entry_emptied (caged_client root c) actor name r f ≡ entry_emptied c actor name r g
  unfolding entry_emptied
  entry_emptied-caged actor name (err e, w) f g h k = refl
  entry_emptied-caged actor name (ok u, w) f g h k =
      ap f (remove_trash_meta-caged actor name w h) ∙ k (remove_trash_meta c actor name w)
