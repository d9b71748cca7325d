-- ===== src/FsService/Operations/Faults.antt =====
-- The requests to the file service over a storage that fails every call.
use workspace_service.Base.{◌≡◌, refl, true, ◌⊎◌, inl, inr, none, [], ◌∷◌, Text, Bool, trim_space}
use workspace_service.Calls.{Call, checked}
use workspace_service.Errors.{
  Error, Result, ok, err, Sentinel, sentinel, prefix_wrap, error_is, invalid_file_request,
}
use workspace_service.FileInfo.{WorkspaceFs}
use workspace_service.FsService.Operations.{
  make_folder, make_file, make_notebook, overwrite_file, delete_path, move_path, copy_path,
  rename_path, recorded,
}
use workspace_service.FsService.Operations.Queries.{
  list_files, get_file_info, read_file, download_file, validate_path, get_folder_node_path,
  list_recycle_bin, restore_path, empty_recycle_bin,
}
use workspace_service.FsService.Operations.Refusals.{
  Refuses, resolve_actor_and_path-Refuses, resolve_abs_path-Refuses, identified-Refuses,
  content_of-Refuses, checked_name-Refuses, normalize_notebook_path-Refuses, parent_of-Refuses,
}
use workspace_service.FsService.Recorder.{run}
use workspace_service.FsService.Service.{Service}
use workspace_service.Identity.{RequestContext, normalize}

-- The storage that fails every call with one error.
unfoldable pub failing : {W : Type 0} → Sentinel → WorkspaceFs W
unfolding sentinel
failing e = record {
  create_folder = λ r w. (err (sentinel e), w);
  create_file = λ r w. (err (sentinel e), w);
  create_notebook = λ r w. (err (sentinel e), w);
  delete_path = λ r w. (err (sentinel e), w);
  move_path = λ r w. (err (sentinel e), w);
  copy_path = λ r w. (err (sentinel e), w);
  rename_path = λ r w. (err (sentinel e), w);
  list_files = λ r w. (err (sentinel e), w);
  validate_path = λ r w. (err (sentinel e), w);
  get_folder_node_path = λ r w. (err (sentinel e), w);
  list_recycle_bin = λ a w. (err (sentinel e), w);
  restore_path = λ r w. (err (sentinel e), w);
  empty_recycle_bin = λ a w. (err (sentinel e), w);
  get_file_info = λ p w. (err (sentinel e), w);
  read_file = λ r w. (err (sentinel e), w);
  write_file = λ r w. (err (sentinel e), w);
}

-- The call leaves the state alone, and fails with the error of the storage or as a bad request.
abbrev pub Fails : {W A : Type 0} → Sentinel → W → Result A × W → Type 0
Fails fault w answered =
    (e : Error) × (answered ≡ (err e, w))
    × ((error_is invalid_file_request e ≡ true) ⊎ (e.chain ≡ fault ∷ []))

pub checked-Fails :
    {W A B : Type 0} (fault : Sentinel) (w : W) (m : Result A) (rest : A → Call W B)
    → Refuses m
    → ((a : A) → Fails fault w (rest a w))
    → Fails fault w (checked m rest w)
unfolding Refuses
checked-Fails fault w (ok a) rest bad h = h a
checked-Fails fault w (err e) rest bad h = (e, refl, inl bad)

-- The service over the storage that fails, without a recorder.
abbrev pub faulty : {W : Type 0} → Sentinel → Service W → Service W
faulty fault s = record s { fs_client = failing fault; recorder = none }

module _ {W : Type 0} (s : Service W) (fault : Sentinel) (rc : RequestContext) where
  pub make_folder-Fails :
      (id path : Text) (w : W) → Fails fault w (make_folder (faulty fault s) id rc path w)
  unfolding make_folder failing sentinel prefix_wrap recorded run
  make_folder-Fails id path w =
      checked-Fails fault w _ _ (resolve_actor_and_path-Refuses s.mount_root rc path)
        λ x1. (_, refl, inr refl)

  pub make_file-Fails :
      (id path content_base64 : Text) (overwrite : Bool) (w : W)
      → Fails fault w (make_file (faulty fault s) id rc path [] content_base64 overwrite w)
  unfolding make_file failing sentinel prefix_wrap recorded run
  make_file-Fails id path content_base64 overwrite w =
      checked-Fails fault w _ _ (resolve_actor_and_path-Refuses s.mount_root rc path) λ x1.
        checked-Fails fault w _ _ (content_of-Refuses (faulty fault s) [] content_base64)
          λ x2. (_, refl, inr refl)

  pub make_notebook-Fails :
      (id path kernel_name : Text) (overwrite : Bool) (w : W)
      → Fails fault w (make_notebook (faulty fault s) id rc path kernel_name overwrite w)
  unfolding make_notebook failing sentinel prefix_wrap recorded run
  make_notebook-Fails id path kernel_name overwrite w =
      checked-Fails fault w _ _ (normalize_notebook_path-Refuses path) λ x1.
        checked-Fails fault w _ _ (resolve_actor_and_path-Refuses s.mount_root rc x1)
          λ x2. (_, refl, inr refl)

  pub delete_path-Fails :
      (path : Text) (soft_delete permanent : Bool) (w : W)
      → Fails fault w (delete_path (faulty fault s) rc path soft_delete permanent w)
  unfolding delete_path failing sentinel prefix_wrap
  delete_path-Fails path soft_delete permanent w =
      checked-Fails fault w _ _ (resolve_actor_and_path-Refuses s.mount_root rc path)
        λ x1. (_, refl, inr refl)

  pub move_path-Fails :
      (src_path dest_path : Text) (overwrite : Bool) (w : W)
      → Fails fault w (move_path (faulty fault s) rc src_path dest_path overwrite w)
  unfolding move_path failing sentinel prefix_wrap
  move_path-Fails src_path dest_path overwrite w =
      checked-Fails fault w _ _ (identified-Refuses s rc) λ x1.
        checked-Fails fault w _ _ (resolve_abs_path-Refuses s.mount_root (normalize rc) src_path)
          λ x2.
            checked-Fails fault w _ _
              (resolve_abs_path-Refuses s.mount_root (normalize rc) dest_path)
              λ x3. (_, refl, inr refl)

  pub copy_path-Fails :
      (src_path dest_path : Text) (overwrite : Bool) (w : W)
      → Fails fault w (copy_path (faulty fault s) rc src_path dest_path overwrite w)
  unfolding copy_path failing sentinel prefix_wrap
  copy_path-Fails src_path dest_path overwrite w =
      checked-Fails fault w _ _ (identified-Refuses s rc) λ x1.
        checked-Fails fault w _ _ (resolve_abs_path-Refuses s.mount_root (normalize rc) src_path)
          λ x2.
            checked-Fails fault w _ _
              (resolve_abs_path-Refuses s.mount_root (normalize rc) dest_path)
              λ x3. (_, refl, inr refl)

  pub rename_path-Fails :
      (path new_name : Text) (overwrite : Bool) (w : W)
      → Fails fault w (rename_path (faulty fault s) rc path new_name overwrite w)
  unfolding rename_path failing sentinel prefix_wrap
  rename_path-Fails path new_name overwrite w =
      checked-Fails fault w _ _ (resolve_actor_and_path-Refuses s.mount_root rc path) λ x1.
        checked-Fails fault w _ _ (checked_name-Refuses s (trim_space new_name))
          λ x2. (_, refl, inr refl)

  pub list_files-Fails :
      (path : Text) (recursive : Bool) (w : W)
      → Fails fault w (list_files (faulty fault s) rc path recursive w)
  unfolding list_files failing sentinel prefix_wrap
  list_files-Fails path recursive w =
      checked-Fails fault w _ _ (resolve_actor_and_path-Refuses s.mount_root rc path)
        λ x1. (_, refl, inr refl)

  pub validate_path-Fails :
      (parent_path name : Text) (w : W)
      → Fails fault w (validate_path (faulty fault s) rc parent_path name w)
  unfolding validate_path failing sentinel prefix_wrap
  validate_path-Fails parent_path name w =
      checked-Fails fault w _ _ (identified-Refuses s rc) λ x1.
        checked-Fails fault w _ _ (parent_of-Refuses s rc parent_path) λ x2. (_, refl, inr refl)

  pub get_folder_node_path-Fails :
      (path : Text) (w : W) → Fails fault w (get_folder_node_path (faulty fault s) rc path w)
  unfolding get_folder_node_path failing sentinel prefix_wrap
  get_folder_node_path-Fails path w =
      checked-Fails fault w _ _ (resolve_actor_and_path-Refuses s.mount_root rc path)
        λ x1. (_, refl, inr refl)

  pub list_recycle_bin-Fails : (w : W) → Fails fault w (list_recycle_bin (faulty fault s) rc w)
  unfolding list_recycle_bin failing sentinel prefix_wrap
  list_recycle_bin-Fails w =
      checked-Fails fault w _ _ (identified-Refuses s rc) λ x1. (_, refl, inr refl)

  pub restore_path-Fails :
      (trash_path target_parent : Text) (w : W)
      → Fails fault w (restore_path (faulty fault s) rc trash_path target_parent w)
  unfolding restore_path failing sentinel prefix_wrap
  restore_path-Fails trash_path target_parent w =
      checked-Fails fault w _ _ (resolve_actor_and_path-Refuses s.mount_root rc trash_path)
        λ x1. (_, refl, inr refl)

  pub empty_recycle_bin-Fails : (w : W) → Fails fault w (empty_recycle_bin (faulty fault s) rc w)
  unfolding empty_recycle_bin failing sentinel prefix_wrap
  empty_recycle_bin-Fails w =
      checked-Fails fault w _ _ (identified-Refuses s rc) λ x1. (_, refl, inr refl)

  pub get_file_info-Fails :
      (path : Text) (w : W) → Fails fault w (get_file_info (faulty fault s) rc path w)
  unfolding get_file_info failing sentinel prefix_wrap
  get_file_info-Fails path w =
      checked-Fails fault w _ _ (resolve_actor_and_path-Refuses s.mount_root rc path)
        λ x1. (_, refl, inr refl)

  pub read_file-Fails : (path : Text) (w : W) → Fails fault w (read_file (faulty fault s) rc path w)
  unfolding read_file failing sentinel prefix_wrap
  read_file-Fails path w =
      checked-Fails fault w _ _ (resolve_actor_and_path-Refuses s.mount_root rc path)
        λ x1. (_, refl, inr refl)

  pub overwrite_file-Fails :
      (id path content_base64 : Text) (overwrite : Bool) (w : W)
      → Fails fault w (overwrite_file (faulty fault s) id rc path [] content_base64 overwrite w)
  unfolding overwrite_file failing sentinel prefix_wrap recorded run
  overwrite_file-Fails id path content_base64 overwrite w =
      checked-Fails fault w _ _ (resolve_actor_and_path-Refuses s.mount_root rc path) λ x1.
        checked-Fails fault w _ _ (content_of-Refuses (faulty fault s) [] content_base64)
          λ x2. (_, refl, inr refl)

  pub download_file-Fails :
      (path : Text) (w : W) → Fails fault w (download_file (faulty fault s) rc path w)
  unfolding download_file failing sentinel prefix_wrap
  download_file-Fails path w =
      checked-Fails fault w _ _ (resolve_actor_and_path-Refuses s.mount_root rc path)
        λ x1. (_, refl, inr refl)
