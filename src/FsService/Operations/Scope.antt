-- ===== src/FsService/Operations/Scope.antt =====
-- The requests of the file service reach the storage only inside the directory of the user: they do
-- the same over a client that refuses every other path.
use workspace_service.Base.{
  ℕ, Bool, true, false, not, ◌||◌, sym, trim_space, ◌≡◌, refl, ap, ◌∙◌, List, Text, is_empty, arith,
  inl, inr, Bool-cases,
}
use workspace_service.Errors.{ok}
use workspace_service.Identity.{RequestContext, normalize}
use workspace_service.Identity.Isolation.{IsPlainContext}
use workspace_service.Mount.{user_root_abs}
use workspace_service.FsService.Resolve.{resolve_abs_path, resolve_actor_and_path}
use workspace_service.FsService.Resolve.Isolation.{
  resolve_actor_and_path-IsInside, resolve_abs_path-IsInside,
}
use workspace_service.FsService.Service.{Service}
use workspace_service.FsService.Operations.{
  delete_path, move_path, copy_path, rename_path, make_folder, make_file, make_notebook,
  overwrite_file, identified, content_of, recorded, checked_name, normalize_notebook_path,
}
use workspace_service.FsService.Operations.Queries.{
  validate_path, restore_path, parent_of, list_files, read_file, get_file_info, download_file,
  get_folder_node_path, list_recycle_bin, empty_recycle_bin,
}
use workspace_service.FsService.Operations.Fence.{
  lies_in, lies_in-IsInside, target_stays, fence, fenced_call, renamed_place, guarded, fenced,
}
use workspace_service.Calls.{checked_cong}

module _ {W : Type 0} (s : Service W) (ctx : RequestContext)
    (plain : IsPlainContext (normalize ctx)) (strict : Bool) where
  found_inside :
      (path : Text) (found : RequestContext × Text)
      → resolve_actor_and_path s.mount_root ctx path ≡ ok found
      → lies_in (user_root_abs s.mount_root (normalize ctx)) found.1 ≡ true
  found_inside path (actor, abs) e =
      lies_in-IsInside (user_root_abs s.mount_root (normalize ctx)) abs
        (resolve_actor_and_path-IsInside s.mount_root ctx path plain e).1

  own_bin :
      lies_in
        (user_root_abs s.mount_root (normalize ctx))
        (user_root_abs s.mount_root (normalize ctx))
      ≡ true
  own_bin = lies_in-IsInside _ _ (inl refl)

  actor_inside :
      (path : Text) (found : RequestContext × Text)
      → resolve_actor_and_path s.mount_root ctx path ≡ ok found
      → lies_in (user_root_abs s.mount_root (normalize ctx)) (user_root_abs s.mount_root found.0)
        ≡ true
  actor_inside path (actor, abs) e =
      ap (λ a. lies_in (user_root_abs s.mount_root (normalize ctx)) (user_root_abs s.mount_root a))
        (resolve_actor_and_path-IsInside s.mount_root ctx path plain e).0
      ∙ own_bin

  dest_inside :
      (path : Text) (abs : Text)
      → resolve_abs_path s.mount_root (normalize ctx) path ≡ ok abs
      → lies_in (user_root_abs s.mount_root (normalize ctx)) abs ≡ true
  dest_inside path abs e =
      lies_in-IsInside (user_root_abs s.mount_root (normalize ctx)) abs
        (resolve_abs_path-IsInside s.mount_root ctx path plain e)

  pub make_folder-fenced :
      (id path : Text) (w : W)
      → make_folder (guarded strict ctx s) id ctx path w ≡ make_folder s id ctx path w
  unfolding make_folder fence fenced_call recorded
  make_folder-fenced id path w =
      checked_cong (resolve_actor_and_path s.mount_root ctx path) _ _ w
        λ found e. rw (found_inside path found e) refl

  pub make_file-fenced :
      (id path : Text) (raw : List ℕ) (b64 : Text) (overwrite : Bool) (w : W)
      → make_file (guarded strict ctx s) id ctx path raw b64 overwrite w
        ≡ make_file s id ctx path raw b64 overwrite w
  unfolding make_file fence fenced_call recorded content_of
  make_file-fenced id path raw b64 overwrite w =
      checked_cong (resolve_actor_and_path s.mount_root ctx path) _ _ w
        λ found e. rw (found_inside path found e) refl

  pub overwrite_file-fenced :
      (id path : Text) (raw : List ℕ) (b64 : Text) (overwrite : Bool) (w : W)
      → overwrite_file (guarded strict ctx s) id ctx path raw b64 overwrite w
        ≡ overwrite_file s id ctx path raw b64 overwrite w
  unfolding overwrite_file fence fenced_call recorded content_of
  overwrite_file-fenced id path raw b64 overwrite w =
      checked_cong (resolve_actor_and_path s.mount_root ctx path) _ _ w
        λ found e. rw (found_inside path found e) refl

  pub make_notebook-fenced :
      (id path kernel : Text) (overwrite : Bool) (w : W)
      → make_notebook (guarded strict ctx s) id ctx path kernel overwrite w
        ≡ make_notebook s id ctx path kernel overwrite w
  unfolding make_notebook fence fenced_call recorded
  make_notebook-fenced id path kernel overwrite w =
      checked_cong (normalize_notebook_path path) _ _ w λ named n.
        checked_cong (resolve_actor_and_path s.mount_root ctx named) _ _ w
          λ found e. rw (found_inside named found e) refl

  pub delete_path-fenced :
      (path : Text) (soft permanent : Bool) (w : W)
      → delete_path (guarded strict ctx s) ctx path soft permanent w
        ≡ delete_path s ctx path soft permanent w
  unfolding delete_path fence fenced_call
  delete_path-fenced path soft permanent w =
      checked_cong (resolve_actor_and_path s.mount_root ctx path) _ _ w
        λ found e. rw (found_inside path found e, actor_inside path found e) refl

  pub move_path-fenced :
      (src dest : Text) (overwrite : Bool) (w : W)
      → move_path (guarded strict ctx s) ctx src dest overwrite w
        ≡ move_path s ctx src dest overwrite w
  unfolding move_path identified fence fenced_call
  move_path-fenced src dest overwrite w = checked_cong (identified s ctx) _ _ w λ _ _.
      checked_cong (resolve_abs_path s.mount_root (normalize ctx) src) _ _ w λ a e.
        checked_cong (resolve_abs_path s.mount_root (normalize ctx) dest) _ _ w
          λ b d. rw (dest_inside src a e, dest_inside dest b d) refl

  pub copy_path-fenced :
      (src dest : Text) (overwrite : Bool) (w : W)
      → copy_path (guarded strict ctx s) ctx src dest overwrite w
        ≡ copy_path s ctx src dest overwrite w
  unfolding copy_path identified fence fenced_call
  copy_path-fenced src dest overwrite w = checked_cong (identified s ctx) _ _ w λ _ _.
      checked_cong (resolve_abs_path s.mount_root (normalize ctx) src) _ _ w λ a e.
        checked_cong (resolve_abs_path s.mount_root (normalize ctx) dest) _ _ w
          λ b d. rw (dest_inside src a e, dest_inside dest b d) refl

  checked_name-eq_ok : (given : Text) {name : Text} → checked_name s given ≡ ok name → given ≡ name
  unfolding checked_name
  checked_name-eq_ok given e = ground (arith, e)

  renamed_stays :
      (path new_name : Text) (found : RequestContext × Text) (name : Text)
      → resolve_actor_and_path s.mount_root ctx path ≡ ok found
      → trim_space new_name ≡ name
      → ((f : RequestContext × Text)
          → resolve_actor_and_path s.mount_root ctx path ≡ ok f
          → (not strict
              || lies_in
                  (user_root_abs s.mount_root (normalize ctx))
                  (renamed_place f.1 (trim_space new_name)))
            ≡ true)
      → (not strict
          || lies_in (user_root_abs s.mount_root (normalize ctx)) (renamed_place found.1 name))
        ≡ true
  renamed_stays path new_name found name e same stays =
      ap
        (λ n.
          not strict
          || lies_in (user_root_abs s.mount_root (normalize ctx)) (renamed_place found.1 n))
        (sym same)
      ∙ stays found e

  pub rename_path-fenced :
      (path new_name : Text) (overwrite : Bool) (w : W)
      → ((found : RequestContext × Text)
          → resolve_actor_and_path s.mount_root ctx path ≡ ok found
          → (not strict
              || lies_in
                  (user_root_abs s.mount_root (normalize ctx))
                  (renamed_place found.1 (trim_space new_name)))
            ≡ true)
      → rename_path (guarded strict ctx s) ctx path new_name overwrite w
        ≡ rename_path s ctx path new_name overwrite w
  unfolding rename_path fence fenced_call checked_name
  rename_path-fenced path new_name overwrite w stays =
      checked_cong (resolve_actor_and_path s.mount_root ctx path) _ _ w λ found e.
        checked_cong (checked_name s (trim_space new_name)) _ _ w λ name named.
          let same : trim_space new_name ≡ name = checked_name-eq_ok (trim_space new_name) named in
          rw (found_inside path found e, renamed_stays path new_name found name e same stays) refl

  pub list_files-fenced :
      (path : Text) (recursive : Bool) (w : W)
      → list_files (guarded strict ctx s) ctx path recursive w ≡ list_files s ctx path recursive w
  unfolding list_files fence fenced_call
  list_files-fenced path recursive w =
      checked_cong (resolve_actor_and_path s.mount_root ctx path) _ _ w
        λ found e. rw (found_inside path found e) refl

  pub read_file-fenced :
      (path : Text) (w : W) → read_file (guarded strict ctx s) ctx path w ≡ read_file s ctx path w
  unfolding read_file fence fenced_call
  read_file-fenced path w =
      checked_cong (resolve_actor_and_path s.mount_root ctx path) _ _ w
        λ found e. rw (found_inside path found e) refl

  pub get_file_info-fenced :
      (path : Text) (w : W)
      → get_file_info (guarded strict ctx s) ctx path w ≡ get_file_info s ctx path w
  unfolding get_file_info fence fenced_call
  get_file_info-fenced path w =
      checked_cong (resolve_actor_and_path s.mount_root ctx path) _ _ w
        λ found e. rw (found_inside path found e) refl

  pub download_file-fenced :
      (path : Text) (w : W)
      → download_file (guarded strict ctx s) ctx path w ≡ download_file s ctx path w
  unfolding download_file fence fenced_call
  download_file-fenced path w =
      checked_cong (resolve_actor_and_path s.mount_root ctx path) _ _ w
        λ found e. rw (found_inside path found e) refl

  pub get_folder_node_path-fenced :
      (path : Text) (w : W)
      → get_folder_node_path (guarded strict ctx s) ctx path w ≡ get_folder_node_path s ctx path w
  unfolding get_folder_node_path fence fenced_call
  get_folder_node_path-fenced path w =
      checked_cong (resolve_actor_and_path s.mount_root ctx path) _ _ w
        λ found e. rw (found_inside path found e) refl

  pub restore_path-fenced :
      (path target : Text) (w : W)
      → target_stays (user_root_abs s.mount_root (normalize ctx)) target ≡ true
      → restore_path (guarded strict ctx s) ctx path target w ≡ restore_path s ctx path target w
  unfolding restore_path fence fenced_call
  restore_path-fenced path target w stays =
      checked_cong (resolve_actor_and_path s.mount_root ctx path) _ _ w
        λ found e. rw (found_inside path found e, actor_inside path found e, stays) refl

  pub list_recycle_bin-fenced :
      (w : W) → list_recycle_bin (guarded strict ctx s) ctx w ≡ list_recycle_bin s ctx w
  unfolding list_recycle_bin identified fence fenced_call
  list_recycle_bin-fenced w = checked_cong (identified s ctx) _ _ w λ _ _. rw own_bin refl

  pub empty_recycle_bin-fenced :
      (w : W) → empty_recycle_bin (guarded strict ctx s) ctx w ≡ empty_recycle_bin s ctx w
  unfolding empty_recycle_bin identified fence fenced_call
  empty_recycle_bin-fenced w = checked_cong (identified s ctx) _ _ w λ _ _. rw own_bin refl

  parent_inside :
      (parent_path abs : Text)
      → parent_of s ctx parent_path ≡ ok abs
      → lies_in (user_root_abs s.mount_root (normalize ctx)) abs ≡ true
  unfolding parent_of
  parent_inside parent_path abs e = elim (Bool-cases (is_empty parent_path)) [
    | inl none_given ↦ lies_in-IsInside _ abs (inl (ground arith))
    | inr given ↦ dest_inside parent_path abs (ground arith)
  ]

  pub validate_path-fenced :
      (parent_path name : Text) (w : W)
      → validate_path (guarded strict ctx s) ctx parent_path name w
        ≡ validate_path s ctx parent_path name w
  unfolding validate_path fence fenced_call
  validate_path-fenced parent_path name w = checked_cong (identified s ctx) _ _ w λ _ _.
      checked_cong (parent_of s ctx parent_path) _ _ w
        λ abs e. rw (parent_inside parent_path abs e) refl

module _ {W : Type 0} (s : Service W) (ctx : RequestContext)
    (plain : IsPlainContext (normalize ctx)) where
  -- When the normalized app id, workspace id and uin of the request are plain directory names,
  -- each request that writes (a folder, a file, an overwritten file, a notebook, a deletion, a
  -- move, a copy, a rename) has the same answer and leaves the same state over a storage client
  -- that refuses every path of a request outside of the directory of the user. A new name is no
  -- path here.
  pub writes_fenced :
      (id path other text : Text) (raw : List ℕ) (one two : Bool) (w : W)
      → (make_folder (fenced ctx s) id ctx path w ≡ make_folder s id ctx path w)
        × (make_file (fenced ctx s) id ctx path raw text one w
            ≡ make_file s id ctx path raw text one w)
        × (overwrite_file (fenced ctx s) id ctx path raw text one w
            ≡ overwrite_file s id ctx path raw text one w)
        × (make_notebook (fenced ctx s) id ctx path text one w
            ≡ make_notebook s id ctx path text one w)
        × (delete_path (fenced ctx s) ctx path one two w ≡ delete_path s ctx path one two w)
        × (move_path (fenced ctx s) ctx path other one w ≡ move_path s ctx path other one w)
        × (copy_path (fenced ctx s) ctx path other one w ≡ copy_path s ctx path other one w)
        × (rename_path (fenced ctx s) ctx path text one w ≡ rename_path s ctx path text one w)
  writes_fenced id path other text raw one two w = (
    make_folder-fenced s ctx plain false id path w,
    make_file-fenced s ctx plain false id path raw text one w,
    overwrite_file-fenced s ctx plain false id path raw text one w,
    make_notebook-fenced s ctx plain false id path text one w,
    delete_path-fenced s ctx plain false path one two w,
    move_path-fenced s ctx plain false path other one w,
    copy_path-fenced s ctx plain false path other one w,
    rename_path-fenced s ctx plain false path text one w (λ _ _. refl),
  )

  -- When the normalized app id, workspace id and uin of the request are plain directory names,
  -- each request that reads (a listing, the information on a file, a read, a download, the check
  -- of a name, the chain of folders) has the same answer and leaves the same state over a storage
  -- client that refuses every path outside of the directory of the user.
  pub reads_fenced :
      (path name : Text) (recursive : Bool) (w : W)
      → (list_files (fenced ctx s) ctx path recursive w ≡ list_files s ctx path recursive w)
        × (get_file_info (fenced ctx s) ctx path w ≡ get_file_info s ctx path w)
        × (read_file (fenced ctx s) ctx path w ≡ read_file s ctx path w)
        × (download_file (fenced ctx s) ctx path w ≡ download_file s ctx path w)
        × (validate_path (fenced ctx s) ctx path name w ≡ validate_path s ctx path name w)
        × (get_folder_node_path (fenced ctx s) ctx path w ≡ get_folder_node_path s ctx path w)
  reads_fenced path name recursive w = (
    list_files-fenced s ctx plain false path recursive w,
    get_file_info-fenced s ctx plain false path w,
    read_file-fenced s ctx plain false path w,
    download_file-fenced s ctx plain false path w,
    validate_path-fenced s ctx plain false path name w,
    get_folder_node_path-fenced s ctx plain false path w,
  )
