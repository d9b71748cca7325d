-- ===== src/FsService/Operations/Fence.antt =====
-- A storage client that refuses the paths of requests outside of a directory, and one that refuses
-- new names that lead out of it, too: the directory itself, renamed, stands beside it.
use workspace_service.Base.{
  Bool, true, false, not, ◌&&◌, ◌||◌, ◌≡◌, refl, subst, [], ◌∷◌, ◌++◌, Text, text_eq, text_eq_refl,
  has_prefix, is_empty, trim_space, arith, ==_iff, append_assoc, inl, inr,
}
use workspace_service.Errors.{err, sentinel, invalid_request}
use workspace_service.FilePath.{separator, join, dir, join_elements}
use workspace_service.Identity.{RequestContext, normalize}
use workspace_service.Mount.{user_root_abs}
use workspace_service.FileInfo.{WorkspaceFs}
use workspace_service.Calls.{Call}
use workspace_service.FsService.Resolve.Isolation.{IsInside}
use workspace_service.FsService.Service.{Service}

-- The path is the directory or begins with it and a slash.
unfoldable pub lies_in : Text → Text → Bool
lies_in root path = text_eq path root || has_prefix (root ++ (separator ∷ [])) path

pub has_prefix-append : (p s : Text) → has_prefix p (p ++ s) ≡ true
unfolding has_prefix
has_prefix-append [] s = refl
has_prefix-append (c ∷ p) s = ground (arith, ==_iff c c, has_prefix-append p s)

pub has_prefix-below :
    (root s : Text) → has_prefix (root ++ (separator ∷ [])) (root ++ (separator ∷ s)) ≡ true
has_prefix-below root s =
    subst (λ t. has_prefix (root ++ (separator ∷ [])) t ≡ true)
      (append_assoc root (separator ∷ []) s) (has_prefix-append (root ++ (separator ∷ [])) s)

pub lies_in-IsInside : (root path : Text) → IsInside root path → lies_in root path ≡ true
unfolding lies_in
lies_in-IsInside root path (inl e) = rw (e, text_eq_refl root) refl
lies_in-IsInside root path (inr (p, ps, plain, e)) =
    let below : has_prefix (root ++ (separator ∷ [])) path ≡ true =
      rw e (has_prefix-below root (join_elements (p ∷ ps))) in
    ground (arith, below)

-- A call that is made for paths in the directory only.
unfoldable pub fenced_call : {W A : Type 0} → Bool → Call W A → Call W A
fenced_call true call w = call w
fenced_call false call w = (err (sentinel invalid_request), w)

-- The target parent of a restoration: it is joined to the directory of the user, and an empty one
-- stands for the place that the entry came from.
unfoldable pub target_stays : Text → Text → Bool
unfolding lies_in trim_space join
target_stays root target_parent =
    is_empty (trim_space target_parent)
    || lies_in root (join (root ∷ trim_space target_parent ∷ []))

-- Where a path goes that gets a new name.
unfoldable pub renamed_place : Text → Text → Text
unfolding join dir
renamed_place path new_name = join (dir path ∷ new_name ∷ [])

module _ {W : Type 0} (strict : Bool) (mount_root root : Text) where
  -- The client that refuses paths outside of the directory, target parents that lead out of it, the
  -- trash of other directories, and, if it is strict, new names that lead out.
  unfoldable pub fence : WorkspaceFs W → WorkspaceFs W
  unfolding fenced_call lies_in target_stays renamed_place
  fence c = record {
    create_folder = λ r. fenced_call (lies_in root r.path) (c.create_folder r);
    create_file = λ r. fenced_call (lies_in root r.path) (c.create_file r);
    create_notebook = λ r. fenced_call (lies_in root r.path) (c.create_notebook r);
    delete_path = λ r.
        fenced_call (lies_in root r.path && lies_in root (user_root_abs mount_root r.actor))
          (c.delete_path r);
    move_path =
        λ r. fenced_call (lies_in root r.src_path && lies_in root r.dest_path) (c.move_path r);
    copy_path =
        λ r. fenced_call (lies_in root r.src_path && lies_in root r.dest_path) (c.copy_path r);
    rename_path = λ r.
        fenced_call
          (lies_in root r.path && (not strict || lies_in root (renamed_place r.path r.new_name)))
          (c.rename_path r);
    list_files = λ r. fenced_call (lies_in root r.path) (c.list_files r);
    validate_path = λ r. fenced_call (lies_in root r.parent_path) (c.validate_path r);
    get_folder_node_path = λ r. fenced_call (lies_in root r.path) (c.get_folder_node_path r);
    list_recycle_bin =
        λ a. fenced_call (lies_in root (user_root_abs mount_root a)) (c.list_recycle_bin a);
    restore_path = λ r.
        fenced_call
          (lies_in root r.trash_path
            && (lies_in root (user_root_abs mount_root r.actor)
                && target_stays root r.target_parent))
          (c.restore_path r);
    empty_recycle_bin =
        λ a. fenced_call (lies_in root (user_root_abs mount_root a)) (c.empty_recycle_bin a);
    get_file_info = λ p. fenced_call (lies_in root p) (c.get_file_info p);
    read_file = λ r. fenced_call (lies_in root r.path) (c.read_file r);
    write_file = λ r. fenced_call (lies_in root r.path) (c.write_file r);
  }

abbrev pub guarded : {W : Type 0} → Bool → RequestContext → Service W → Service W
guarded strict ctx s = record s {
  fs_client = fence strict s.mount_root (user_root_abs s.mount_root (normalize ctx)) s.fs_client;
}

-- The service over the client that looks at the paths of requests, and over the strict one.
abbrev pub fenced : {W : Type 0} → RequestContext → Service W → Service W
fenced ctx s = guarded false ctx s

abbrev pub closed : {W : Type 0} → RequestContext → Service W → Service W
closed ctx s = guarded true ctx s
