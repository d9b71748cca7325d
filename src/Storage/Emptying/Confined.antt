-- ===== src/Storage/Emptying/Confined.antt =====
-- EmptyRecycleBin removes nothing outside of the user's trash.
use workspace_service.Base.{
  true, Bool-cases, inl, inr, ◌≡◌, refl, sym, ap, ◌∙◌, Option, none, some, List, [], ◌∷◌, ◌++◌,
  Text, codes, text_eq, contains, contains-append, all, all-append, append_assoc, arith,
}
use workspace_service.Errors.{Result, ok, err}
use workspace_service.FileInfo.{Actor}
use workspace_service.FilePath.{separator, join, join_elements}
use workspace_service.FilePath.Elements.{is_plain}
use workspace_service.FsService.Operations.Fence.{lies_in}
use workspace_service.Identity.Isolation.{IsPlainContext}
use workspace_service.Storage.{
  WorkspaceFsClient, trash_dir_name, user_trash_dir_abs, user_trash_meta_dir_abs, trash_meta_path,
}
use workspace_service.Storage.Emptying.{
  entries_emptied, entry_emptied, bin_emptied, empty_recycle_bin,
}
use workspace_service.Storage.Places.{
  absolute, absolute-append, join-absolute, root_elements, root_elements_plain, user_root_of-eq,
}
use workspace_service.Storage.Emptying.Cage.{
  caged, caged_client, lies_in-below, remove_all-caged, delete_path-caged, entry_emptied-caged,
}

json_plain : (name : Text) → is_plain name ≡ true → is_plain (name ++ codes ".json") ≡ true
unfolding is_plain text_eq contains
json_plain [] h = absurd (ground arith)
json_plain (d ∷ []) h = ground arith
json_plain (d ∷ e ∷ []) h = ground arith
json_plain (d ∷ e ∷ f ∷ s) h = ground (arith, contains-append separator s (codes ".json"))

join_name :
    (d : Text) (ds : List Text) (name : Text)
    → all is_plain (d ∷ ds) ≡ true
    → is_plain name ≡ true
    → join (absolute (d ∷ ds) ∷ name ∷ []) ≡ absolute (d ∷ ds) ++ (separator ∷ name)
unfolding join_elements
join_name d ds name h k = join-absolute d ds name [] h (ground arith)

-- A file that is joined to a directory in the cage is in the cage.
join_names :
    (d : Text) (ds : List Text) (p q : Text)
    → all is_plain (d ∷ ds) ≡ true
    → is_plain p ≡ true
    → is_plain q ≡ true
    → join (join (absolute (d ∷ ds) ∷ p ∷ []) ∷ q ∷ [])
      ≡ absolute (d ∷ ds) ++ (separator ∷ (p ++ (separator ∷ q)))
unfolding join_elements
join_names d ds p q h k l =
    ap (λ s. join (s ∷ q ∷ []))
      (join-absolute d ds p [] h (ground arith) ∙ absolute-append d ds p [])
    ∙ join_name d (ds ++ (p ∷ [])) q (ground (arith, all-append is_plain (d ∷ ds) (p ∷ []))) l
    ∙ ap (λ s. s ++ (separator ∷ q)) (sym (absolute-append d ds p []))
    ∙ append_assoc (absolute (d ∷ ds)) (separator ∷ p) (separator ∷ q)

meta_path-eq :
    {W : Type 0} (c : WorkspaceFsClient W) (actor : Actor) (name : Text)
    → trash_meta_path c actor name
      ≡ join (join (user_trash_dir_abs c actor ∷ codes "_meta" ∷ []) ∷ (name ++ codes ".json") ∷ [])
unfolding trash_meta_path user_trash_meta_dir_abs
meta_path-eq c actor name = refl

module _ {W : Type 0} (c : WorkspaceFsClient W) (m : Text) (ms : List Text) (actor : Actor) where
  abbrev trash_elements : List Text
  trash_elements = root_elements c m ms actor ++ (trash_dir_name ∷ [])

  trash_plain : is_plain trash_dir_name ≡ true
  unfolding is_plain text_eq contains
  trash_plain = refl

  user_trash_dir_abs-eq :
      c.mount_root ≡ absolute (m ∷ ms)
      → all is_plain (m ∷ ms) ≡ true
      → IsPlainContext actor
      → user_trash_dir_abs c actor ≡ absolute (m ∷ trash_elements)
  unfolding user_trash_dir_abs
  user_trash_dir_abs-eq e h plain = rw (user_root_of-eq c m ms actor e h plain) (
      join-absolute m (root_elements c m ms actor) trash_dir_name []
        (root_elements_plain c m ms actor h plain) (ground (arith, trash_plain))
      ∙ absolute-append m (root_elements c m ms actor) trash_dir_name [])

  -- The mount root is an absolute path of plain elements, and so are the identifiers of the actor.
  abbrev pub IsHere : Type 0
  IsHere =
      (c.mount_root ≡ absolute (m ∷ ms)) × (all is_plain (m ∷ ms) ≡ true) × IsPlainContext actor

  trash_elements_plain : IsHere → all is_plain (m ∷ trash_elements) ≡ true
  trash_elements_plain (e, h, plain) = ground (
    arith,
    all-append is_plain (m ∷ root_elements c m ms actor) (trash_dir_name ∷ []),
    root_elements_plain c m ms actor h plain,
    trash_plain,
  )

  entry_inside :
      (name : Text)
      → IsHere
      → is_plain name ≡ true
      → lies_in (user_trash_dir_abs c actor) (join (user_trash_dir_abs c actor ∷ name ∷ [])) ≡ true
  entry_inside name (e, h, plain) k =
      rw
        (
          user_trash_dir_abs-eq e h plain,
          join_name m trash_elements name (trash_elements_plain (e, h, plain)) k,
        )
        (lies_in-below (absolute (m ∷ trash_elements)) name)

  meta_dir_name : is_plain (codes "_meta") ≡ true
  unfolding is_plain text_eq contains
  meta_dir_name = refl

  meta_inside :
      (name : Text)
      → IsHere
      → is_plain name ≡ true
      → lies_in (user_trash_dir_abs c actor) (trash_meta_path c actor name) ≡ true
  meta_inside name (e, h, plain) k =
      rw
        (
          meta_path-eq c actor name,
          user_trash_dir_abs-eq e h plain,
          join_names m trash_elements (codes "_meta") (name ++ codes ".json")
              (trash_elements_plain (e, h, plain)) meta_dir_name (json_plain name k),
        )
        (lies_in-below (absolute (m ∷ trash_elements))
          (codes "_meta" ++ (separator ∷ (name ++ codes ".json"))))

  meta_dir_inside :
      IsHere → lies_in (user_trash_dir_abs c actor) (user_trash_meta_dir_abs c actor) ≡ true
  unfolding user_trash_meta_dir_abs
  meta_dir_inside here = entry_inside (codes "_meta") here meta_dir_name

  entries_emptied-caged :
      (names : List Text) (w : W)
      → IsHere
      → all is_plain names ≡ true
      → entries_emptied (caged_client (user_trash_dir_abs c actor) c) actor names w
        ≡ entries_emptied c actor names w
  unfolding entries_emptied
  entries_emptied-caged [] w here h =
      ap (λ o. (ok tt, o.1))
        (remove_all-caged c (user_trash_dir_abs c actor) (user_trash_meta_dir_abs c actor) w
          (meta_dir_inside here))
  entries_emptied-caged (name ∷ names) w here h = elim (Bool-cases (text_eq name (codes "_meta"))) [
    | inl meta ↦ rw (entries_emptied, meta) (entries_emptied-caged names w here (ground arith))
    | inr entry ↦
        rw (entries_emptied, entry)
          (ap
              (λ r.
                entry_emptied (caged_client (user_trash_dir_abs c actor) c) actor name r
                  (entries_emptied (caged_client (user_trash_dir_abs c actor) c) actor names))
              (delete_path-caged c (user_trash_dir_abs c actor) actor
                (join (user_trash_dir_abs c actor ∷ name ∷ [])) w
                (entry_inside name here (ground arith)))
            ∙ entry_emptied-caged c (user_trash_dir_abs c actor) actor name _ _ _
                (meta_inside name here (ground arith))
                (λ v. entries_emptied-caged names v here (ground arith)))
  ]

  bin_emptied-caged :
      (r : Result (Option (List Text))) (w : W)
      → IsHere
      → ((names : List Text) → r ≡ ok (some names) → all is_plain names ≡ true)
      → bin_emptied (caged_client (user_trash_dir_abs c actor) c) actor r w
        ≡ bin_emptied c actor r w
  unfolding bin_emptied
  bin_emptied-caged (ok none) w here h = refl
  bin_emptied-caged (err e) w here h = refl
  bin_emptied-caged (ok (some names)) w here h = entries_emptied-caged names w here (h names refl)

  -- When the mount root is an absolute path of plain elements, app id, workspace id and uin of
  -- the actor are plain directory names, and the names that the system lists in the trash are
  -- plain, EmptyRecycleBin answers the same and leaves the same state over the files of the
  -- system and over files that refuse every removal outside of the trash of the actor and every
  -- other change.
  pub empty_recycle_bin-caged :
      (w : W)
      → c.mount_root ≡ absolute (m ∷ ms)
      → all is_plain (m ∷ ms) ≡ true
      → IsPlainContext actor
      → ((names : List Text)
          → c.os.read_dir (user_trash_dir_abs c actor) w ≡ ok (some names)
          → all is_plain names ≡ true)
      → empty_recycle_bin (caged_client (user_trash_dir_abs c actor) c) actor w
        ≡ empty_recycle_bin c actor w
  unfolding empty_recycle_bin caged
  empty_recycle_bin-caged w e h plain named =
      bin_emptied-caged (c.os.read_dir (user_trash_dir_abs c actor) w) w (e, h, plain) named
