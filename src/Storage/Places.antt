-- ===== src/Storage/Places.antt =====
-- A path that is put into the trash goes back to where it was.
use workspace_service.Base.{
  ℕ, ◌≡◌, ◌≢◌, refl, sym, ap, ◌∙◌, true, false, List, [], ◌∷◌, ◌++◌, Text, text_eq, all, arith,
  all-append, codes,
}
use workspace_service.Errors.{ok}
use workspace_service.FileInfo.{Actor}
use workspace_service.FilePath.{
  separator, join, join_elements, clean, elements, is_abs, path_of, split,
}
use workspace_service.FilePath.Elements.{is_plain, split-join_elements}
use workspace_service.FilePath.Cleaning.{clean_from_plain}
use workspace_service.FilePath.Plain.{join_root, join_elements-append}
use workspace_service.FsService.Operations.Fence.{has_prefix-below}
use workspace_service.Identity.{users}
use workspace_service.Identity.Isolation.{
  IsPlainContext, prefix_elements, prefix_elements_plain, user_path_prefix-eq,
}
use workspace_service.Storage.{WorkspaceFsClient, user_root_of, user_rel_path, drop}
use workspace_service.Storage.Trash.{restored_place}

-- An absolute path of plain elements.
abbrev pub absolute : List Text → Text
absolute es = separator ∷ join_elements es

pub elements-absolute :
    (p : Text) (ps : List Text)
    → all is_plain (p ∷ ps) ≡ true
    → elements (absolute (p ∷ ps)) ≡ p ∷ ps
unfolding elements split is_abs
elements-absolute p ps h =
    rw (split-join_elements p ps h) (clean_from_plain (is_abs (absolute (p ∷ ps))) [] (p ∷ ps) h)

pub clean-absolute :
    (p : Text) (ps : List Text)
    → all is_plain (p ∷ ps) ≡ true
    → clean (absolute (p ∷ ps)) ≡ absolute (p ∷ ps)
unfolding clean path_of is_abs
clean-absolute p ps h = ap (λ es. separator ∷ join_elements es) (elements-absolute p ps h)

pub absolute-ne-nil : (es : List Text) → absolute es ≢ []
absolute-ne-nil es e = ground (arith, e)

pub text_eq-longer : (r x : Text) → text_eq (r ++ (separator ∷ x)) r ≡ false
unfolding text_eq
text_eq-longer [] x = refl
text_eq-longer (c ∷ r) x = ground (arith, text_eq-longer r x)

drop-below : (r x : Text) → drop (r ++ (separator ∷ [])) (r ++ (separator ∷ x)) ≡ x
drop-below [] x = refl
drop-below (c ∷ r) x = drop-below r x

pub absolute-append :
    (d : Text) (ds : List Text) (p : Text) (ps : List Text)
    → absolute (d ∷ ds) ++ (separator ∷ join_elements (p ∷ ps)) ≡ absolute ((d ∷ ds) ++ (p ∷ ps))
absolute-append d ds p ps = ap (λ s. separator ∷ s) (sym (join_elements-append d ds p ps))

-- Joining plain elements to an absolute path of such elements writes them behind it.
pub join-absolute :
    (d : Text) (ds : List Text) (p : Text) (ps : List Text)
    → all is_plain (d ∷ ds) ≡ true
    → all is_plain (p ∷ ps) ≡ true
    → join (absolute (d ∷ ds) ∷ join_elements (p ∷ ps) ∷ [])
      ≡ absolute (d ∷ ds) ++ (separator ∷ join_elements (p ∷ ps))
unfolding path_of is_abs
join-absolute d ds p ps h k =
    join_root (absolute (d ∷ ds)) p ps (absolute-ne-nil (d ∷ ds)) k
    ∙ ap (λ es. path_of true (es ++ (p ∷ ps))) (elements-absolute d ds h)
    ∙ sym (absolute-append d ds p ps)

module _ {W : Type 0} (c : WorkspaceFsClient W) (m : Text) (ms : List Text) (actor : Actor) where
  -- The elements of the directory of the user.
  abbrev pub root_elements : List Text
  root_elements = ms ++ prefix_elements actor

  pub user_root_of-eq :
      c.mount_root ≡ absolute (m ∷ ms)
      → all is_plain (m ∷ ms) ≡ true
      → IsPlainContext actor
      → user_root_of c actor ≡ absolute (m ∷ root_elements)
  unfolding user_root_of path_of is_abs
  user_root_of-eq e h plain =
      rw (e, user_path_prefix-eq actor plain)
        (join_root (absolute (m ∷ ms)) actor.app_id (actor.workspace_id ∷ users ∷ actor.uin ∷ [])
            (absolute-ne-nil (m ∷ ms)) (prefix_elements_plain actor plain)
          ∙ ap (λ es. path_of true (es ++ prefix_elements actor)) (elements-absolute m ms h))

  user_rel_path-below :
      (root x : Text)
      → user_root_of c actor ≡ root
      → clean (root ++ (separator ∷ x)) ≡ root ++ (separator ∷ x)
      → user_rel_path c actor (root ++ (separator ∷ x)) ≡ ok x
  unfolding user_rel_path
  user_rel_path-below root x e cleaned =
      rw (e, cleaned, text_eq-longer root x, has_prefix-below root x, drop-below root x) refl

  pub root_elements_plain :
      all is_plain (m ∷ ms) ≡ true → IsPlainContext actor → all is_plain (m ∷ root_elements) ≡ true
  root_elements_plain h plain =
      ground
        (arith, all-append is_plain ms (prefix_elements actor), prefix_elements_plain actor plain)

  below_plain :
      (p : Text) (ps : List Text)
      → all is_plain (m ∷ ms) ≡ true
      → IsPlainContext actor
      → all is_plain (p ∷ ps) ≡ true
      → all is_plain ((m ∷ root_elements) ++ (p ∷ ps)) ≡ true
  below_plain p ps h plain k =
      ground (arith, all-append is_plain (m ∷ root_elements) (p ∷ ps), root_elements_plain h plain)

  clean-below :
      (p : Text) (ps : List Text)
      → all is_plain (m ∷ ms) ≡ true
      → IsPlainContext actor
      → all is_plain (p ∷ ps) ≡ true
      → clean (absolute (m ∷ root_elements) ++ (separator ∷ join_elements (p ∷ ps)))
        ≡ absolute (m ∷ root_elements) ++ (separator ∷ join_elements (p ∷ ps))
  clean-below p ps h plain k =
      ap clean (absolute-append m root_elements p ps)
      ∙ clean-absolute m (root_elements ++ (p ∷ ps)) (below_plain p ps h plain k)
      ∙ sym (absolute-append m root_elements p ps)

  -- When the mount root is an absolute path of plain elements and app id, workspace id and uin of
  -- the actor are plain directory names, a path of plain elements below the directory of the user
  -- is written into the meta data of the trash as these elements, and RestorePath without a
  -- target parent takes meta data that say so to the very path.
  pub restored_place-user_rel_path :
      (p : Text) (ps : List Text) (deleted_at : ℕ)
      → c.mount_root ≡ absolute (m ∷ ms)
      → all is_plain (m ∷ ms) ≡ true
      → IsPlainContext actor
      → all is_plain (p ∷ ps) ≡ true
      → (user_rel_path c actor (user_root_of c actor ++ (separator ∷ join_elements (p ∷ ps)))
          ≡ ok (join_elements (p ∷ ps)))
        × (join (
              user_root_of c actor
              ∷ restored_place
                  (codes "")
                  (record { original_path = join_elements (p ∷ ps); deleted_at = deleted_at })
              ∷ [])
            ≡ user_root_of c actor ++ (separator ∷ join_elements (p ∷ ps)))
  unfolding restored_place
  restored_place-user_rel_path p ps deleted_at e h plain k =
      let root : user_root_of c actor ≡ absolute (m ∷ root_elements) = user_root_of-eq e h plain in
      rw root (
        user_rel_path-below (absolute (m ∷ root_elements)) (join_elements (p ∷ ps)) root
            (clean-below p ps h plain k),
        join-absolute m root_elements p ps (root_elements_plain h plain) k,
      )
