-- ===== src/Storage/Parents.antt =====
-- Directories below one another, and filepath.Dir of them.
use mathlib.Core.List.{reverse, reverse-cons, reverse-append, reverse-reverse}
use workspace_service.Base.{
  ℕ, true, false, ◌≡◌, refl, sym, ap, ◌∙◌, List, [], ◌∷◌, ◌++◌, Text, text_eq, contains,
  contains-append, all, all-append, append_assoc, append-nil, arith, has_prefix, length,
  length-append, ◌<◌, ◌≤◌, ◌+◌,
}
use workspace_service.FilePath.{
  separator, join_elements, dir, drop_element, clean, clean_from, elements, path_of, is_abs, split,
}
use workspace_service.FilePath.Elements.{is_plain, split-append}
use workspace_service.FilePath.Cleaning.{clean_from-append}
use workspace_service.FilePath.Plain.{has_prefix_rest}
use workspace_service.FsService.Operations.Fence.{has_prefix-append}
use workspace_service.Storage.Places.{absolute, absolute-append, elements-absolute, clean-absolute}

drop_element-append :
    (q s : Text)
    → contains separator q ≡ false
    → drop_element (q ++ (separator ∷ s)) ≡ separator ∷ s
unfolding drop_element contains
drop_element-append [] s h = refl
drop_element-append (c ∷ q) s h = ground (arith, drop_element-append q s)

contains-reverse : (x : ℕ) (s : Text) → contains x s ≡ false → contains x (reverse s) ≡ false
unfolding contains
contains-reverse x [] h = refl
contains-reverse x (c ∷ s) h =
    rw (reverse-cons c s)
      (contains-append x (reverse s) (c ∷ []) (contains-reverse x s (ground arith)) (ground arith))

drop_last_element :
    (s q : Text)
    → contains separator q ≡ false
    → reverse (drop_element (reverse (s ++ (separator ∷ q)))) ≡ s ++ (separator ∷ [])
drop_last_element s q h =
    ap (λ t. reverse (drop_element t))
      (reverse-append s (separator ∷ q)
        ∙ ap (λ t. t ++ reverse s) (reverse-cons separator q)
        ∙ append_assoc (reverse q) (separator ∷ []) (reverse s))
    ∙ ap reverse (drop_element-append (reverse q) (reverse s) (contains-reverse separator q h))
    ∙ reverse-cons separator (reverse s)
    ∙ ap (λ t. t ++ (separator ∷ [])) (reverse-reverse s)

elements-slash :
    (s : Text)
    → is_abs (s ++ (separator ∷ [])) ≡ is_abs s
    → elements (s ++ (separator ∷ [])) ≡ elements s
unfolding elements split clean_from
elements-slash s h =
    rw (h, split-append s [], clean_from-append (is_abs s) [] (split s) ([] ∷ [])) refl

clean-slash :
    (d : Text) (ds : List Text)
    → all is_plain (d ∷ ds) ≡ true
    → clean (absolute (d ∷ ds) ++ (separator ∷ [])) ≡ absolute (d ∷ ds)
unfolding clean path_of is_abs
clean-slash d ds h =
    ap (λ es. separator ∷ join_elements es)
      (elements-slash (absolute (d ∷ ds)) refl ∙ elements-absolute d ds h)

has_no_slash : (q : Text) → is_plain q ≡ true → contains separator q ≡ false
unfolding is_plain
has_no_slash q h = ground arith

-- The directory that an element is written behind.
pub dir-absolute :
    (d : Text) (ds : List Text) (q : Text)
    → all is_plain (d ∷ ds) ≡ true
    → is_plain q ≡ true
    → dir (absolute (d ∷ ds) ++ (separator ∷ q)) ≡ absolute (d ∷ ds)
unfolding dir
dir-absolute d ds q h k =
    ap clean (drop_last_element (absolute (d ∷ ds)) q (has_no_slash q k)) ∙ clean-slash d ds h

-- The path of a directory below a root, with its names from the last one up.
unfoldable pub place : Text → List Text → Text
place root [] = root
place root (q ∷ rs) = place root rs ++ (separator ∷ q)

-- The directories from the root down to a place below it.
unfoldable pub ancestors : Text → List Text → List Text
unfolding place
ancestors root [] = root ∷ []
ancestors root (q ∷ rs) = ancestors root rs ++ (place root (q ∷ rs) ∷ [])

place_elements : List Text → List Text → List Text
place_elements ds [] = ds
place_elements ds (q ∷ rs) = place_elements ds rs ++ (q ∷ [])

place_elements_plain :
    (ds rs : List Text)
    → all is_plain ds ≡ true
    → all is_plain rs ≡ true
    → all is_plain (place_elements ds rs) ≡ true
unfolding place_elements
place_elements_plain ds [] h k = h
place_elements_plain ds (q ∷ rs) h k =
    ground
      (arith, all-append is_plain (place_elements ds rs) (q ∷ []), place_elements_plain ds rs h)

place-absolute :
    (d : Text) (ds rs : List Text)
    → place (absolute (d ∷ ds)) rs ≡ absolute (d ∷ place_elements ds rs)
unfolding place place_elements join_elements
place-absolute d ds [] = refl
place-absolute d ds (q ∷ rs) =
    ap (λ s. s ++ (separator ∷ q)) (place-absolute d ds rs)
    ∙ absolute-append d (place_elements ds rs) q []

module _ (d : Text) (ds : List Text) (h : all is_plain (d ∷ ds) ≡ true) where
  pub clean-place :
      (rs : List Text)
      → all is_plain rs ≡ true
      → clean (place (absolute (d ∷ ds)) rs) ≡ place (absolute (d ∷ ds)) rs
  clean-place rs k =
      ap clean (place-absolute d ds rs)
      ∙ clean-absolute d (place_elements ds rs) (ground (arith, place_elements_plain ds rs))
      ∙ sym (place-absolute d ds rs)

  pub dir-place :
      (q : Text) (rs : List Text)
      → all is_plain (q ∷ rs) ≡ true
      → dir (place (absolute (d ∷ ds)) (q ∷ rs)) ≡ place (absolute (d ∷ ds)) rs
  unfolding place
  dir-place q rs k =
      ap (λ s. dir (s ++ (separator ∷ q))) (place-absolute d ds rs)
      ∙ dir-absolute d (place_elements ds rs) q (ground (arith, place_elements_plain ds rs))
          (ground arith)
      ∙ sym (place-absolute d ds rs)

pub length-place : (root : Text) (rs : List Text) → length root + length rs ≤ length (place root rs)
unfolding place
length-place root [] = omega arith
length-place root (q ∷ rs) =
    omega (arith, length-place root rs, length-append (place root rs) (separator ∷ q))

pub has_prefix-place : (root : Text) (rs : List Text) → has_prefix root (place root rs) ≡ true
unfolding place
has_prefix-place root [] = ap (has_prefix root) (sym (append-nil root)) ∙ has_prefix-append root []
has_prefix-place root (q ∷ rs) =
    let (t, e) = has_prefix_rest root (place root rs) (has_prefix-place root rs) in
    ap (λ s. has_prefix root (s ++ (separator ∷ q))) e
    ∙ ap (has_prefix root) (append_assoc root t (separator ∷ q))
    ∙ has_prefix-append root (t ++ (separator ∷ q))

-- Texts of different lengths differ.
text_eq_lengths : (s t : Text) → length s < length t → (text_eq s t ≡ false) × (text_eq t s ≡ false)
unfolding text_eq
text_eq_lengths [] [] h = absurd (omega arith)
text_eq_lengths [] (d ∷ t) h = (refl, refl)
text_eq_lengths (c ∷ s) [] h = absurd (omega arith)
text_eq_lengths (c ∷ s) (d ∷ t) h = ground (arith, text_eq_lengths s t (omega arith))

pub text_eq-place :
    (root q : Text) (rs : List Text)
    → (text_eq (place root (q ∷ rs)) root ≡ false)
      × (text_eq (place root rs) (place root (q ∷ rs)) ≡ false)
unfolding place
text_eq-place root q rs = (
  (text_eq_lengths root (place root (q ∷ rs)) (omega (arith, length-place root (q ∷ rs)))).1,
  (text_eq_lengths (place root rs) (place root (q ∷ rs))
      (omega (arith, length-append (place root rs) (separator ∷ q)))).0,
)
