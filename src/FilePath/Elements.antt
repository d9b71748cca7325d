-- ===== src/FilePath/Elements.antt =====
-- Splitting and joining paths, and the elements that cleaning lets through.
use workspace_service.Base.{
  ℕ, ◌≡◌, ◌≢◌, refl, Bool, true, false, not, ◌&&◌, List, [], ◌∷◌, ◌++◌, Text, text_eq, is_empty,
  if◌then◌else◌, ◌==◌, arith, contains, all,
}
use workspace_service.FilePath.{separator, dot, dot_dot, split, join_elements, prepend}

-- An element that names a file: not "", "." or "..", and with no slash.
unfoldable pub is_plain : Text → Bool
is_plain p =
    not (is_empty p) && not (text_eq p dot) && not (text_eq p dot_dot) && not (contains separator p)

split-ne-nil : (s : Text) → split s ≢ []
unfolding split
split-ne-nil [] = ground arith
split-ne-nil (c ∷ s) = split_head (split s)
  where
    split_head : (ps : List Text) → (if c == separator then [] ∷ ps else prepend c ps) ≢ []
    split_head [] = ground arith
    split_head (p ∷ ps) = ground arith

prepend-append : (c : ℕ) (ps qs : List Text) → ps ≢ [] → prepend c (ps ++ qs) ≡ prepend c ps ++ qs
unfolding prepend
prepend-append c [] qs h = absurd (h refl)
prepend-append c (p ∷ ps) qs h = refl

pub split-append : (s t : Text) → split (s ++ (separator ∷ t)) ≡ split s ++ split t
unfolding split
split-append [] t = refl
split-append (c ∷ s) t =
    ground (arith, split-append s t, prepend-append c (split s) (split t) (split-ne-nil s))

pub split-no_slash : (p : Text) → contains separator p ≡ false → split p ≡ p ∷ []
unfolding split contains
split-no_slash [] h = refl
split-no_slash (c ∷ p) h = ground (arith, split-no_slash p)

pub split-join_elements :
    (p : Text) (ps : List Text)
    → all is_plain (p ∷ ps) ≡ true
    → split (join_elements (p ∷ ps)) ≡ p ∷ ps
unfolding join_elements is_plain
split-join_elements p [] h = ground (arith, split-no_slash p)
split-join_elements p (q ∷ ps) h =
    ground
      (arith, split-append p (join_elements (q ∷ ps)), split-no_slash p, split-join_elements q ps)
