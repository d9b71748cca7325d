-- ===== src/FilePath.antt =====
-- Package path/filepath of Go on Unix, as far as the program calls it: a path is split at its
-- slashes, and Clean is a fold of its elements into a list.
pub mod Elements
pub mod Cleaning
pub mod Plain
mod Tests
use workspace_service.Base.{
  ℕ, suc, ◌+◌, ◌≡◌, Bool, true, false, not, ◌&&◌, ◌||◌, Option, none, some, List, [], ◌∷◌, ◌++◌,
  Text, codes, text_eq, is_empty, if◌then◌else◌, ◌==◌, length,
}
use mathlib.Core.List.{reverse}

-- filepath.Separator
abbrev pub separator : ℕ
separator = b'/'

abbrev pub dot : Text
dot = b'.' ∷ []

abbrev pub dot_dot : Text
dot_dot = b'.' ∷ b'.' ∷ []

-- filepath.IsAbs
unfoldable pub is_abs : Text → Bool
is_abs [] = false
is_abs (c ∷ s) = c == separator

prepend : ℕ → List Text → List Text
prepend c [] = (c ∷ []) ∷ []
prepend c (p ∷ ps) = (c ∷ p) ∷ ps

-- strings.Split(path, "/")
unfoldable pub split : Text → List Text
unfolding prepend
split [] = [] ∷ []
split (c ∷ s) = let rest = split s in if c == separator then [] ∷ rest else prepend c rest

-- strings.Join(elems, "/")
unfoldable pub join_elements : List Text → Text
join_elements [] = []
join_elements (p ∷ []) = p
join_elements (p ∷ q ∷ ps) = p ++ (separator ∷ join_elements (q ∷ ps))

unfoldable pub drop_last : List Text → List Text
drop_last [] = []
drop_last (p ∷ []) = []
drop_last (p ∷ q ∷ ps) = p ∷ drop_last (q ∷ ps)

-- The last element can be taken back by "..".
unfoldable pub can_backtrack : List Text → Bool
can_backtrack [] = false
can_backtrack (p ∷ []) = not (text_eq p dot_dot)
can_backtrack (p ∷ q ∷ ps) = can_backtrack (q ∷ ps)

backtrack : Bool → List Text → List Text
unfolding drop_last can_backtrack
backtrack rooted es =
    if can_backtrack es then drop_last es else if rooted then es else es ++ (dot_dot ∷ [])

-- One round of the loop of Clean.
clean_step : Bool → List Text → Text → List Text
unfolding backtrack
clean_step rooted es p =
    if is_empty p || text_eq p dot
    then es
    else if text_eq p dot_dot
    then backtrack rooted es
    else es ++ (p ∷ [])

unfoldable pub clean_from : Bool → List Text → List Text → List Text
unfolding clean_step
clean_from rooted es [] = es
clean_from rooted es (p ∷ ps) = clean_from rooted (clean_step rooted es p) ps

-- The path with the given elements.
unfoldable pub path_of : Bool → List Text → Text
unfolding join_elements
path_of true es = separator ∷ join_elements es
path_of false [] = dot
path_of false (p ∷ ps) = join_elements (p ∷ ps)

-- The elements of the cleaned path.
unfoldable pub elements : Text → List Text
unfolding clean_from split is_abs text_eq
elements s = clean_from (is_abs s) [] (split s)

-- filepath.Clean
unfoldable pub clean : Text → Text
unfolding elements path_of
clean [] = dot
clean (c ∷ s) = path_of (is_abs (c ∷ s)) (elements (c ∷ s))

-- filepath.Join: empty elements in front are skipped.
unfoldable pub join : List Text → Text
unfolding clean join_elements
join [] = []
join ([] ∷ es) = join es
join ((c ∷ s) ∷ es) = clean (join_elements ((c ∷ s) ∷ es))

drop_slashes : Text → Text
drop_slashes [] = []
drop_slashes (c ∷ s) = let rest = drop_slashes s in if c == separator then rest else c ∷ s

take_element : Text → Text
take_element [] = []
take_element (c ∷ s) = let rest = take_element s in if c == separator then [] else c ∷ rest

unfoldable pub drop_element : Text → Text
drop_element [] = []
drop_element (c ∷ s) = let rest = drop_element s in if c == separator then c ∷ s else rest

base_of : Text → Text
base_of [] = separator ∷ []
base_of (c ∷ s) = c ∷ s

-- filepath.Base
unfoldable pub base : Text → Text
unfolding drop_slashes take_element base_of
base [] = dot
base (c ∷ s) = base_of (reverse (take_element (drop_slashes (reverse (c ∷ s)))))

-- filepath.Dir: what stands up to the last slash, cleaned.
unfoldable pub dir : Text → Text
unfolding drop_element clean
dir s = clean (reverse (drop_element (reverse s)))

ups : List Text → List Text
ups [] = []
ups (p ∷ ps) = dot_dot ∷ ups ps

-- What is left of base and target behind the elements that they share.
unfoldable pub rel_from : List Text → List Text → Option (List Text)
unfolding ups text_eq
rel_from [] ts = some ts
rel_from (b ∷ bs) [] = if text_eq b dot_dot then none else some (dot_dot ∷ ups bs)
rel_from (b ∷ bs) (t ∷ ts) =
    let rest = rel_from bs ts in
    if text_eq b t
    then rest
    else if text_eq b dot_dot
    then none
    else some (dot_dot ∷ (ups bs ++ (t ∷ ts)))

-- filepath.Rel; `none` is its error
unfoldable pub rel : Text → Text → Option Text
unfolding rel_from path_of elements is_abs
rel base_path target =
    if (not (is_abs base_path) && is_abs target) || (is_abs base_path && not (is_abs target))
    then none
    else elim (rel_from (elements base_path) (elements target)) [
      | none ↦ none
      | some es ↦ some (path_of false es)
    ]
