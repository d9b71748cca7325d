-- ===== src/FilePath/Plain.antt =====
-- Paths that are joined from plain elements: they are clean, and joining them appends the elements.
use mathlib.Core.Path.{ap₂}
use workspace_service.Base.{
  ℕ, ◌≡◌, ◌≢◌, refl, ap, sym, ◌∙◌, Bool, true, false, List, [], ◌∷◌, ◌++◌, Text, ◌==◌, arith,
  contains, all, append_assoc, has_prefix, all-append,
}
use workspace_service.FilePath.{
  separator, split, join_elements, is_abs, clean_from, elements, clean, path_of, join,
}
use workspace_service.FilePath.Elements.{is_plain, split-join_elements, split-append}
use workspace_service.FilePath.Cleaning.{clean_from_plain, clean-eq-path_of, clean_from-append}

pub join_elements-append :
    (p : Text) (ps : List Text) (q : Text) (qs : List Text)
    → join_elements ((p ∷ ps) ++ (q ∷ qs))
      ≡ join_elements (p ∷ ps) ++ (separator ∷ join_elements (q ∷ qs))
unfolding join_elements
join_elements-append p [] q qs = refl
join_elements-append p (r ∷ ps) q qs =
    rw (join_elements-append r ps q qs) (
      sym
        (append_assoc p (separator ∷ join_elements (r ∷ ps)) (separator ∷ join_elements (q ∷ qs))))

-- A plain element has a first character, which is no slash.
plain_head :
    (p : Text) → is_plain p ≡ true → (c : ℕ) × (s : Text) × (p ≡ c ∷ s) × ((c == separator) ≡ false)
unfolding is_plain contains
plain_head [] h = absurd (ground arith)
plain_head (c ∷ s) h = (c, s, refl, ground arith)

join_elements_head :
    (c : ℕ) (s : Text) (ps : List Text) → (t : Text) × (join_elements ((c ∷ s) ∷ ps) ≡ c ∷ t)
unfolding join_elements
join_elements_head c s [] = (s, refl)
join_elements_head c s (q ∷ ps) = (s ++ (separator ∷ join_elements (q ∷ ps)), refl)

pub join_elements_relative :
    (p : Text) (ps : List Text)
    → is_plain p ≡ true
    → (is_abs (join_elements (p ∷ ps)) ≡ false) × (join_elements (p ∷ ps) ≢ [])
unfolding is_abs
join_elements_relative p ps h = relative (plain_head p h)
  where
    relative :
        ((c : ℕ) × (s : Text) × (p ≡ c ∷ s) × ((c == separator) ≡ false))
        → (is_abs (join_elements (p ∷ ps)) ≡ false) × (join_elements (p ∷ ps) ≢ [])
    relative (c, s, e, n) =
        let (t, j) = join_elements_head c s ps in
        let j' : join_elements (p ∷ ps) ≡ c ∷ t = ap (λ x. join_elements (x ∷ ps)) e ∙ j in
        (ap is_abs j' ∙ n, λ z. cc (j', z))

pub elements-join_elements :
    (p : Text) (ps : List Text)
    → all is_plain (p ∷ ps) ≡ true
    → elements (join_elements (p ∷ ps)) ≡ p ∷ ps
unfolding elements
elements-join_elements p ps h =
    rw (split-join_elements p ps h)
      (clean_from_plain (is_abs (join_elements (p ∷ ps))) [] (p ∷ ps) h)

-- Cleaning a path of plain elements changes nothing.
pub clean-join_elements :
    (p : Text) (ps : List Text)
    → all is_plain (p ∷ ps) ≡ true
    → clean (join_elements (p ∷ ps)) ≡ join_elements (p ∷ ps)
unfolding path_of
clean-join_elements p ps h =
    let (rel, ne) = join_elements_relative p ps (ground arith) in
    clean-eq-path_of (join_elements (p ∷ ps)) ne
    ∙ rw (rel, elements-join_elements p ps h, path_of) refl

pub join-eq-clean :
    (s : Text) (es : List Text) → s ≢ [] → join (s ∷ es) ≡ clean (join_elements (s ∷ es))
unfolding join
join-eq-clean [] es h = absurd (h refl)
join-eq-clean (c ∷ s) es h = refl

plain-ne-nil : (p : Text) → is_plain p ≡ true → p ≢ []
unfolding is_plain
plain-ne-nil [] h = ground arith
plain-ne-nil (c ∷ p) h = ground arith

pub join_plain :
    (p : Text) (ps : List Text)
    → all is_plain (p ∷ ps) ≡ true
    → join (p ∷ ps) ≡ join_elements (p ∷ ps)
join_plain p ps h = join-eq-clean p ps (plain-ne-nil p (ground arith)) ∙ clean-join_elements p ps h

-- Joining two paths of plain elements appends the elements.
pub join-join_elements :
    (p : Text) (ps : List Text) (q : Text) (qs : List Text)
    → all is_plain (p ∷ ps) ≡ true
    → all is_plain (q ∷ qs) ≡ true
    → join (join_elements (p ∷ ps) ∷ join_elements (q ∷ qs) ∷ [])
      ≡ join_elements ((p ∷ ps) ++ (q ∷ qs))
unfolding join_elements
join-join_elements p ps q qs h k =
    let (rel, ne) = join_elements_relative p ps (ground arith) in
    join-eq-clean (join_elements (p ∷ ps)) (join_elements (q ∷ qs) ∷ []) ne
    ∙ (ap clean (sym (join_elements-append p ps q qs))
        ∙ clean-join_elements p (ps ++ (q ∷ qs)) (ground (arith, all-append is_plain ps (q ∷ qs))))

pub has_prefix_rest : (p s : Text) → has_prefix p s ≡ true → (t : Text) × (s ≡ p ++ t)
unfolding has_prefix
has_prefix_rest [] s h = (s, refl)
has_prefix_rest (c ∷ p) [] h = absurd (ground arith)
has_prefix_rest (c ∷ p) (d ∷ s) h =
    let (t, e) = has_prefix_rest p s (ground arith) in (t, ground arith)

-- A path of plain elements that begins with such a path and a slash goes on with plain elements.
pub below_elements :
    (p : Text) (ps : List Text) (q : Text) (qs : List Text)
    → all is_plain (p ∷ ps) ≡ true
    → all is_plain (q ∷ qs) ≡ true
    → has_prefix (join_elements (p ∷ ps) ++ (separator ∷ [])) (join_elements (q ∷ qs)) ≡ true
    → (rest : List Text) × (all is_plain rest ≡ true) × (q ∷ qs ≡ (p ∷ ps) ++ rest)
below_elements p ps q qs h k below =
    let (t, e) =
      has_prefix_rest (join_elements (p ∷ ps) ++ (separator ∷ [])) (join_elements (q ∷ qs)) below in
    let parts : q ∷ qs ≡ (p ∷ ps) ++ split t =
      sym (split-join_elements q qs k)
      ∙ (ap split (e ∙ append_assoc (join_elements (p ∷ ps)) (separator ∷ []) t)
          ∙ (split-append (join_elements (p ∷ ps)) t
              ∙ ap (λ es. es ++ split t) (split-join_elements p ps h))) in
    (
      split t,
      ground (arith, ap (all is_plain) parts, all-append is_plain (p ∷ ps) (split t)),
      parts,
    )

is_abs-append : (s t : Text) → s ≢ [] → is_abs (s ++ t) ≡ is_abs s
unfolding is_abs
is_abs-append [] t h = absurd (h refl)
is_abs-append (c ∷ s) t h = refl

append-ne-nil : (s t : Text) → s ≢ [] → s ++ t ≢ []
append-ne-nil [] t h e = h refl
append-ne-nil (c ∷ s) t h e = cc

elements-append :
    (root : Text) (p : Text) (ps : List Text)
    → root ≢ []
    → all is_plain (p ∷ ps) ≡ true
    → elements (root ++ (separator ∷ join_elements (p ∷ ps))) ≡ elements root ++ (p ∷ ps)
unfolding elements
elements-append root p ps ne h =
    rw
      (
        is_abs-append root (separator ∷ join_elements (p ∷ ps)) ne,
        split-append root (join_elements (p ∷ ps)),
        split-join_elements p ps h,
        clean_from-append (is_abs root) [] (split root) (p ∷ ps),
      )
      (clean_from_plain (is_abs root) (clean_from (is_abs root) [] (split root)) (p ∷ ps) h)

-- Joining a path of plain elements to a root appends its elements to those of the root.
pub join_root :
    (root : Text) (p : Text) (ps : List Text)
    → root ≢ []
    → all is_plain (p ∷ ps) ≡ true
    → join (root ∷ join_elements (p ∷ ps) ∷ []) ≡ path_of (is_abs root) (elements root ++ (p ∷ ps))
unfolding join_elements
join_root root p ps ne h =
    join-eq-clean root (join_elements (p ∷ ps) ∷ []) ne
    ∙ (clean-eq-path_of (root ++ (separator ∷ join_elements (p ∷ ps))) (append-ne-nil root _ ne)
        ∙ ap₂ path_of (is_abs-append root _ ne) (elements-append root p ps ne h))

path_of-append_cons :
    (r : Bool) (p : Text) (ps : List Text) (q : Text) (qs : List Text)
    → path_of r ((p ∷ ps) ++ (q ∷ qs)) ≡ path_of r (p ∷ ps) ++ (separator ∷ join_elements (q ∷ qs))
unfolding path_of
path_of-append_cons true p ps q qs = ap (λ s. separator ∷ s) (join_elements-append p ps q qs)
path_of-append_cons false p ps q qs = join_elements-append p ps q qs

-- The path of more elements goes on behind the path of the first ones.
pub path_of-append :
    (r : Bool) (ms : List Text) (p : Text) (ps : List Text) (q : Text) (qs : List Text)
    → path_of r (ms ++ ((p ∷ ps) ++ (q ∷ qs)))
      ≡ path_of r (ms ++ (p ∷ ps)) ++ (separator ∷ join_elements (q ∷ qs))
path_of-append r [] p ps q qs = path_of-append_cons r p ps q qs
path_of-append r (m ∷ ms) p ps q qs =
    ap (λ es. path_of r (m ∷ es)) (sym (append_assoc ms (p ∷ ps) (q ∷ qs)))
    ∙ path_of-append_cons r m (ms ++ (p ∷ ps)) q qs
