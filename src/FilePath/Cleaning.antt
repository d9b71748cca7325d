-- ===== src/FilePath/Cleaning.antt =====
-- What the fold of Clean keeps: plain elements are let through, and a relative path that does not
-- begin with ".." has plain elements only.
use workspace_service.Base.{
  ℕ, ◌≡◌, refl, ap, sym, ◌∙◌, Bool, true, false, not, ◌||◌, List, [], ◌∷◌, ◌++◌, Text, text_eq,
  text_eq_iff, has_prefix, ◌≢◌, ◌==◌, arith, contains, all, append-nil, append_assoc, all-append,
}
use workspace_service.FilePath.{
  separator, dot, dot_dot, split, join_elements, drop_last, can_backtrack, clean_from, prepend,
  clean_step, backtrack, is_abs, elements, clean, path_of,
}
use workspace_service.FilePath.Elements.{is_plain}

pub clean_from-append :
    (r : Bool) (es ps qs : List Text)
    → clean_from r es (ps ++ qs) ≡ clean_from r (clean_from r es ps) qs
unfolding clean_from
clean_from-append r es [] qs = refl
clean_from-append r es (p ∷ ps) qs = clean_from-append r (clean_step r es p) ps qs

clean_step_plain :
    (r : Bool) (es : List Text) (p : Text) → is_plain p ≡ true → clean_step r es p ≡ es ++ (p ∷ [])
unfolding clean_step is_plain
clean_step_plain r es p h = ground arith

pub clean_from_plain :
    (r : Bool) (es ps : List Text) → all is_plain ps ≡ true → clean_from r es ps ≡ es ++ ps
unfolding clean_from
clean_from_plain r es [] h = sym (append-nil es)
clean_from_plain r es (p ∷ ps) h =
    rw (clean_step_plain r es p (ground arith))
      (clean_from_plain r (es ++ (p ∷ [])) ps (ground arith) ∙ append_assoc es (p ∷ []) ps)

-- The first element is "..".
pub begins_up : List Text → Bool
begins_up [] = false
begins_up (p ∷ ps) = text_eq p dot_dot

drop_last_plain : (es : List Text) → all is_plain es ≡ true → all is_plain (drop_last es) ≡ true
unfolding drop_last
drop_last_plain [] h = refl
drop_last_plain (p ∷ []) h = refl
drop_last_plain (p ∷ q ∷ ps) h = ground (arith, drop_last_plain (q ∷ ps))

can_backtrack_plain :
    (p : Text) (es : List Text) → all is_plain (p ∷ es) ≡ true → can_backtrack (p ∷ es) ≡ true
unfolding can_backtrack is_plain
can_backtrack_plain p [] h = ground arith
can_backtrack_plain p (q ∷ ps) h = ground (arith, can_backtrack_plain q ps)

abbrev IsShaped : List Text → Type 0
IsShaped es = (begins_up es || all is_plain es) ≡ true

snoc-IsShaped :
    (es : List Text) (p : Text) → is_plain p ≡ true → IsShaped es → IsShaped (es ++ (p ∷ []))
unfolding begins_up
snoc-IsShaped [] p hp h = ground arith
snoc-IsShaped (e ∷ es) p hp h = ground (arith, all-append is_plain es (p ∷ []))

backtrack-IsShaped : (es : List Text) → IsShaped es → IsShaped (backtrack false es)
unfolding begins_up backtrack text_eq
backtrack-IsShaped [] h = refl
backtrack-IsShaped (e ∷ es) h = ground (arith, drop_last_plain (e ∷ es), can_backtrack_plain e es)

clean_step-IsShaped :
    (es : List Text) (p : Text)
    → contains separator p ≡ false
    → IsShaped es
    → IsShaped (clean_step false es p)
unfolding clean_step is_plain
clean_step-IsShaped es p hp h = ground (arith, snoc-IsShaped es p, backtrack-IsShaped es)

abbrev has_no_slash : Text → Bool
has_no_slash p = not (contains separator p)

clean_from-IsShaped :
    (es ps : List Text)
    → all has_no_slash ps ≡ true
    → IsShaped es
    → IsShaped (clean_from false es ps)
unfolding clean_from
clean_from-IsShaped es [] hp h = h
clean_from-IsShaped es (p ∷ ps) hp h =
    clean_from-IsShaped (clean_step false es p) ps (ground arith)
      (clean_step-IsShaped es p (ground arith) h)

split-has_no_slash : (s : Text) → all has_no_slash (split s) ≡ true
unfolding split contains
split-has_no_slash [] = refl
split-has_no_slash (c ∷ s) = ground (arith, all_prepend c (split s), split-has_no_slash s)
  where
    all_prepend :
        (c : ℕ) (ps : List Text)
        → c == separator ≡ false
        → all has_no_slash ps ≡ true
        → all has_no_slash (prepend c ps) ≡ true
    all_prepend c [] n h = ground arith
    all_prepend c (p ∷ ps) n h = ground arith

-- A relative path has plain elements, or its first element is "..".
pub elements-IsShaped :
    (s : Text) → is_abs s ≡ false → (begins_up (elements s) || all is_plain (elements s)) ≡ true
unfolding elements begins_up
elements-IsShaped s h = rw h (clean_from-IsShaped [] (split s) (split-has_no_slash s) refl)

-- A path that does not clean to one that climbs out has plain elements.
pub clean-eq-path_of : (s : Text) → s ≢ [] → clean s ≡ path_of (is_abs s) (elements s)
unfolding clean
clean-eq-path_of [] h = absurd (h refl)
clean-eq-path_of (c ∷ s) h = refl

path_of-begins_up :
    (es : List Text)
    → begins_up es ≡ true
    → (text_eq (path_of false es) dot_dot
        || has_prefix (dot_dot ++ (separator ∷ [])) (path_of false es))
      ≡ true
unfolding begins_up path_of has_prefix text_eq
path_of-begins_up [] h = cc
path_of-begins_up (p ∷ []) h = ground arith
path_of-begins_up (p ∷ q ∷ ps) h = rw ((text_eq_iff p dot_dot).0 h) refl

-- "." and what begins with ".." do not name a path below the directory that they start from.
unfoldable pub climbs : Text → Bool
climbs s = text_eq s dot || text_eq s dot_dot || has_prefix (dot_dot ++ (separator ∷ [])) s

climbs_dot : climbs (path_of false []) ≡ true
unfolding climbs path_of text_eq
climbs_dot = refl

climbs_up : (es : List Text) → begins_up es ≡ true → climbs (path_of false es) ≡ true
unfolding climbs
climbs_up es h = ground (arith, path_of-begins_up es)

-- The clean form of a relative path that does not climb is a sequence of plain elements.
pub clean_inside :
    (s : Text)
    → s ≢ []
    → is_abs s ≡ false
    → climbs (clean s) ≡ false
    → (p : Text) × (ps : List Text) × (all is_plain (p ∷ ps) ≡ true)
      × (clean s ≡ join_elements (p ∷ ps))
unfolding path_of
clean_inside s ne rel inside =
    inside_elements (elements s) (elements-IsShaped s rel)
      (clean-eq-path_of s ne ∙ ap (λ r. path_of r (elements s)) rel)
  where
    inside_elements :
        (es : List Text)
        → IsShaped es
        → clean s ≡ path_of false es
        → (p : Text) × (ps : List Text) × (all is_plain (p ∷ ps) ≡ true)
          × (clean s ≡ join_elements (p ∷ ps))
    inside_elements [] h e = absurd (cc (climbs_dot, ap climbs e, inside))
    inside_elements (p ∷ ps) h e = (p, ps, ground (arith, ap climbs e, climbs_up (p ∷ ps)), e)
