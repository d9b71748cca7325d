-- ===== src/Identity/Isolation.antt =====
-- ResolveRelativePath keeps every path of a request below the user's own prefix.
use workspace_service.Base.{
  ◌≡◌, ◌≢◌, refl, ap, sym, ◌∙◌, subst, true, false, List, [], ◌∷◌, ◌++◌, Text, is_empty, text_eq,
  contains, text_eq_iff, has_prefix, trim_space, arith, all, Bool-cases, inl, inr,
}
use workspace_service.Errors.{ok}
use workspace_service.FilePath.{separator, join_elements, clean, is_abs}
use workspace_service.FilePath.Elements.{is_plain}
use workspace_service.FilePath.Cleaning.{climbs, clean_inside}
use workspace_service.FilePath.Plain.{join_plain, join-join_elements, below_elements}
use workspace_service.Identity.{
  RequestContext, users, user_path_prefix, under_prefix, escapes_root, resolve_trimmed,
  resolve_relative_path,
}

-- The elements of the user's prefix.
abbrev pub prefix_elements : RequestContext → List Text
prefix_elements r = r.app_id ∷ r.workspace_id ∷ users ∷ r.uin ∷ []

-- The identifiers are names of single directories.
abbrev pub IsPlainContext : RequestContext → Type 0
IsPlainContext r = all is_plain (r.app_id ∷ r.workspace_id ∷ r.uin ∷ []) ≡ true

users_plain : is_plain users ≡ true
unfolding is_plain text_eq contains
users_plain = refl

pub prefix_elements_plain :
    (r : RequestContext) → IsPlainContext r → all is_plain (prefix_elements r) ≡ true
prefix_elements_plain r h = ground (arith, users_plain)

pub user_path_prefix-eq :
    (r : RequestContext) → IsPlainContext r → user_path_prefix r ≡ join_elements (prefix_elements r)
unfolding user_path_prefix
user_path_prefix-eq r h =
    join_plain r.app_id (r.workspace_id ∷ users ∷ r.uin ∷ []) (prefix_elements_plain r h)

-- A path of the request below the prefix of the user.
abbrev pub IsBelowPrefix : RequestContext → Text → Type 0
IsBelowPrefix r q =
    (rest : List Text) × (all is_plain rest ≡ true)
    × (q ≡ join_elements (prefix_elements r ++ rest))

under_prefix-IsBelowPrefix :
    (r : RequestContext) (p : Text) (ps : List Text)
    → IsPlainContext r
    → all is_plain (p ∷ ps) ≡ true
    → IsBelowPrefix r (under_prefix (join_elements (prefix_elements r)) (join_elements (p ∷ ps)))
unfolding under_prefix
under_prefix-IsBelowPrefix r p ps h k =
    elim (Bool-cases (text_eq (join_elements (p ∷ ps)) (join_elements (prefix_elements r)))) [
      | inl same ↦ rw same ([], refl, (text_eq_iff _ _).0 same)
      | inr other ↦
          rw other
            (elim (Bool-cases (
              has_prefix (join_elements (prefix_elements r) ++ (separator ∷ []))
                (join_elements (p ∷ ps)))) [
                  | inl below ↦ rw below (
                      let (rest, plain, e) =
                        below_elements r.app_id (r.workspace_id ∷ users ∷ r.uin ∷ []) p ps
                          (prefix_elements_plain r h) k below in
                      (rest, plain, ap join_elements e))
                  | inr outside ↦ rw outside (
                    p ∷ ps,
                    k,
                    join-join_elements r.app_id (r.workspace_id ∷ users ∷ r.uin ∷ []) p ps
                        (prefix_elements_plain r h) k,
                  )
                ])
    ]

-- What a success says of the tests that were passed.
resolve_trimmed-eq_ok :
    (r : RequestContext) (s : Text) {q : Text}
    → resolve_trimmed r s ≡ ok q
    → (is_empty s ≡ false)
      × (is_abs s ≡ false)
      × (escapes_root (clean s) ≡ false)
      × (under_prefix (user_path_prefix r) (clean s) ≡ q)
unfolding resolve_trimmed
resolve_trimmed-eq_ok r s e = (ground arith, ground arith, ground arith, ground arith)

escapes_root-eq-climbs : (s : Text) → escapes_root s ≡ climbs s
unfolding escapes_root climbs
escapes_root-eq-climbs s = refl

pub nonempty : (s : Text) → is_empty s ≡ false → s ≢ []
nonempty s h e = cc (ap is_empty e, h)

resolve_trimmed-IsBelowPrefix :
    (r : RequestContext) (s : Text) {q : Text}
    → IsPlainContext r
    → resolve_trimmed r s ≡ ok q
    → IsBelowPrefix r q
resolve_trimmed-IsBelowPrefix r s {q} h e =
    let (ne, rel, inside, found) = resolve_trimmed-eq_ok r s e in
    let (p, ps, plain, c) =
      clean_inside s (nonempty s ne) rel (sym (escapes_root-eq-climbs (clean s)) ∙ inside) in
    subst (IsBelowPrefix r) found
      (rw (user_path_prefix-eq r h, c) (under_prefix-IsBelowPrefix r p ps h plain))

-- When app id, workspace id and uin are plain directory names, every path that
-- ResolveRelativePath answers is the prefix of the user with further elements behind it that are
-- neither empty nor "." nor ".." and hold no slash.
pub resolve_relative_path-IsBelowPrefix :
    (r : RequestContext) (s : Text) {q : Text}
    → IsPlainContext r
    → resolve_relative_path r s ≡ ok q
    → IsBelowPrefix r q
unfolding resolve_relative_path
resolve_relative_path-IsBelowPrefix r s h e = resolve_trimmed-IsBelowPrefix r (trim_space s) h e
