-- ===== src/FsService/Resolve/Isolation.antt =====
-- Every path that the file service resolves lies in the directory of the user.
use workspace_service.Base.{
  ◌≡◌, ◌≢◌, ◌∙◌, subst, true, false, List, [], ◌∷◌, ◌++◌, Text, is_empty, trim_space, arith, all,
  Bool-cases, inl, inr, ◌⊎◌,
}
use workspace_service.Errors.{
  ok, >>=-eq-ok, map_err-eq_ok, map_err, sentinel_wrap, invalid_file_request, ◌>>=◌,
}
use workspace_service.FilePath.{separator, join_elements, is_abs, join, elements, path_of}
use workspace_service.FilePath.Elements.{is_plain}
use workspace_service.FilePath.Plain.{join_root, path_of-append}
use workspace_service.Identity.{RequestContext, normalize, validate, users, resolve_relative_path}
use workspace_service.Identity.Normalizing.{normalize_idem}
use workspace_service.Identity.Isolation.{
  nonempty, IsPlainContext, IsBelowPrefix, prefix_elements, prefix_elements_plain,
  user_path_prefix-eq, resolve_relative_path-IsBelowPrefix,
}
use workspace_service.Mount.{user_root_abs}
use workspace_service.FsService.Resolve.{within_mount, resolve_abs_path, resolve_actor_and_path}

-- The path is the directory, or goes on below it by plain elements.
abbrev pub IsInside : Text → Text → Type 0
IsInside root abs =
    (abs ≡ root)
    ⊎ ((p : Text) × (ps : List Text) × (all is_plain (p ∷ ps) ≡ true)
        × (abs ≡ root ++ (separator ∷ join_elements (p ∷ ps))))

user_root_abs-eq :
    (mount : Text) (r : RequestContext)
    → mount ≢ []
    → IsPlainContext r
    → user_root_abs mount r ≡ path_of (is_abs mount) (elements mount ++ prefix_elements r)
unfolding user_root_abs
user_root_abs-eq mount r ne h =
    rw (user_path_prefix-eq r h) (
      join_root mount r.app_id (r.workspace_id ∷ users ∷ r.uin ∷ []) ne (prefix_elements_plain r h))

pub join_below-IsInside :
    (mount : Text) (r : RequestContext) (q : Text)
    → mount ≢ []
    → IsPlainContext r
    → IsBelowPrefix r q
    → IsInside (user_root_abs mount r) (join (mount ∷ q ∷ []))
join_below-IsInside mount r q ne h ([], plain, e) = inl (
    rw (e, user_root_abs-eq mount r ne h)
      (join_root mount r.app_id (r.workspace_id ∷ users ∷ r.uin ∷ []) ne
        (prefix_elements_plain r h)))
join_below-IsInside mount r q ne h (p ∷ ps, plain, e) = inr (
  p,
  ps,
  plain,
  rw (e, user_root_abs-eq mount r ne h)
      (join_root mount r.app_id (r.workspace_id ∷ users ∷ r.uin ∷ p ∷ ps) ne
          (ground (arith, prefix_elements_plain r h))
        ∙ path_of-append (is_abs mount) (elements mount) r.app_id
            (r.workspace_id ∷ users ∷ r.uin ∷ []) p ps),
)

within_mount-eq_ok :
    (mount abs : Text) {found : Text} → within_mount mount abs ≡ ok found → abs ≡ found
unfolding within_mount
within_mount-eq_ok mount abs h = ground arith

-- What a success of resolveAbsPath says.
resolve_abs_path-eq_ok :
    (mount : Text) (r : RequestContext) (p : Text) {abs : Text}
    → resolve_abs_path mount r p ≡ ok abs
    → (is_empty mount ≡ false)
      × ((abs ≡ user_root_abs mount (normalize r))
          ⊎ ((q : Text) × (resolve_relative_path r p ≡ ok q) × (join (mount ∷ q ∷ []) ≡ abs)))
unfolding resolve_abs_path
resolve_abs_path-eq_ok mount r p {abs} h = (
  ground arith,
  elim (Bool-cases (is_empty (trim_space p))) [
    | inl blank ↦ inl (ground arith)
    | inr given ↦ inr (
        let rest : (map_err (sentinel_wrap invalid_file_request) (resolve_relative_path r p)
              >>= λ resolved. within_mount mount (join (mount ∷ resolved ∷ [])))
            ≡ ok abs =
          ground arith in
        let (q, e, w) = >>=-eq-ok _ _ rest in
        (q, map_err-eq_ok _ _ e, within_mount-eq_ok mount _ w))
  ],
)

resolved-IsInside :
    (mount : Text) (ctx : RequestContext) (path : Text) {abs : Text}
    → IsPlainContext (normalize ctx)
    → mount ≢ []
    → (abs ≡ user_root_abs mount (normalize (normalize ctx)))
      ⊎ ((q : Text) × (resolve_relative_path (normalize ctx) path ≡ ok q)
          × (join (mount ∷ q ∷ []) ≡ abs))
    → IsInside (user_root_abs mount (normalize ctx)) abs
resolved-IsInside mount ctx path h ne (inl e) = inl (rw normalize_idem at e)
resolved-IsInside mount ctx path h ne (inr (q, e, j)) =
    subst (IsInside (user_root_abs mount (normalize ctx))) j (
      join_below-IsInside mount (normalize ctx) q ne h
        (resolve_relative_path-IsBelowPrefix (normalize ctx) path h e))

pub resolve_abs_path-IsInside :
    (mount : Text) (ctx : RequestContext) (path : Text) {abs : Text}
    → IsPlainContext (normalize ctx)
    → resolve_abs_path mount (normalize ctx) path ≡ ok abs
    → IsInside (user_root_abs mount (normalize ctx)) abs
resolve_abs_path-IsInside mount ctx path h resolved =
    let (ne, way) = resolve_abs_path-eq_ok mount (normalize ctx) path resolved in
    resolved-IsInside mount ctx path h (nonempty mount ne) way

-- What a success of resolveActorAndPath says.
pub resolve_actor_and_path-eq_ok :
    (mount : Text) (ctx : RequestContext) (path : Text) {actor : RequestContext} {abs : Text}
    → resolve_actor_and_path mount ctx path ≡ ok (actor, abs)
    → (validate (normalize ctx) ≡ ok tt)
      × (actor ≡ normalize ctx)
      × (resolve_abs_path mount (normalize ctx) path ≡ ok abs)
unfolding resolve_actor_and_path
resolve_actor_and_path-eq_ok mount ctx path e = (ground arith, ground arith, ground arith)

-- When the normalized app id, workspace id and uin of a request are plain directory names, every
-- path that resolveActorAndPath accepts comes with the normalized identity as actor, and is the
-- directory of the user below the mount root or goes on below it by elements that are neither
-- empty nor "." nor ".." and hold no slash.
pub resolve_actor_and_path-IsInside :
    (mount : Text) (ctx : RequestContext) (path : Text) {actor : RequestContext} {abs : Text}
    → IsPlainContext (normalize ctx)
    → resolve_actor_and_path mount ctx path ≡ ok (actor, abs)
    → (actor ≡ normalize ctx) × IsInside (user_root_abs mount (normalize ctx)) abs
resolve_actor_and_path-IsInside mount ctx path h e =
    let (valid, same, resolved) = resolve_actor_and_path-eq_ok mount ctx path e in
    (same, resolve_abs_path-IsInside mount ctx path h resolved)
