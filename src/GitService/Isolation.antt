-- ===== src/GitService/Isolation.antt =====
-- Every path that the git service resolves lies in the directory of the user.
use workspace_service.Base.{◌≡◌, subst, false, [], ◌∷◌, Text, is_empty, trim_space, arith}
use workspace_service.Errors.{
  ok, Sentinel, invalid_git_request, invalid_clone_req, >>=-eq-ok, map_err-eq_ok, map_err,
  sentinel_show, ◌>>=◌,
}
use workspace_service.FilePath.{join}
use workspace_service.Identity.{RequestContext, normalize, validate, resolve_relative_path}
use workspace_service.Identity.Isolation.{
  nonempty, IsPlainContext, resolve_relative_path-IsBelowPrefix,
}
use workspace_service.Mount.{user_root_abs}
use workspace_service.FsService.Resolve.Isolation.{IsInside, join_below-IsInside}
use workspace_service.GitClient.{CloneReq}
use workspace_service.GitService.{
  within_mount, resolve_abs_path, resolve_actor_and_path, build_clone_req, required,
}
use workspace_service.GitService.Requests.{CloneRepositoryReq}

within_mount-eq_ok :
    (wrap : Sentinel) (mount abs : Text) {found : Text}
    → within_mount wrap mount abs ≡ ok found
    → abs ≡ found
unfolding within_mount
within_mount-eq_ok wrap mount abs h = ground arith

resolve_abs_path-eq_ok :
    (mount : Text) (r : RequestContext) (p : Text) (wrap : Sentinel) {abs : Text}
    → resolve_abs_path mount r p wrap ≡ ok abs
    → (is_empty mount ≡ false)
      × ((q : Text) × (resolve_relative_path r p ≡ ok q) × (join (mount ∷ q ∷ []) ≡ abs))
unfolding resolve_abs_path
resolve_abs_path-eq_ok mount r p wrap {abs} h = (
  ground arith,
  (let rest : (map_err (sentinel_show wrap) (resolve_relative_path r p) >>= λ resolved.
            within_mount wrap mount (join (mount ∷ resolved ∷ [])))
          ≡ ok abs =
        ground arith in
      let (q, e, w) = >>=-eq-ok _ _ rest in
      (q, map_err-eq_ok _ _ e, within_mount-eq_ok wrap mount _ w)),
)

-- of a normalized identity
pub resolve_abs_path-IsInside :
    (mount : Text) (r : RequestContext) (path : Text) (wrap : Sentinel) {abs : Text}
    → IsPlainContext r
    → resolve_abs_path mount r path wrap ≡ ok abs
    → IsInside (user_root_abs mount r) abs
resolve_abs_path-IsInside mount r path wrap plain h =
    let (there, (q, e, j)) = resolve_abs_path-eq_ok mount r path wrap h in
    subst (IsInside (user_root_abs mount r)) j (
      join_below-IsInside mount r q (nonempty mount there) plain
        (resolve_relative_path-IsBelowPrefix r path plain e))

pub resolve_actor_and_path-eq_ok :
    (mount : Text) (ctx : RequestContext) (path : Text) {actor : RequestContext} {abs : Text}
    → resolve_actor_and_path mount ctx path ≡ ok (actor, abs)
    → (validate (normalize ctx) ≡ ok tt)
      × (actor ≡ normalize ctx)
      × (resolve_abs_path mount (normalize ctx) path invalid_git_request ≡ ok abs)
unfolding resolve_actor_and_path
resolve_actor_and_path-eq_ok mount ctx path e = (ground arith, ground arith, ground arith)

-- What a success of buildCloneReq says of its target.
pub build_clone_req-eq_ok :
    (mount : Text) (input : CloneRepositoryReq) {req : CloneReq}
    → build_clone_req mount input ≡ ok req
    → (req.actor ≡ normalize input.context)
      × (resolve_abs_path mount
            (normalize input.context)
            (trim_space input.target_path)
            invalid_clone_req
          ≡ ok req.target_path)
unfolding build_clone_req required
build_clone_req-eq_ok mount input e = (ground arith, ground arith)
