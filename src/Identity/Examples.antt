-- ===== src/Identity/Examples.antt =====
-- Runs and instances of the identity functions.
use workspace_service.Base.{
  ◌≡◌, ◌↔◌, refl, text_eq, contains, codes, false, trim_space, is_empty, ◌&&◌, ◌||◌,
}
use workspace_service.Errors.{ok}
use workspace_service.Identity.{RequestContext, normalize, validate, resolve_relative_path}
use workspace_service.Identity.Normalizing.{validate-normalize}
use workspace_service.Identity.Isolation.{
  IsPlainContext, IsBelowPrefix, resolve_relative_path-IsBelowPrefix,
}
use workspace_service.FilePath.Elements.{is_plain}

abbrev caller : RequestContext
caller = record {
  owner_uin = codes "";
  uin = codes " 200 ";
  app_id = codes "app";
  workspace_id = codes "ws";
}

abbrev scope : RequestContext
scope = record {
  owner_uin = codes "200";
  uin = codes "200";
  app_id = codes "app";
  workspace_id = codes "ws";
}

normalize-caller : normalize caller ≡ scope
unfolding normalize trim_space
normalize-caller = refl

scope_plain : IsPlainContext scope
unfolding is_plain text_eq contains
scope_plain = refl

-- A path of another user is taken as a path below the caller's own prefix.
resolve_foreign :
    resolve_relative_path scope (codes "app/ws/users/7/x")
    ≡ ok (codes "app/ws/users/200/app/ws/users/7/x")
unfolding resolve_relative_path
resolve_foreign = refl

resolve_own :
    resolve_relative_path scope (codes " app/ws/users/200/x ") ≡ ok (codes "app/ws/users/200/x")
unfolding resolve_relative_path
resolve_own = refl

resolve_relative_path-IsBelowPrefix_example : IsBelowPrefix scope (codes "app/ws/users/200/x")
resolve_relative_path-IsBelowPrefix_example =
    resolve_relative_path-IsBelowPrefix scope (codes " app/ws/users/200/x ") scope_plain resolve_own

validate-normalize_example : (validate (normalize caller) ≡ ok tt) ↔ (
    ((is_empty (trim_space caller.owner_uin) && is_empty (trim_space caller.uin))
      || is_empty (trim_space caller.app_id)
      || is_empty (trim_space caller.workspace_id))
    ≡ false)
validate-normalize_example = validate-normalize caller
