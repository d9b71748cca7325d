-- ===== src/FsService/Resolve/Examples.antt =====
-- Runs and instances of the resolution of paths.
use workspace_service.Base.{◌≡◌, refl, trim_space, text_eq, contains, codes, Text}
use workspace_service.Errors.{ok}
use workspace_service.Identity.{RequestContext, normalize}
use workspace_service.Mount.{user_root_abs}
use workspace_service.FilePath.Elements.{is_plain}
use workspace_service.Identity.{validate, resolve_relative_path}
use workspace_service.Identity.Isolation.{IsPlainContext}
use workspace_service.FsService.Resolve.{resolve_abs_path, within_mount, resolve_actor_and_path}
use workspace_service.FsService.Resolve.Isolation.{IsInside, resolve_actor_and_path-IsInside}

abbrev pub tenant : RequestContext
tenant = record {
  owner_uin = codes "100";
  uin = codes " 200 ";
  app_id = codes "app";
  workspace_id = codes "ws";
}

abbrev pub mount : Text
mount = codes "/mnt/jfs"

resolve_below :
    resolve_actor_and_path mount tenant (codes "a/../b/c.txt")
    ≡ ok (normalize tenant, codes "/mnt/jfs/app/ws/users/200/b/c.txt")
unfolding resolve_actor_and_path resolve_abs_path within_mount normalize validate
    resolve_relative_path trim_space
resolve_below = refl

pub tenant_plain : IsPlainContext (normalize tenant)
unfolding normalize trim_space is_plain text_eq contains
tenant_plain = refl

resolve_actor_and_path-IsInside_example :
    (normalize tenant ≡ normalize tenant)
    × IsInside (user_root_abs mount (normalize tenant)) (codes "/mnt/jfs/app/ws/users/200/b/c.txt")
resolve_actor_and_path-IsInside_example =
    resolve_actor_and_path-IsInside mount tenant (codes "a/../b/c.txt") tenant_plain resolve_below
