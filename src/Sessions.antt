-- ===== src/Sessions.antt =====
-- internal/domain/session/session.go: the persisted row of a session, and the store's interface, whose
-- operations take the state W that they act on.
pub mod Store
pub mod Persisting
use workspace_service.Base.{Option, none, some, List, [], ◌∷◌, Text, codes, is_empty, if◌then◌else◌}
use workspace_service.Errors.{Result}
use workspace_service.File.{Outcome}
use workspace_service.Gateway.{Kernel, Session, KernelRef, CreateSessionRequest}
use workspace_service.Identity.{RequestContext}

pub record Record : Type 0 where
  pub session_id : Text
  pub path : Text
  pub name : Text
  pub type_ : Text
  pub kernel_id : Text
  pub kernel_name : Text
  pub cluster : Text
  pub custom_envs : Text
  pub launch_plan : Text
  pub state : Text
  pub owner_uin : Text
  pub uin : Text
  pub app_id : Text
  pub workspace_id : Text

pub record SessionStore (W : Type 0) : Type 0 where
  pub upsert : Record → W → Outcome W
  pub update_state : Text → Text → W → Outcome W
  pub mark_deleted : Text → W → Outcome W
  pub get_by_session_id : Text → W → Result Record
  pub get_by_kernel_id : Text → W → Result Record

-- firstNonEmpty
unfoldable pub first_non_empty : List Text → Text
first_non_empty [] = codes ""
first_non_empty (v ∷ values) = let rest = first_non_empty values in if is_empty v then rest else v

-- kernelNameFromRef
unfoldable pub kernel_name_from_ref : Option KernelRef → Text
kernel_name_from_ref none = codes ""
kernel_name_from_ref (some ref) = ref.name

with_kernel : Option Kernel → Option KernelRef → Record → Record
unfolding first_non_empty kernel_name_from_ref
with_kernel (some k) ref rec = record rec {
  kernel_id = k.id;
  kernel_name = first_non_empty (k.name ∷ kernel_name_from_ref ref ∷ []);
  state = k.execution_state;
}
with_kernel none (some ref) rec = record rec { kernel_id = ref.id; kernel_name = ref.name }
with_kernel none none rec = rec

with_custom_envs : Option KernelRef → Record → Record
with_custom_envs none rec = rec
with_custom_envs (some ref) rec =
    if is_empty ref.custom_envs then rec else record rec { custom_envs = ref.custom_envs }

-- RecordFromCreate
unfoldable pub record_from_create : Session → RequestContext → CreateSessionRequest → Record
unfolding with_kernel with_custom_envs first_non_empty
record_from_create sess actor req = with_custom_envs req.kernel (
    with_kernel sess.kernel req.kernel (record {
      session_id = sess.id;
      path = first_non_empty (sess.path ∷ req.path ∷ []);
      name = first_non_empty (sess.name ∷ req.name ∷ []);
      type_ = first_non_empty (sess.type_ ∷ req.type_ ∷ []);
      kernel_id = codes "";
      kernel_name = codes "";
      cluster = req.cluster;
      custom_envs = codes "";
      launch_plan = codes "";
      state = codes "";
      owner_uin = actor.owner_uin;
      uin = actor.uin;
      app_id = actor.app_id;
      workspace_id = actor.workspace_id;
    }))

unfoldable pub seen_kernel : Option Kernel → Record → Record
seen_kernel none rec = rec
seen_kernel (some k) rec = record rec {
  kernel_id = k.id;
  kernel_name = k.name;
  state = k.execution_state;
}

-- RecordFromGateway
unfoldable pub record_from_gateway : Session → RequestContext → Record
unfolding seen_kernel
record_from_gateway sess actor = seen_kernel sess.kernel (record {
  session_id = sess.id;
  path = sess.path;
  name = sess.name;
  type_ = sess.type_;
  kernel_id = codes "";
  kernel_name = codes "";
  cluster = codes "";
  custom_envs = codes "";
  launch_plan = codes "";
  state = codes "";
  owner_uin = actor.owner_uin;
  uin = actor.uin;
  app_id = actor.app_id;
  workspace_id = actor.workspace_id;
})
