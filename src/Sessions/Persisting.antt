-- ===== src/Sessions/Persisting.antt =====
-- internal/infra/gateway/persisting_gateway.go: the gateway client that writes the sessions down. The
-- session that the source returns beside an error is left out. The proxies are passed
-- through and are not modelled.
pub mod Answers
pub mod History
pub mod Update
mod Examples
use workspace_service.Base.{Option, none, some, List, Text, codes}
use workspace_service.Calls.{Call}
use workspace_service.Errors.{Result, ok, err}
use workspace_service.Gateway.{
  Session, CreateSessionRequest, UpdateSessionRequest, Ctx, SessionClient, KernelClient,
}
use workspace_service.Identity.{RequestContext}
use workspace_service.Sessions.{SessionStore, record_from_create, record_from_gateway}

-- ctxmeta.RequestContextFrom, whose zero value stands for no identity
unfoldable pub actor_of : Ctx → RequestContext
actor_of none = record {
  owner_uin = codes "";
  uin = codes "";
  app_id = codes "";
  workspace_id = codes "";
}
actor_of (some rc) = rc

module _ {W : Type 0} (inner : SessionClient W) (store : SessionStore W) where
  unfoldable pub created : Ctx → CreateSessionRequest → Result Session × W → Result Session × W
  unfolding record_from_create actor_of
  created ctx req (err e, w) = (err e, w)
  created ctx req (ok sess, w) =
      (ok sess, (store.upsert (record_from_create sess (actor_of ctx) req) w).1)

  unfoldable pub updated : Ctx → Result Session × W → Result Session × W
  unfolding record_from_gateway actor_of
  updated ctx (err e, w) = (err e, w)
  updated ctx (ok sess, w) = (ok sess, (store.upsert (record_from_gateway sess (actor_of ctx)) w).1)

  unfoldable pub deleted : Text → Result (Unit {0}) × W → Result (Unit {0}) × W
  deleted session_id (err e, w) = (err e, w)
  deleted session_id (ok u, w) = (ok u, (store.mark_deleted session_id w).1)

  -- PersistingGateway.CreateSession
  unfoldable pub create_session : Ctx → CreateSessionRequest → Call W Session
  unfolding created
  create_session ctx req w = created ctx req (inner.create_session ctx req w)

  -- PersistingGateway.UpdateSession
  unfoldable pub update_session : Ctx → Text → UpdateSessionRequest → Call W Session
  unfolding updated
  update_session ctx session_id req w = updated ctx (inner.update_session ctx session_id req w)

  -- PersistingGateway.DeleteSession
  unfoldable pub delete_session : Ctx → Text → Call W (Unit {0})
  unfolding deleted
  delete_session ctx session_id w = deleted session_id (inner.delete_session ctx session_id w)

  -- The operations of PersistingGateway on sessions.
  unfoldable pub persisting_gateway : SessionClient W
  unfolding create_session update_session delete_session
  persisting_gateway = record {
    create_session = create_session;
    list_sessions = inner.list_sessions;
    get_session = inner.get_session;
    update_session = update_session;
    delete_session = delete_session;
  }

-- The operations of PersistingGateway on kernels and kernel specs.
unfoldable pub persisting_kernels : {W : Type 0} → KernelClient W → KernelClient W
persisting_kernels inner = record {
  create_kernel = inner.create_kernel;
  list_kernels = inner.list_kernels;
  get_kernel = inner.get_kernel;
  delete_kernel = inner.delete_kernel;
  interrupt_kernel = inner.interrupt_kernel;
  restart_kernel = inner.restart_kernel;
  list_kernel_specs = inner.list_kernel_specs;
  get_kernel_spec = inner.get_kernel_spec;
  get_kernel_spec_resource = inner.get_kernel_spec_resource;
}

-- WrapWithSessionStore; `none` is nil.
unfoldable pub wrap_with_session_store :
    {W : Type 0} → Option (SessionClient W) → Option (SessionStore W) → Option (SessionClient W)
unfolding persisting_gateway
wrap_with_session_store none store = none
wrap_with_session_store (some gw) none = some gw
wrap_with_session_store (some gw) (some store) = some (persisting_gateway gw store)
