-- ===== src/Sessions/Persisting/Answers.antt =====
-- The bookkeeping of sessions does not show in the answers.
use workspace_service.Base.{◌≡◌, refl, Text}
use workspace_service.Errors.{Result, ok, err}
use workspace_service.Gateway.{
  Session, CreateSessionRequest, UpdateSessionRequest, Ctx, SessionClient,
}
use workspace_service.Sessions.{SessionStore}
use workspace_service.Sessions.Persisting.{
  created, updated, deleted, create_session, update_session, delete_session, persisting_gateway,
}

module _ {W : Type 0} (inner : SessionClient W) (store : SessionStore W) where
  created-answer :
      (ctx : Ctx) (req : CreateSessionRequest) (o : Result Session × W)
      → (created inner store ctx req o).0 ≡ o.0
  unfolding created
  created-answer ctx req (ok sess, w) = refl
  created-answer ctx req (err e, w) = refl

  updated-answer : (ctx : Ctx) (o : Result Session × W) → (updated inner store ctx o).0 ≡ o.0
  unfolding updated
  updated-answer ctx (ok sess, w) = refl
  updated-answer ctx (err e, w) = refl

  deleted-answer :
      (session_id : Text) (o : Result (Unit {0}) × W) → (deleted inner store session_id o).0 ≡ o.0
  unfolding deleted
  deleted-answer session_id (ok u, w) = refl
  deleted-answer session_id (err e, w) = refl

  -- Whatever the session store does, fail or not, creating, updating and deleting a session
  -- through the persisting gateway answer what the gateway beneath answers.
  pub persisting_gateway-answers :
      (ctx : Ctx) (session_id : Text) (req : CreateSessionRequest) (change : UpdateSessionRequest)
      (w : W)
      → (((persisting_gateway inner store).create_session ctx req w).0
          ≡ (inner.create_session ctx req w).0)
        × (((persisting_gateway inner store).update_session ctx session_id change w).0
            ≡ (inner.update_session ctx session_id change w).0)
        × (((persisting_gateway inner store).delete_session ctx session_id w).0
            ≡ (inner.delete_session ctx session_id w).0)
  unfolding persisting_gateway create_session update_session delete_session
  persisting_gateway-answers ctx session_id req change w = (
    created-answer ctx req (inner.create_session ctx req w),
    updated-answer ctx (inner.update_session ctx session_id change w),
    deleted-answer session_id (inner.delete_session ctx session_id w),
  )
