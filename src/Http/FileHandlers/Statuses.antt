-- ===== src/Http/FileHandlers/Statuses.antt =====
-- The statuses of a file service whose storage fails.
use workspace_service.Base.{◌≡◌, refl, sym, ap, subst, true, ◌⊎◌, inl, inr, ℕ, [], ◌∷◌, Text, arith}
use workspace_service.Calls.{Call}
use workspace_service.Errors.{
  api_error, Error, Result, ok, err, Sentinel, error_is, invalid_context, invalid_file_request,
  invalid_clone_req, invalid_git_request, not_found, already_exists, not_a_file, not_a_directory,
  file_too_large, invalid_request,
}
use workspace_service.FsService.Operations.Faults.{Fails}
use workspace_service.Http.{
  Request, Reply, Body, WorkspaceContext, handled_as, bad_request, sent, error_reply, reply_of,
  is_invalid_context,
}
use workspace_service.Http.Binding.{bound_request, replied, handled_as-replied}
use workspace_service.Http.FileHandlers.{write_fs_error}
use workspace_service.Identity.{RequestContext}

-- The status that stands for an error of the storage.
unfoldable pub status_of : Sentinel → ℕ
status_of invalid_context = 400
status_of invalid_file_request = 400
status_of invalid_clone_req = 500
status_of invalid_git_request = 500
status_of not_found = 404
status_of already_exists = 409
status_of not_a_file = 400
status_of not_a_directory = 400
status_of file_too_large = 413
status_of invalid_request = 500
status_of (api_error status_code content_type body) = 500

-- The status that writeFSError gives an error.
abbrev error_status : {B : Type 0} → Request B → Error → ℕ
error_status c e = (write_fs_error {D = Unit {0}} c e).status

-- The status does not depend on what the handler would have answered with.
pub error_status-any :
    {B : Type 0} (D E : Type 0) (c : Request B) (e : Error)
    → (write_fs_error {D = D} c e).status ≡ (write_fs_error {D = E} c e).status
unfolding write_fs_error error_reply error_is is_invalid_context
error_status-any D E c e = ground arith

error_status-invalid :
    {B : Type 0} (c : Request B) (e : Error)
    → error_is invalid_file_request e ≡ true
    → error_status c e ≡ bad_request
unfolding write_fs_error error_reply error_is is_invalid_context
error_status-invalid c e h = ground arith

error_status-sentinel :
    {B : Type 0} (c : Request B) (fault : Sentinel) (message : Text)
    → error_status c (record { message = message; chain = fault ∷ [] }) ≡ status_of fault
unfolding write_fs_error error_reply status_of error_is is_invalid_context
error_status-sentinel c invalid_context message = refl
error_status-sentinel c invalid_file_request message = refl
error_status-sentinel c invalid_clone_req message = refl
error_status-sentinel c invalid_git_request message = refl
error_status-sentinel c not_found message = refl
error_status-sentinel c already_exists message = refl
error_status-sentinel c not_a_file message = refl
error_status-sentinel c not_a_directory message = refl
error_status-sentinel c file_too_large message = refl
error_status-sentinel c invalid_request message = refl
error_status-sentinel c (api_error status_code content_type body) message = refl

error_status-chain :
    {B : Type 0} (c : Request B) (fault : Sentinel) (e : Error)
    → e.chain ≡ fault ∷ []
    → error_status c e ≡ status_of fault
error_status-chain c fault e h =
    subst
      (λ chain. error_status c (record { message = e.message; chain = chain }) ≡ status_of fault)
      (sym h) (error_status-sentinel c fault e.message)

-- The reply is a bad request or has the status of the fault, and the state is left alone.
abbrev pub Faulty : {W : Type 0} → Sentinel → W → ℕ × W → Type 0
Faulty fault w served = (served ≡ (bad_request, w)) ⊎ (served ≡ (status_of fault, w))

module _ {B A D Q W : Type 0} (lift : Reply (Body D) → Reply Q) (context_of : B → WorkspaceContext)
    (call : RequestContext → B → Call W A) (write : Request B → A → Reply Q)
    (write_error : Request B → Error → Reply Q) (c : Request B) (w : W) (fault : Sentinel)
    (lifted : (r : Reply (Body D)) → (lift r).status ≡ r.status)
    (written : (e : Error) → (write_error c e).status ≡ error_status c e)
    (fails : (rc : RequestContext) (body : B) → Fails fault w (call rc body w)) where
  error-Faulty :
      (e : Error)
      → (error_is invalid_file_request e ≡ true) ⊎ (e.chain ≡ fault ∷ [])
      → Faulty fault w ((write_error c e).status, w)
  error-Faulty e (inl bad) = inl (ap (λ n. (n, w)) (cc (written e, error_status-invalid c e bad)))
  error-Faulty e (inr known) =
      inr (ap (λ n. (n, w)) (cc (written e, error_status-chain c fault e known)))

  replied-Faulty :
      (m : Result (RequestContext × B))
      → Faulty fault w (sent (replied lift m call write write_error c w))
  unfolding replied error_reply
  replied-Faulty (err e) = inl (ap (λ n. (n, w)) (lifted (error_reply c bad_request e.message)))
  replied-Faulty (ok (rc, body)) =
      let (e, answered, kind) = fails rc body in
      subst (λ a. Faulty fault w (sent (reply_of (write c) (write_error c) a))) (sym answered)
        (error-Faulty e kind)

  pub handled_as-Faulty :
      Faulty fault w (sent (handled_as lift context_of call write write_error c w))
  handled_as-Faulty =
      subst (λ r. Faulty fault w (sent r))
        (sym (handled_as-replied lift context_of call write write_error c w))
        (replied-Faulty (bound_request context_of c))
