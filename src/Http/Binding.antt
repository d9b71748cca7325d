-- ===== src/Http/Binding.antt =====
-- What binding a request comes to: the identity and the body that a handler goes on with, or the
-- error that it writes.
use workspace_service.Base.{◌≡◌, refl, sym, subst, ap, Text, true, Option, none, some, codes, arith}
use workspace_service.Calls.{Call}
use workspace_service.Errors.{Error, Result, ok, err, new_error, error_is, sentinel_text, ◌>>=◌}
use workspace_service.Http.{
  Request, Reply, Body, WorkspaceContext, error_reply, bad_request, bind_json,
  bind_workspace_context, behind, json_step, context_step, resolve_workspace_context, filled,
  to_identity, reply_of, handled_as, is_invalid_context,
}
use workspace_service.Identity.{RequestContext, normalize, validate}

bound_body :
    {B : Type 0} → (B → WorkspaceContext) → (Text → Text) → Option B → Result (RequestContext × B)
unfolding resolve_workspace_context
bound_body context_of headers none = err (new_error (codes "invalid request body"))
bound_body context_of headers (some body) =
    resolve_workspace_context headers (context_of body) >>= λ rc. ok (rc, body)

-- The identity and the body of a request, or the first error in reading them.
unfoldable pub bound_request :
    {B : Type 0} → (B → WorkspaceContext) → Request B → Result (RequestContext × B)
unfolding bound_body
bound_request context_of c = bound_body context_of c.get_header c.body

-- The identity alone.
unfoldable pub identity_of :
    {B : Type 0} → (B → WorkspaceContext) → Request B → Result RequestContext
unfolding bound_request
identity_of context_of c = bound_request context_of c >>= λ found. ok found.0

-- The reply to a request that is bound, or not.
unfoldable pub replied :
    {B A D Q W : Type 0}
    → (Reply (Body D) → Reply Q)
    → Result (RequestContext × B)
    → (RequestContext → B → Call W A)
    → (Request B → A → Reply Q)
    → (Request B → Error → Reply Q)
    → Request B
    → W
    → Reply Q × W
unfolding error_reply
replied lift (err e) call write write_error c w = (lift (error_reply c bad_request e.message), w)
replied lift (ok (rc, body)) call write write_error c w =
    reply_of (write c) (write_error c) (call rc body w)

validate-refused :
    (rc : RequestContext) (e : Error) → validate rc ≡ err e → is_invalid_context e ≡ true
unfolding validate is_invalid_context error_is sentinel_text
validate-refused rc e h = ground arith

-- An error behind checks that a last value follows is one of the checks.
>>-eq_err :
    {A : Type 0} (m : Result (Unit {0})) (a : A) {e : Error} → (m >>= λ _. ok a) ≡ err e → m ≡ err e
>>-eq_err (ok u) a h = absurd (cc h)
>>-eq_err (err f) a h = cc

resolve_workspace_context-refused :
    (h : Text → Text) (ws : WorkspaceContext) (e : Error)
    → resolve_workspace_context h ws ≡ err e
    → is_invalid_context e ≡ true
unfolding resolve_workspace_context
resolve_workspace_context-refused h ws e r =
    validate-refused (normalize (filled h (to_identity ws))) e
      (>>-eq_err (validate (normalize (filled h (to_identity ws)))) _ r)

module _ {B A D Q W : Type 0} (lift : Reply (Body D) → Reply Q) (context_of : B → WorkspaceContext)
    (call : RequestContext → B → Call W A) (write : Request B → A → Reply Q)
    (write_error : Request B → Error → Reply Q) (c : Request B) (w : W) where
  context_replied :
      (body : B) (m : Result RequestContext)
      → ((e : Error) → m ≡ err e → is_invalid_context e ≡ true)
      → behind lift
          (context_step c m)
          (λ rc v. reply_of (write c) (write_error c) (call rc body v))
          w
        ≡ replied lift (m >>= λ rc. ok (rc, body)) call write write_error c w
  unfolding replied context_step
  context_replied body (ok rc) h = refl
  context_replied body (err e) h = rw (h e refl) refl

  body_replied :
      (o : Option B)
      → behind lift
          (json_step c o)
          (λ body.
            behind lift
              (bind_workspace_context c (context_of body))
              λ rc v. reply_of (write c) (write_error c) (call rc body v))
          w
        ≡ replied lift (bound_body context_of c.get_header o) call write write_error c w
  unfolding replied json_step bound_body bind_workspace_context new_error
  body_replied none = refl
  body_replied (some body) =
      context_replied body (resolve_workspace_context c.get_header (context_of body))
        λ e. resolve_workspace_context-refused c.get_header (context_of body) e

  -- A handler's reply is that of the bound request.
  pub handled_as-replied :
      handled_as lift context_of call write write_error c w
      ≡ replied lift (bound_request context_of c) call write write_error c w
  unfolding handled_as bound_request bind_json
  handled_as-replied = body_replied c.body

replied_cong :
    {B A D Q W : Type 0} (lift : Reply (Body D) → Reply Q) (m : Result (RequestContext × B))
    (rc : RequestContext) (f g : RequestContext → B → Call W A) (write : Request B → A → Reply Q)
    (write_error : Request B → Error → Reply Q) (c : Request B) (w : W)
    → (m >>= λ found. ok found.0) ≡ ok rc
    → ((body : B) → m ≡ ok (rc, body) → f rc body w ≡ g rc body w)
    → replied lift m f write write_error c w ≡ replied lift m g write write_error c w
unfolding replied
replied_cong lift (err e) rc f g write write_error c w h same = refl
replied_cong lift (ok (actor, body)) rc f g write write_error c w h same =
    let same_rc : actor ≡ rc = cc h in
    let agree : f actor body w ≡ g actor body w =
      rw same_rc (same body (ap (λ a. ok (a, body)) same_rc)) in
    rw agree refl

with_body :
    {B : Type 0} (m : Result RequestContext) (b body : B) {rc : RequestContext}
    → ◌>>=◌ {B = RequestContext × B} m (λ found. ok (found, b)) ≡ ok (rc, body)
    → b ≡ body
with_body (ok found) b body h = cc h
with_body (err e) b body h = absurd (cc h)

bound_body-some :
    {B : Type 0} (context_of : B → WorkspaceContext) (headers : Text → Text) (o : Option B)
    (body : B) {rc : RequestContext}
    → bound_body context_of headers o ≡ ok (rc, body)
    → o ≡ some body
unfolding bound_body
bound_body-some context_of headers none body h = absurd (cc h)
bound_body-some context_of headers (some b) body h =
    ap some (with_body (resolve_workspace_context headers (context_of b)) b body h)

-- Two services that do the same for the identity and the body of a request give the same reply.
pub handled_as_cong_body :
    {B A D Q W : Type 0} (lift : Reply (Body D) → Reply Q) (context_of : B → WorkspaceContext)
    (rc : RequestContext) (f g : RequestContext → B → Call W A) (write : Request B → A → Reply Q)
    (write_error : Request B → Error → Reply Q) (c : Request B) (w : W)
    → identity_of context_of c ≡ ok rc
    → ((body : B) → c.body ≡ some body → f rc body w ≡ g rc body w)
    → handled_as lift context_of f write write_error c w
      ≡ handled_as lift context_of g write write_error c w
unfolding identity_of bound_request
handled_as_cong_body lift context_of rc f g write write_error c w h same =
    rw
      (
        handled_as-replied lift context_of f write write_error c w,
        handled_as-replied lift context_of g write write_error c w,
      )
      (replied_cong lift (bound_request context_of c) rc f g write write_error c w h
        λ body e. same body (bound_body-some context_of c.get_header c.body body e))

-- Two services that do the same for the identity of a request give the same reply.
pub handled_as_cong :
    {B A D Q W : Type 0} (lift : Reply (Body D) → Reply Q) (context_of : B → WorkspaceContext)
    (rc : RequestContext) (f g : RequestContext → B → Call W A) (write : Request B → A → Reply Q)
    (write_error : Request B → Error → Reply Q) (c : Request B) (w : W)
    → identity_of context_of c ≡ ok rc
    → ((body : B) → f rc body w ≡ g rc body w)
    → handled_as lift context_of f write write_error c w
      ≡ handled_as lift context_of g write write_error c w
handled_as_cong lift context_of rc f g write write_error c w h same =
    handled_as_cong_body lift context_of rc f g write write_error c w h λ body _. same body

reply_of-state :
    {A P W : Type 0} (Holds : W → Type 0) (write : A → Reply P) (write_error : Error → Reply P)
    (answered : Result A × W)
    → Holds answered.1
    → Holds (reply_of write write_error answered).1
reply_of-state Holds write write_error (ok a, w) h = h
reply_of-state Holds write write_error (err e, w) h = h

replied-state :
    {B A D Q W : Type 0} (Holds : W → Type 0) (lift : Reply (Body D) → Reply Q)
    (m : Result (RequestContext × B)) (rc : RequestContext) (f : RequestContext → B → Call W A)
    (write : Request B → A → Reply Q) (write_error : Request B → Error → Reply Q) (c : Request B)
    (w : W)
    → (m >>= λ found. ok found.0) ≡ ok rc
    → ((body : B) → Holds (f rc body w).1)
    → Holds (replied lift m f write write_error c w).1
unfolding replied
replied-state Holds lift (err e) rc f write write_error c w h holds = absurd (cc h)
replied-state Holds lift (ok (actor, body)) rc f write write_error c w h holds =
    let same_rc : rc ≡ actor = cc h in
    reply_of-state Holds (write c) (write_error c) (f actor body w)
      (subst (λ a. Holds (f a body w).1) same_rc (holds body))

-- A bound request leaves the state that the call for its identity leaves.
pub handled_as-state :
    {B A D Q W : Type 0} (Holds : W → Type 0) (lift : Reply (Body D) → Reply Q)
    (context_of : B → WorkspaceContext) (rc : RequestContext) (f : RequestContext → B → Call W A)
    (write : Request B → A → Reply Q) (write_error : Request B → Error → Reply Q) (c : Request B)
    (w : W)
    → identity_of context_of c ≡ ok rc
    → ((body : B) → Holds (f rc body w).1)
    → Holds (handled_as lift context_of f write write_error c w).1
unfolding identity_of
handled_as-state Holds lift context_of rc f write write_error c w h holds =
    subst (λ r. Holds r.1) (sym (handled_as-replied lift context_of f write write_error c w))
      (replied-state Holds lift (bound_request context_of c) rc f write write_error c w h holds)

replied-refused :
    {B A D Q W : Type 0} (lift : Reply (Body D) → Reply Q) (m : Result (RequestContext × B))
    (e : Error) (call : RequestContext → B → Call W A) (write : Request B → A → Reply Q)
    (write_error : Request B → Error → Reply Q) (c : Request B) (w : W)
    → (m >>= λ found. ok found.0) ≡ err e
    → replied lift m call write write_error c w ≡ (lift (error_reply c bad_request e.message), w)
unfolding replied
replied-refused lift (ok found) e call write write_error c w h = absurd (cc h)
replied-refused lift (err f) e call write write_error c w h =
    let same : f ≡ e = cc h in rw same refl

-- A request without an identity is refused, and nothing is called.
pub handled_as-refused :
    {B A D Q W : Type 0} (lift : Reply (Body D) → Reply Q) (context_of : B → WorkspaceContext)
    (e : Error) (call : RequestContext → B → Call W A) (write : Request B → A → Reply Q)
    (write_error : Request B → Error → Reply Q) (c : Request B) (w : W)
    → identity_of context_of c ≡ err e
    → handled_as lift context_of call write write_error c w
      ≡ (lift (error_reply c bad_request e.message), w)
unfolding identity_of
handled_as-refused lift context_of e call write write_error c w h =
    rw (handled_as-replied lift context_of call write write_error c w)
      (replied-refused lift (bound_request context_of c) e call write write_error c w h)
