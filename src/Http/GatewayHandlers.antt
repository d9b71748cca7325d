-- ===== src/Http/GatewayHandlers.antt =====
-- internal/adapter/http/handler/gateway.go and gateway_context.go: the handlers of the gateway's sessions,
-- kernels and kernel specs. The replies are the models of the gateway. c.Param is an argument. What is
-- proxied as it stands is not modelled.
pub mod Relayed
mod Examples
use workspace_service.Base.{
  ℕ, Bool, ◌&&◌, Option, none, some, List, [], ◌++◌, Text, codes, is_empty, trim_space,
  if◌then◌else◌,
}
use workspace_service.Calls.{Call}
use workspace_service.Errors.{Error, Result, ok, err, as_api_error}
use workspace_service.Gateway.{
  Kernel, Session, CreateSessionRequest, UpdateSessionRequest, CreateKernelRequest, KernelSpec,
  KernelSpecs, KernelSpecResource, Ctx, SessionClient, KernelClient,
}
use workspace_service.Http.{
  Request, Reply, bad_request, status_ok, header_owner_uin, header_uin, header_app_id,
  header_workspace_id,
}
use workspace_service.Identity.{RequestContext, normalize}

-- What the handlers write: a model, the bytes of the gateway, the object of an error, or nothing. The
-- reason of a body that does not decode is left out.
pub data Written (D : Type 0) : Type 0 where
  model : D → Written D
  relayed : (content_type body : Text) → Written D
  failure : (message : Text) (reason : Option Text) → Written D
  nothing : Written D

header_identity : (Text → Text) → RequestContext
unfolding normalize trim_space
header_identity get_header = normalize (record {
  owner_uin = trim_space (get_header header_owner_uin);
  uin = trim_space (get_header header_uin);
  app_id = trim_space (get_header header_app_id);
  workspace_id = trim_space (get_header header_workspace_id);
})

-- The identity, unless it is empty.
known : RequestContext → Ctx
known rc =
    if is_empty rc.owner_uin && is_empty rc.uin && is_empty rc.app_id && is_empty rc.workspace_id
    then none
    else some rc

-- bindGatewayContext
unfoldable pub bind_gateway_context : {B : Type 0} → Request B → Ctx
unfolding header_identity known
bind_gateway_context c = known (header_identity c.get_header)

unfoldable pub or_type : Text → Text → Text
or_type content_type other = if is_empty content_type then other else content_type

write_known : {D : Type 0} → Error → Option (ℕ × Text × Text) → Reply (Written D)
unfolding or_type
write_known e none = record {
  status = 502;
  payload = failure (codes "gateway request failed") (some e.message);
}
write_known e (some (status_code, content_type, body)) = record {
  status = status_code;
  payload = relayed (or_type content_type (codes "application/json")) body;
}

-- GatewayHandler.writeError
unfoldable pub write_error : {D : Type 0} → Error → Reply (Written D)
unfolding write_known as_api_error
write_error e = write_known e (as_api_error e)

-- GatewayHandler.respond
unfoldable pub respond : {D W : Type 0} → ℕ → Result D × W → Reply (Written D) × W
unfolding write_error
respond status (ok value, w) = (record { status = status; payload = model value }, w)
respond status (err e, w) = (write_error e, w)

-- GatewayHandler.respondNoContent
unfoldable pub respond_no_content :
    {W : Type 0} → Result (Unit {0}) × W → Reply (Written (Unit {0})) × W
unfolding write_error
respond_no_content (ok done, w) = (record { status = 204; payload = nothing }, w)
respond_no_content (err e, w) = (write_error e, w)

abbrev invalid_body : {D : Type 0} → Reply (Written D)
invalid_body = record {
  status = bad_request;
  payload = failure (codes "invalid request body") none;
}

-- bindJSON, and the rest of the handler
unfoldable pub with_body :
    {B D W : Type 0} → Option B → (B → W → Reply (Written D) × W) → W → Reply (Written D) × W
with_body none rest w = (invalid_body, w)
with_body (some body) rest w = rest body w

-- bindJSONAllowEmpty: a request without a body leaves the zero value.
unfoldable pub body_or_zero : Bool → Option CreateKernelRequest → Option CreateKernelRequest
body_or_zero without_body body =
    if without_body then some (record { name = codes ""; path = codes ""; env = [] }) else body

abbrev pub created : ℕ
created = 201

respond_resource :
    {W : Type 0} → Result KernelSpecResource × W → Reply (Written KernelSpecResource) × W
unfolding write_error or_type
respond_resource (err e, w) = (write_error e, w)
respond_resource (ok resource, w) = (
  record {
    status = status_ok;
    payload =
        relayed (or_type resource.content_type (codes "application/octet-stream")) resource.data_;
  },
  w,
)

module _ {W : Type 0} (gateway : SessionClient W) where
  -- GatewayHandler.CreateSession
  unfoldable pub handle_create_session :
      Request CreateSessionRequest → W → Reply (Written Session) × W
  unfolding bind_gateway_context with_body respond
  handle_create_session c =
      with_body c.body
        λ req w. respond created (gateway.create_session (bind_gateway_context c) req w)

  -- GatewayHandler.ListSessions
  unfoldable pub handle_list_sessions : W → Reply (Written (List Session)) × W
  unfolding respond
  handle_list_sessions w = respond status_ok (gateway.list_sessions none w)

  -- GatewayHandler.GetSession
  unfoldable pub handle_get_session : Text → W → Reply (Written Session) × W
  unfolding respond
  handle_get_session session_id w = respond status_ok (gateway.get_session none session_id w)

  -- GatewayHandler.UpdateSession
  unfoldable pub handle_update_session :
      Text → Request UpdateSessionRequest → W → Reply (Written Session) × W
  unfolding bind_gateway_context with_body respond
  handle_update_session session_id c =
      with_body c.body λ req w.
        respond status_ok (gateway.update_session (bind_gateway_context c) session_id req w)

  -- GatewayHandler.DeleteSession
  unfoldable pub handle_delete_session :
      Text → Request (Unit {0}) → W → Reply (Written (Unit {0})) × W
  unfolding bind_gateway_context respond_no_content
  handle_delete_session session_id c w =
      respond_no_content (gateway.delete_session (bind_gateway_context c) session_id w)

module _ {W : Type 0} (gateway : KernelClient W) where
  -- GatewayHandler.CreateKernel
  unfoldable pub handle_create_kernel :
      Bool → Request CreateKernelRequest → W → Reply (Written Kernel) × W
  unfolding with_body body_or_zero respond
  handle_create_kernel without_body c =
      with_body (body_or_zero without_body c.body)
        λ req w. respond created (gateway.create_kernel req w)

  -- GatewayHandler.ListKernels
  unfoldable pub handle_list_kernels : W → Reply (Written (List Kernel)) × W
  unfolding respond
  handle_list_kernels w = respond status_ok (gateway.list_kernels w)

  -- GatewayHandler.GetKernel
  unfoldable pub handle_get_kernel : Text → W → Reply (Written Kernel) × W
  unfolding respond
  handle_get_kernel kernel_id w = respond status_ok (gateway.get_kernel kernel_id w)

  -- GatewayHandler.DeleteKernel
  unfoldable pub handle_delete_kernel : Text → W → Reply (Written (Unit {0})) × W
  unfolding respond_no_content
  handle_delete_kernel kernel_id w = respond_no_content (gateway.delete_kernel kernel_id w)

  -- GatewayHandler.InterruptKernel
  unfoldable pub handle_interrupt_kernel : Text → W → Reply (Written (Unit {0})) × W
  unfolding respond_no_content
  handle_interrupt_kernel kernel_id w = respond_no_content (gateway.interrupt_kernel kernel_id w)

  -- GatewayHandler.RestartKernel
  unfoldable pub handle_restart_kernel : Text → W → Reply (Written Kernel) × W
  unfolding respond
  handle_restart_kernel kernel_id w = respond status_ok (gateway.restart_kernel kernel_id w)

  -- GatewayHandler.ListKernelSpecs
  unfoldable pub handle_list_kernel_specs : W → Reply (Written KernelSpecs) × W
  unfolding respond
  handle_list_kernel_specs w = respond status_ok (gateway.list_kernel_specs w)

  -- GatewayHandler.GetKernelSpec
  unfoldable pub handle_get_kernel_spec : Text → W → Reply (Written KernelSpec) × W
  unfolding respond
  handle_get_kernel_spec name w = respond status_ok (gateway.get_kernel_spec name w)

  -- GatewayHandler.GetKernelSpecResource
  unfoldable pub handle_get_kernel_spec_resource : Text → W → Reply (Written KernelSpecResource) × W
  unfolding respond_resource
  handle_get_kernel_spec_resource resource w =
      respond_resource (gateway.get_kernel_spec_resource (codes "/kernelspecs" ++ resource) w)
