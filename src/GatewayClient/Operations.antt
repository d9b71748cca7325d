-- ===== src/GatewayClient/Operations.antt =====
-- The operations of internal/infra/gateway/client.go on sessions, kernels and kernel specs. encoding/json
-- is a parameter: `Json` has what encodes the requests and decodes the models.
mod Examples
use workspace_service.Base.{
  Bool, Option, none, some, List, [], ◌++◌, ◌∷◌, Text, codes, if◌then◌else◌, not, pos,
}
use workspace_service.Calls.{Call}
use workspace_service.Errors.{Result, ok, err}
use workspace_service.FilePath.{separator}
use workspace_service.Gateway.{
  Kernel, Session, CreateSessionRequest, UpdateSessionRequest, CreateKernelRequest, KernelSpec,
  KernelSpecs, KernelSpecResource, SessionClient, KernelClient,
}
use workspace_service.GatewayClient.{
  Method, get, post, patch, delete, GatewayConfig, GatewayResponse, call, do_json, do_no_content,
  is_success, refusal,
}
use workspace_service.GatewayClient.Paths.{
  path_escape, sessions_endpoint, kernels_endpoint, kernel_specs_endpoint, session_path,
  kernel_path,
}

pub record Json : Type 0 where
  pub marshal_create_session : CreateSessionRequest → Result Text
  pub marshal_update_session : UpdateSessionRequest → Result Text
  pub marshal_create_kernel : CreateKernelRequest → Result Text
  pub unmarshal_session : Text → Result Session
  pub unmarshal_sessions : Text → Result (List Session)
  pub unmarshal_kernel : Text → Result Kernel
  pub unmarshal_kernels : Text → Result (List Kernel)
  pub unmarshal_kernel_spec : Text → Result KernelSpec
  pub unmarshal_kernel_specs : Text → Result KernelSpecs

abbrev pub zero_session : Session
zero_session = record {
  id = codes "";
  path = codes "";
  name = codes "";
  type_ = codes "";
  kernel = none;
}

abbrev pub zero_kernel : Kernel
zero_kernel = record {
  id = codes "";
  name = codes "";
  last_activity = codes "";
  execution_state = codes "";
  connections = pos 0;
}

abbrev pub zero_kernel_spec : KernelSpec
zero_kernel_spec = record { name = codes ""; spec = codes ""; resources = [] }

abbrev pub zero_kernel_specs : KernelSpecs
zero_kernel_specs = record { default_ = codes ""; kernel_specs = [] }

-- The encoding of struct{}{}
abbrev pub empty_object : Text
empty_object = codes "{}"

resource_of : GatewayResponse → Result KernelSpecResource
unfolding is_success refusal
resource_of r =
    if not (is_success r.status_code)
    then err (refusal r)
    else ok (record { content_type = r.content_type; data_ = r.body })

read_resource : {W : Type 0} → Result GatewayResponse × W → Result KernelSpecResource × W
unfolding resource_of
read_resource (err e, w) = (err e, w)
read_resource (ok r, w) = (resource_of r, w)

module _ {W : Type 0} (g : GatewayConfig W) (json : Json) where
  -- Gateway.CreateSession
  unfoldable pub create_session : CreateSessionRequest → Call W Session
  unfolding do_json
  create_session req =
      do_json g zero_session json.unmarshal_session post sessions_endpoint
        (some (json.marshal_create_session req))

  -- Gateway.ListSessions
  unfoldable pub list_sessions : Call W (List Session)
  unfolding do_json
  list_sessions = do_json g [] json.unmarshal_sessions get sessions_endpoint none

  -- Gateway.GetSession
  unfoldable pub get_session : Text → Call W Session
  unfolding do_json session_path
  get_session session_id =
      do_json g zero_session json.unmarshal_session get (session_path session_id) none

  -- Gateway.UpdateSession
  unfoldable pub update_session : Text → UpdateSessionRequest → Call W Session
  unfolding do_json session_path
  update_session session_id req =
      do_json g zero_session json.unmarshal_session patch (session_path session_id)
        (some (json.marshal_update_session req))

  -- Gateway.DeleteSession
  unfoldable pub delete_session : Text → Call W (Unit {0})
  unfolding do_no_content session_path
  delete_session session_id = do_no_content g delete (session_path session_id) none

  -- Gateway.CreateKernel
  unfoldable pub create_kernel : CreateKernelRequest → Call W Kernel
  unfolding do_json
  create_kernel req =
      do_json g zero_kernel json.unmarshal_kernel post kernels_endpoint
        (some (json.marshal_create_kernel req))

  -- Gateway.ListKernels
  unfoldable pub list_kernels : Call W (List Kernel)
  unfolding do_json
  list_kernels = do_json g [] json.unmarshal_kernels get kernels_endpoint none

  -- Gateway.GetKernel
  unfoldable pub get_kernel : Text → Call W Kernel
  unfolding do_json kernel_path
  get_kernel kernel_id =
      do_json g zero_kernel json.unmarshal_kernel get (kernel_path kernel_id) none

  -- Gateway.DeleteKernel
  unfoldable pub delete_kernel : Text → Call W (Unit {0})
  unfolding do_no_content kernel_path
  delete_kernel kernel_id = do_no_content g delete (kernel_path kernel_id) none

  -- Gateway.InterruptKernel
  unfoldable pub interrupt_kernel : Text → Call W (Unit {0})
  unfolding do_no_content kernel_path
  interrupt_kernel kernel_id =
      do_no_content g post (kernel_path kernel_id ++ codes "/interrupt") (some (ok empty_object))

  unfoldable pub refetched : Text → Result (Unit {0}) × W → Result Kernel × W
  unfolding get_kernel
  refetched kernel_id (err e, w) = (err e, w)
  refetched kernel_id (ok u, w) = get_kernel kernel_id w

  -- Gateway.RestartKernel
  unfoldable pub restart_kernel : Text → Call W Kernel
  unfolding do_no_content kernel_path refetched
  restart_kernel kernel_id w =
      refetched kernel_id (
        do_no_content g post (kernel_path kernel_id ++ codes "/restart") (some (ok empty_object)) w)

  -- Gateway.ListKernelSpecs
  unfoldable pub list_kernel_specs : Call W KernelSpecs
  unfolding do_json
  list_kernel_specs =
      do_json g zero_kernel_specs json.unmarshal_kernel_specs get kernel_specs_endpoint none

  -- Gateway.GetKernelSpec
  unfoldable pub get_kernel_spec : Text → Call W KernelSpec
  unfolding do_json path_escape
  get_kernel_spec name =
      do_json g zero_kernel_spec json.unmarshal_kernel_spec get
        (kernel_specs_endpoint ++ (separator ∷ path_escape name)) none

  -- Gateway.GetKernelSpecResource
  unfoldable pub get_kernel_spec_resource : Text → Call W KernelSpecResource
  unfolding call read_resource
  get_kernel_spec_resource resource_path w = read_resource (call g get resource_path none w)

  -- The operations of Gateway on sessions.
  unfoldable pub session_client : SessionClient W
  unfolding create_session list_sessions get_session update_session delete_session
  session_client = record {
    create_session = λ ctx. create_session;
    list_sessions = λ ctx. list_sessions;
    get_session = λ ctx. get_session;
    update_session = λ ctx. update_session;
    delete_session = λ ctx. delete_session;
  }

  -- The operations of Gateway on kernels and kernel specs.
  unfoldable pub kernel_client : KernelClient W
  unfolding create_kernel list_kernels get_kernel delete_kernel interrupt_kernel restart_kernel
      list_kernel_specs get_kernel_spec get_kernel_spec_resource
  kernel_client = record {
    create_kernel = create_kernel;
    list_kernels = list_kernels;
    get_kernel = get_kernel;
    delete_kernel = delete_kernel;
    interrupt_kernel = interrupt_kernel;
    restart_kernel = restart_kernel;
    list_kernel_specs = list_kernel_specs;
    get_kernel_spec = get_kernel_spec;
    get_kernel_spec_resource = get_kernel_spec_resource;
  }
