-- ===== src/Http/GatewayHandlers/Examples.antt =====
-- A gateway that is out of service, and what the handlers make of its answer.
use workspace_service.Base.{◌≡◌, refl, ℕ, codes, some, none, [], false}
use workspace_service.Errors.{ok, err, new_error}
use workspace_service.Gateway.{CreateSessionRequest, UpdateSessionRequest, CreateKernelRequest}
use workspace_service.GatewayClient.{GatewayConfig, GatewayResponse, is_success}
use workspace_service.GatewayClient.Operations.{
  Json, zero_session, zero_kernel, zero_kernel_spec, zero_kernel_specs,
}
use workspace_service.Http.{Request}
use workspace_service.Http.GatewayHandlers.Relayed.{
  IsEncoding, ReadsRelayed, WritesRelayed, refusal-relayed,
}

abbrev gateway : GatewayConfig ℕ
gateway = record {
  target_path = codes "/gw/";
  auth_header_key = codes "Authorization";
  auth_value = codes "token t";
  headers = [];
  refused_request = λ method path. none;
  round_trip = λ req w. (err (new_error (codes "unused")), w);
  read_error = λ response w. none;
}

abbrev json : Json
json = record {
  marshal_create_session = λ req. ok req.name;
  marshal_update_session = λ req. ok (codes "{}");
  marshal_create_kernel = λ req. ok req.name;
  unmarshal_session = λ t. ok zero_session;
  unmarshal_sessions = λ t. ok [];
  unmarshal_kernel = λ t. ok zero_kernel;
  unmarshal_kernels = λ t. ok [];
  unmarshal_kernel_spec = λ t. ok zero_kernel_spec;
  unmarshal_kernel_specs = λ t. ok zero_kernel_specs;
}

json_encodes : IsEncoding json
json_encodes = record {
  create_session = λ req. (req.name, refl);
  update_session = λ req. (codes "{}", refl);
  create_kernel = λ req. (req.name, refl);
}

abbrev missing : GatewayResponse
missing = record {
  status_code = 404;
  content_type = codes "";
  body = codes "{\"message\": \"no kernel\"}";
}

missing_is_refused : is_success missing.status_code ≡ false
unfolding is_success
missing_is_refused = refl

abbrev opened : CreateSessionRequest
opened = record {
  path = codes "a.ipynb";
  name = codes "a";
  type_ = codes "notebook";
  cluster = codes "";
  kernel = none;
}

abbrev changed : UpdateSessionRequest
changed = record { path = none; name = some (codes "b"); type_ = none; kernel = none }

abbrev started : CreateKernelRequest
started = record { name = codes "python3"; path = codes ""; env = [] }

abbrev request : {B : Type 0} → B → Request B
request body = record { body = some body; get_header = λ name. codes ""; request_id = codes "r" }

refusal-relayed_example :
    ReadsRelayed gateway missing missing_is_refused json (codes "k/1") 0
    × WritesRelayed gateway missing missing_is_refused json
        (request opened)
        (request changed)
        (request started)
        (request tt)
        (codes "k/1")
        0
refusal-relayed_example =
    refusal-relayed gateway missing missing_is_refused json json_encodes (request opened) opened
      (request changed) changed (request started) started (request tt) (codes "k/1") 0 refl refl
      refl
