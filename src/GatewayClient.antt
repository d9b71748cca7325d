-- ===== src/GatewayClient.antt =====
-- internal/infra/gateway/client.go: the client of the kernel gateway. The requests to the gateway and
-- its responses are records; what sends one is a parameter. A body is a text.
pub mod Paths
pub mod Transport
pub mod Operations
use workspace_service.Base.{
  ℕ, Bool, true, false, ◌||◌, ◌&&◌, ◌==◌, ltb, leb, not, Option, none, some, List, [], ◌∷◌, ◌++◌,
  Text, codes, is_empty, trim_space, if◌then◌else◌,
}
use workspace_service.Calls.{Call, checked}
use workspace_service.Errors.{Error, Result, ok, err, api_error, sentinel, prefix_wrap, map_err}
use workspace_service.GatewayClient.Paths.{single_joining_slash}

-- The methods that the client uses.
pub data Method : Type 0 where
  get : Method
  post : Method
  patch : Method
  delete : Method

-- A request to the gateway: its path before it is joined to the target's, and its headers, a later
-- one in place of an earlier one of the same name.
pub record GatewayRequest : Type 0 where
  pub method : Method
  pub path : Text
  pub body : Option Text
  pub headers : List (Text × Text)

pub record GatewayResponse : Type 0 where
  pub status_code : ℕ
  pub content_type : Text
  pub body : Text

-- The client: the path of its target, what it adds to the headers, why a request for a path can not
-- be built, its transport, and the error in reading the body of a response. A response is the last
-- one, when the transport follows redirects.
pub record GatewayConfig (W : Type 0) : Type 0 where
  pub target_path : Text
  pub auth_header_key : Text
  pub auth_value : Text
  pub headers : List (Text × Text)
  pub refused_request : Method → Text → Option Error
  pub round_trip : GatewayRequest → Call W GatewayResponse
  pub read_error : GatewayResponse → W → Option Error

-- authHeaderKey
unfoldable pub auth_header_key_of : Text → Text
unfolding trim_space
auth_header_key_of key = if is_empty (trim_space key) then codes "Authorization" else trim_space key

-- authValue
unfoldable pub auth_value_of : Text → Text → Text
unfolding trim_space
auth_value_of scheme token =
    if is_empty (trim_space token)
    then codes ""
    else if is_empty (trim_space scheme)
    then trim_space token
    else trim_space scheme ++ (codes " " ++ trim_space token)

content_headers : Option Text → List (Text × Text)
content_headers none = []
content_headers (some body) = (codes "Content-Type", codes "application/json") ∷ []

encoded : Option (Result Text) → Result (Option Text)
encoded none = ok none
encoded (some (ok body)) = ok (some body)
encoded (some (err e)) = err (prefix_wrap (codes "encode gateway request") e)

read_whole : GatewayResponse → Option Error → Result GatewayResponse
read_whole response none = ok response
read_whole response (some e) = err (prefix_wrap (codes "read gateway response") e)

-- A response whose body is read, or the error of the HTTP client under the name of the step.
received :
    {W : Type 0}
    → (GatewayResponse → W → Option Error)
    → Result GatewayResponse × W
    → Result GatewayResponse × W
unfolding read_whole
received read_error (ok response, w) = (read_whole response (read_error response w), w)
received read_error (err e, w) = (err (prefix_wrap (codes "gateway request") e), w)

module _ {W : Type 0} (g : GatewayConfig W) where
  -- Gateway.applyAuth
  unfoldable pub apply_auth : List (Text × Text) → List (Text × Text)
  apply_auth headers =
      headers
      ++ (g.headers
          ++ (if is_empty g.auth_value then [] else (g.auth_header_key, g.auth_value) ∷ []))

  sent_request : GatewayRequest → Option Error → Call W GatewayResponse
  unfolding received
  sent_request req none w = received g.read_error (g.round_trip req w)
  sent_request req (some e) w = (err (prefix_wrap (codes "build gateway request") e), w)

  -- Gateway.call, of a body as json.Marshal encodes it
  unfoldable pub call : Method → Text → Option (Result Text) → Call W GatewayResponse
  unfolding apply_auth single_joining_slash content_headers sent_request encoded
  call method path given = checked (encoded given) λ body.
      sent_request
        (record {
          method = method;
          path = single_joining_slash g.target_path path;
          body = body;
          headers = apply_auth (content_headers body);
        })
        (g.refused_request method (single_joining_slash g.target_path path))

-- A status of success
unfoldable pub is_success : ℕ → Bool
is_success status = not (ltb status 200 || leb 300 status)

-- The APIError of a response
unfoldable pub refusal : GatewayResponse → Error
refusal r = sentinel (api_error r.status_code r.content_type r.body)

-- What Gateway.doJSON makes of a response. The zero value stands for a response without a body.
unfoldable pub decoded : {A : Type 0} → A → (Text → Result A) → GatewayResponse → Result A
unfolding is_success refusal
decoded zero decode r =
    if not (is_success r.status_code)
    then err (refusal r)
    else if is_empty r.body
    then ok zero
    else map_err (prefix_wrap (codes "decode gateway response")) (decode r.body)

-- What Gateway.doNoContent makes of a response.
unfoldable pub no_content : GatewayResponse → Result (Unit {0})
unfolding is_success refusal
no_content r =
    if r.status_code == 404
    then ok tt
    else if not (is_success r.status_code)
    then err (refusal r)
    else ok tt

read_by : {W A : Type 0} → (GatewayResponse → Result A) → Result GatewayResponse × W → Result A × W
read_by read (err e, w) = (err e, w)
read_by read (ok r, w) = (read r, w)

module _ {W : Type 0} (g : GatewayConfig W) where
  -- Gateway.doJSON
  unfoldable pub do_json :
      {A : Type 0} → A → (Text → Result A) → Method → Text → Option (Result Text) → Call W A
  unfolding call decoded read_by
  do_json zero decode method path body w = read_by (decoded zero decode) (call g method path body w)

  -- Gateway.doNoContent
  unfoldable pub do_no_content : Method → Text → Option (Result Text) → Call W (Unit {0})
  unfolding call no_content read_by
  do_no_content method path body w = read_by no_content (call g method path body w)
