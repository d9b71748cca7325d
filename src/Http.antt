-- ===== src/Http.antt =====
-- internal/adapter/http: what the handlers share, of response/response.go, req/context.go and
-- handler/bind_context.go. A request is what gin has read of it, a reply what is written to it.
pub mod Binding
pub mod Context
pub mod FileBodies
pub mod GitBodies
pub mod FileHandlers
pub mod GitInputs
pub mod GitHandlers
pub mod GatewayHandlers
pub mod Router
use workspace_service.Base.{
  ℕ, Bool, true, Option, none, some, Text, codes, is_empty, trim_space, if◌then◌else◌,
}
use workspace_service.Calls.{Call}
use workspace_service.Errors.{Error, Result, ok, err, error_is, invalid_context, ◌>>=◌}
use workspace_service.Identity.{RequestContext, normalize, validate}

-- A request: the body that ShouldBindJSON decodes, `none` where it fails; GetHeader, which answers
-- the empty text for a header that is missing; the request id on its context.
pub record Request (B : Type 0) : Type 0 where
  pub body : Option B
  pub get_header : Text → Text
  pub request_id : Text

pub record Common : Type 0 where
  pub code : ℕ
  pub msg : Text

pub record Body (D : Type 0) : Type 0 where
  pub common : Common
  pub data_ : Option D
  pub request_id : Text

-- A reply: its status, and what is written behind the headers.
pub record Reply (P : Type 0) : Type 0 where
  pub status : ℕ
  pub payload : P

abbrev pub status_ok : ℕ
status_ok = 200

abbrev pub bad_request : ℕ
bad_request = 400

abbrev pub internal_server_error : ℕ
internal_server_error = 500

module _ {B D : Type 0} (c : Request B) where
  -- OK
  unfoldable pub ok_reply : D → Reply (Body D)
  ok_reply value = record {
    status = status_ok;
    payload = record {
      common = record { code = 0; msg = codes "ok" };
      data_ = some value;
      request_id = c.request_id;
    };
  }

  -- Error
  unfoldable pub error_reply : ℕ → Text → Reply (Body D)
  error_reply status_code msg = record {
    status = status_code;
    payload = record {
      common = record { code = status_code; msg = msg };
      data_ = none;
      request_id = c.request_id;
    };
  }

pub record WorkspaceContext : Type 0 where
  pub owner_uin : Text
  pub uin : Text
  pub app_id : Text
  pub workspace_id : Text

-- WorkspaceContext.ToIdentity
unfoldable pub to_identity : WorkspaceContext → RequestContext
unfolding normalize trim_space
to_identity w = normalize (record {
  owner_uin = trim_space w.owner_uin;
  uin = trim_space w.uin;
  app_id = trim_space w.app_id;
  workspace_id = trim_space w.workspace_id;
})

abbrev pub header_owner_uin : Text
header_owner_uin = codes "X-Wedata-Owner-Uin"

abbrev pub header_uin : Text
header_uin = codes "X-Wedata-Uin"

abbrev pub header_app_id : Text
header_app_id = codes "X-Wedata-App-Id"

abbrev pub header_workspace_id : Text
header_workspace_id = codes "X-Wedata-Workspace-Id"

-- The text, or in place of an empty one the trimmed header.
unfoldable pub or_header : (Text → Text) → Text → Text → Text
unfolding trim_space
or_header get_header name text = if is_empty text then trim_space (get_header name) else text

-- The identity of the body, its empty fields filled from the headers.
unfoldable pub filled : (Text → Text) → RequestContext → RequestContext
unfolding or_header
filled get_header rc = record {
  owner_uin = or_header get_header header_owner_uin rc.owner_uin;
  uin = or_header get_header header_uin rc.uin;
  app_id = or_header get_header header_app_id rc.app_id;
  workspace_id = or_header get_header header_workspace_id rc.workspace_id;
}

-- ResolveWorkspaceContext
unfoldable pub resolve_workspace_context : (Text → Text) → WorkspaceContext → Result RequestContext
unfolding filled to_identity validate normalize
resolve_workspace_context get_header ws =
    validate (normalize (filled get_header (to_identity ws))) >>= λ _.
    ok (normalize (filled get_header (to_identity ws)))

-- IsInvalidContext
unfoldable pub is_invalid_context : Error → Bool
unfolding error_is
is_invalid_context e = error_is invalid_context e

-- What a step of a handler leaves: the value that it goes on with, or the reply that ends it.
pub data Step (P A : Type 0) : Type 0 where
  go_on : (value : A) → Step P A
  written : (reply : Reply P) → Step P A

module _ {B D : Type 0} (c : Request B) where
  unfoldable pub json_step : Option B → Step (Body D) B
  unfolding error_reply
  json_step none = written (error_reply c bad_request (codes "invalid request body"))
  json_step (some body) = go_on body

  -- bindFSJSON of fs.go, and bindGitJSON of git.go
  unfoldable pub bind_json : Step (Body D) B
  unfolding json_step
  bind_json = json_step c.body

  unfoldable pub context_step : Result RequestContext → Step (Body D) RequestContext
  unfolding is_invalid_context error_reply
  context_step (ok rc) = go_on rc
  context_step (err e) =
      if is_invalid_context e
      then written (error_reply c bad_request e.message)
      else written (error_reply c bad_request (codes "invalid request context"))

  -- bindWorkspaceContext
  unfoldable pub bind_workspace_context : WorkspaceContext → Step (Body D) RequestContext
  unfolding context_step resolve_workspace_context
  bind_workspace_context ws = context_step (resolve_workspace_context c.get_header ws)

-- The rest of a handler behind a step, whose reply is written as it stands or as `lift` has it.
abbrev pub behind :
    {P Q A W : Type 0} → (Reply P → Reply Q) → Step P A → (A → W → Reply Q × W) → W → Reply Q × W
behind lift (written reply) rest w = (lift reply, w)
behind lift (go_on a) rest w = rest a w

-- The reply to a result, its error written by the function.
abbrev pub reply_of :
    {P A W : Type 0} → (A → Reply P) → (Error → Reply P) → Result A × W → Reply P × W
reply_of write write_error (ok a, w) = (write a, w)
reply_of write write_error (err e, w) = (write_error e, w)

-- The status of a reply, and the state.
abbrev pub sent : {W P : Type 0} → Reply P × W → ℕ × W
sent (reply, w) = (reply.status, w)

-- The object that answers a request without a result.
pub record Flag : Type 0 where
  pub name : Text
  pub value : Bool

-- The object with one field, which is true.
unfoldable pub flag : {B : Type 0} → Text → Request B → Unit {0} → Reply (Body Flag)
unfolding ok_reply
flag name c done = ok_reply c (record { name = name; value = true })

-- A handler: the body is bound, then the context in it, and what the service answers is written.
unfoldable pub handled_as :
    {B A D Q W : Type 0}
    → (Reply (Body D) → Reply Q)
    → (B → WorkspaceContext)
    → (RequestContext → B → Call W A)
    → (Request B → A → Reply Q)
    → (Request B → Error → Reply Q)
    → Request B
    → W
    → Reply Q × W
unfolding bind_json bind_workspace_context
handled_as lift context_of call write write_error c = behind lift (bind_json c) λ body.
    behind lift (bind_workspace_context c (context_of body))
      λ rc w. reply_of (write c) (write_error c) (call rc body w)

abbrev pub handled :
    {B A D W : Type 0}
    → (B → WorkspaceContext)
    → (RequestContext → B → Call W A)
    → (Request B → A → Reply (Body D))
    → (Request B → Error → Reply (Body D))
    → Request B
    → W
    → Reply (Body D) × W
handled {D = D} = handled_as {D = D} (λ r. r)
