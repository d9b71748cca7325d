-- ===== src/Http/GatewayHandlers/Relayed.antt =====
-- A refusal of the gateway reaches the caller as it stands, through the client and the handlers.
use workspace_service.Base.{
  ℕ, ◌≡◌, refl, ap, false, Option, none, some, [], ◌∷◌, Text, codes, ◌++◌, ◌==◌, if◌then◌else◌, ◌∙◌,
  Bool-cases, inl, inr,
}
use workspace_service.Errors.{Result, ok, err, sentinel, as_api_error}
use workspace_service.Gateway.{
  SessionClient, KernelClient, CreateSessionRequest, UpdateSessionRequest, CreateKernelRequest,
}
use workspace_service.GatewayClient.{
  Method, GatewayConfig, GatewayResponse, call, do_json, do_no_content, decoded, no_content,
  is_success, refusal,
}
use workspace_service.GatewayClient.Operations.{
  Json, create_session, list_sessions, get_session, update_session, delete_session, create_kernel,
  list_kernels, get_kernel, delete_kernel, interrupt_kernel, restart_kernel, list_kernel_specs,
  get_kernel_spec, get_kernel_spec_resource, session_client, kernel_client,
}
use workspace_service.GatewayClient.{get, post, patch, delete}
use workspace_service.GatewayClient.Operations.{
  refetched, empty_object, zero_session, zero_kernel, zero_kernel_spec, zero_kernel_specs,
}
use workspace_service.GatewayClient.Paths.{
  path_escape, sessions_endpoint, kernels_endpoint, kernel_specs_endpoint, session_path,
  kernel_path,
}
use workspace_service.FilePath.{separator}
use workspace_service.Http.{Request, Reply, status_ok}
use workspace_service.Http.GatewayHandlers.{
  created, Written, relayed, nothing, or_type, write_error, respond, respond_no_content, with_body,
  body_or_zero, handle_create_session, handle_list_sessions, handle_get_session,
  handle_update_session, handle_delete_session, handle_create_kernel, handle_list_kernels,
  handle_get_kernel, handle_delete_kernel, handle_interrupt_kernel, handle_restart_kernel,
  handle_list_kernel_specs, handle_get_kernel_spec, handle_get_kernel_spec_resource,
}

-- The client of a gateway that gives one answer to every request.
abbrev pub answering : {W : Type 0} → GatewayResponse → GatewayConfig W → GatewayConfig W
answering r g = record g {
  refused_request = λ method path. none;
  round_trip = λ req w. (ok r, w);
  read_error = λ response w. none;
}

-- The answer as it stands; a body without a type is taken for JSON.
abbrev pub relay : {D : Type 0} → GatewayResponse → Reply (Written D)
relay r = record {
  status = r.status_code;
  payload = relayed (or_type r.content_type (codes "application/json")) r.body;
}

abbrev pub done : Reply (Written (Unit {0}))
done = record { status = 204; payload = nothing }

module _ {W : Type 0} (g : GatewayConfig W) (r : GatewayResponse)
    (refused : is_success r.status_code ≡ false) where
  do_json-refused :
      {A : Type 0} (zero : A) (decode : Text → Result A) (method : Method) (path : Text)
      (body : Option Text) (w : W)
      → do_json
          (answering r g)
          zero
          decode
          method
          path
          (elim body [ none ↦ none | some b ↦ some (ok b) ])
          w
        ≡ (err (refusal r), w)
  unfolding do_json call decoded
  do_json-refused zero decode method path none w = rw refused refl
  do_json-refused zero decode method path (some b) w = rw refused refl

  respond-refused :
      {D : Type 0} (status : ℕ) (w : W) → respond {D = D} status (err (refusal r), w) ≡ (relay r, w)
  unfolding respond write_error as_api_error refusal sentinel
  respond-refused status w = refl

-- encoding/json encodes every request.
pub record IsEncoding (json : Json) : Type 0 where
  pub create_session :
      (req : CreateSessionRequest) → (b : Text) × (json.marshal_create_session req ≡ ok b)
  pub update_session :
      (req : UpdateSessionRequest) → (b : Text) × (json.marshal_update_session req ≡ ok b)
  pub create_kernel :
      (req : CreateKernelRequest) → (b : Text) × (json.marshal_create_kernel req ≡ ok b)

module _ {W : Type 0} (g : GatewayConfig W) (r : GatewayResponse)
    (refused : is_success r.status_code ≡ false) (json : Json) where
  -- What the session handlers reply.
  abbrev pub sessions : SessionClient W
  sessions = session_client (answering r g) json

  abbrev pub kernels : KernelClient W
  kernels = kernel_client (answering r g) json

  no_content-refused :
      (method : Method) (path : Text) (body : Option Text) (w : W)
      → respond_no_content (
          do_no_content
            (answering r g)
            method
            path
            (elim body [ none ↦ none | some b ↦ some (ok b) ])
            w)
        ≡ (if r.status_code == 404 then done else relay r, w)
  unfolding do_no_content call no_content respond_no_content write_error as_api_error refusal
      sentinel
  no_content-refused method path none w = elim (Bool-cases (r.status_code == 404)) [
    | inl missing ↦ rw missing refl
    | inr there ↦ rw (there, refused) refl
  ]
  no_content-refused method path (some b) w = elim (Bool-cases (r.status_code == 404)) [
    | inl missing ↦ rw missing refl
    | inr there ↦ rw (there, refused) refl
  ]

  respond_all :
      {A : Type 0} (status : ℕ) (zero : A) (decode : Text → Result A) (method : Method)
      (path : Text) (w : W)
      → respond status (do_json (answering r g) zero decode method path none w) ≡ (relay r, w)
  respond_all status zero decode method path w =
      ap (respond status) (do_json-refused g r refused zero decode method path none w)
      ∙ respond-refused g r refused status w

  respond_sent :
      {A : Type 0} (status : ℕ) (zero : A) (decode : Text → Result A) (method : Method)
      (path : Text) (encoded : Result Text) (b : Text) (w : W)
      → encoded ≡ ok b
      → respond status (do_json (answering r g) zero decode method path (some encoded) w)
        ≡ (relay r, w)
  respond_sent status zero decode method path encoded b w e = rw e (
      ap (respond status) (do_json-refused g r refused zero decode method path (some b) w)
      ∙ respond-refused g r refused status w)

  resource-refused :
      (resource : Text) (w : W) → handle_get_kernel_spec_resource kernels resource w ≡ (relay r, w)
  unfolding kernel_client handle_get_kernel_spec_resource get_kernel_spec_resource call write_error
      as_api_error refusal sentinel
  resource-refused resource w = rw refused refl

  restart-refused :
      (kernel_id : Text) (w : W) → handle_restart_kernel kernels kernel_id w ≡ (relay r, w)
  unfolding kernel_client handle_restart_kernel restart_kernel refetched get_kernel do_no_content
      call no_content
  restart-refused kernel_id w = elim (Bool-cases (r.status_code == 404)) [
    | inl missing ↦
        rw missing
          (respond_all status_ok zero_kernel json.unmarshal_kernel get (kernel_path kernel_id) w)
    | inr there ↦ rw (there, refused) (respond-refused g r refused status_ok w)
  ]

  -- The requests that read are answered with the refusal.
  abbrev pub ReadsRelayed : Text → W → Type 0
  ReadsRelayed id w =
      (handle_list_sessions sessions w ≡ (relay r, w))
      × (handle_get_session sessions id w ≡ (relay r, w))
      × (handle_list_kernels kernels w ≡ (relay r, w))
      × (handle_get_kernel kernels id w ≡ (relay r, w))
      × (handle_list_kernel_specs kernels w ≡ (relay r, w))
      × (handle_get_kernel_spec kernels id w ≡ (relay r, w))
      × (handle_get_kernel_spec_resource kernels id w ≡ (relay r, w))

  -- The requests that write are answered with the refusal, or with success where nothing is missing
  -- any more.
  abbrev pub WritesRelayed :
      Request CreateSessionRequest
      → Request UpdateSessionRequest
      → Request CreateKernelRequest
      → Request (Unit {0})
      → Text
      → W
      → Type 0
  WritesRelayed c u k d id w =
      (handle_create_session sessions c w ≡ (relay r, w))
      × (handle_update_session sessions id u w ≡ (relay r, w))
      × (handle_delete_session sessions id d w
          ≡ (if r.status_code == 404 then done else relay r, w))
      × (handle_create_kernel kernels false k w ≡ (relay r, w))
      × (handle_delete_kernel kernels id w ≡ (if r.status_code == 404 then done else relay r, w))
      × (handle_interrupt_kernel kernels id w ≡ (if r.status_code == 404 then done else relay r, w))
      × (handle_restart_kernel kernels id w ≡ (relay r, w))

  reads-relayed : (id : Text) (w : W) → ReadsRelayed id w
  unfolding session_client kernel_client handle_list_sessions handle_get_session handle_list_kernels
      handle_get_kernel handle_list_kernel_specs handle_get_kernel_spec
      handle_get_kernel_spec_resource list_sessions get_session list_kernels get_kernel
      list_kernel_specs get_kernel_spec get_kernel_spec_resource
  reads-relayed id w = (
    respond_all status_ok [] json.unmarshal_sessions get sessions_endpoint w,
    respond_all status_ok zero_session json.unmarshal_session get (session_path id) w,
    respond_all status_ok [] json.unmarshal_kernels get kernels_endpoint w,
    respond_all status_ok zero_kernel json.unmarshal_kernel get (kernel_path id) w,
    respond_all status_ok zero_kernel_specs json.unmarshal_kernel_specs get kernel_specs_endpoint w,
    respond_all status_ok zero_kernel_spec json.unmarshal_kernel_spec get
        (kernel_specs_endpoint ++ (separator ∷ path_escape id)) w,
    resource-refused id w,
  )

  writes-relayed :
      IsEncoding json
      → (c : Request CreateSessionRequest) (opened : CreateSessionRequest)
        (u : Request UpdateSessionRequest) (changed : UpdateSessionRequest)
        (k : Request CreateKernelRequest) (started : CreateKernelRequest) (d : Request (Unit {0}))
        (id : Text) (w : W)
      → c.body ≡ some opened
      → u.body ≡ some changed
      → k.body ≡ some started
      → WritesRelayed c u k d id w
  unfolding session_client kernel_client handle_create_session handle_update_session
      handle_delete_session handle_create_kernel handle_delete_kernel handle_interrupt_kernel
      handle_restart_kernel create_session update_session delete_session create_kernel delete_kernel
      interrupt_kernel with_body body_or_zero
  writes-relayed enc c opened u changed k started d id w co uo ko =
      let (b, encoded) = enc.create_session opened in
      let (ub, u_encoded) = enc.update_session changed in
      let (kb, k_encoded) = enc.create_kernel started in
      (
        rw co (
            respond_sent created zero_session json.unmarshal_session post sessions_endpoint
              (json.marshal_create_session opened) b w encoded),
        rw uo (
            respond_sent status_ok zero_session json.unmarshal_session patch (session_path id)
              (json.marshal_update_session changed) ub w u_encoded),
        no_content-refused delete (session_path id) none w,
        rw ko (
            respond_sent created zero_kernel json.unmarshal_kernel post kernels_endpoint
              (json.marshal_create_kernel started) kb w k_encoded),
        no_content-refused delete (kernel_path id) none w,
        no_content-refused post (kernel_path id ++ codes "/interrupt") (some empty_object) w,
        restart-refused id w,
      )

  -- When encoding/json encodes every request, the bodies can be decoded, and the gateway answers
  -- every request with one response whose status is not a success, each handler of sessions,
  -- kernels and kernel specs replies, through the client, with the status and the body of that
  -- response as they stand and its content type, application/json where it is empty; except that
  -- a deletion or an interruption answered by 404 is replied to with 204.
  pub refusal-relayed :
      IsEncoding json
      → (c : Request CreateSessionRequest) (opened : CreateSessionRequest)
        (u : Request UpdateSessionRequest) (changed : UpdateSessionRequest)
        (k : Request CreateKernelRequest) (started : CreateKernelRequest) (d : Request (Unit {0}))
        (id : Text) (w : W)
      → c.body ≡ some opened
      → u.body ≡ some changed
      → k.body ≡ some started
      → ReadsRelayed id w × WritesRelayed c u k d id w
  refusal-relayed enc c opened u changed k started d id w co uo ko =
      (reads-relayed id w, writes-relayed enc c opened u changed k started d id w co uo ko)
