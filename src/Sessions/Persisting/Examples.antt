-- ===== src/Sessions/Persisting/Examples.antt =====
-- Runs and instances of the gateway that writes sessions down, over one that counts its sessions.
use workspace_service.Base.{ℕ, suc, ◌≡◌, refl, none, some, [], ◌∷◌, codes}
use workspace_service.Errors.{ok, err, new_error}
use workspace_service.Gateway.{Session, CreateSessionRequest, UpdateSessionRequest, SessionClient}
use workspace_service.FsService.Resolve.Examples.{tenant}
use workspace_service.Sessions.{Record, record_from_gateway}
use workspace_service.Sessions.Persisting.{actor_of}
use workspace_service.Sessions.Persisting.Answers.{persisting_gateway-answers}
use workspace_service.Sessions.Persisting.History.{
  create, update, remove_session, persisting, state_after, state_after_all, all_changes_of,
  persisting-history, written, gateway_beside,
}
use workspace_service.Sessions.Persisting.Update.{update_session-forgets}
use workspace_service.Sessions.Store.{new_kernel_session_store}
use workspace_service.Sessions.Store.View.{
  view, put, put_state, store_after, map_after, store_refines,
}

abbrev opened : Session
opened = record {
  id = codes "s1";
  path = codes "a.ipynb";
  name = codes "";
  type_ = codes "notebook";
  kernel = none;
}

abbrev counting : SessionClient ℕ
counting = record {
  create_session = λ ctx req n. (ok opened, suc n);
  list_sessions = λ ctx n. (ok (opened ∷ []), n);
  get_session = λ ctx id n. (ok opened, n);
  update_session = λ ctx id req n. (ok opened, n);
  delete_session = λ ctx id n. (err (new_error (codes "gateway is down")), n);
}

abbrev request : CreateSessionRequest
request = record {
  path = codes "a.ipynb";
  name = codes "a";
  type_ = codes "notebook";
  cluster = codes "c1";
  kernel = none;
}

abbrev renamed : UpdateSessionRequest
renamed = record { path = none; name = some (codes "b"); type_ = none; kernel = none }

persisting_gateway-answers_example :
    (((persisting counting (λ m. m)).create_session
        (some tenant)
        request
        (0, new_kernel_session_store)).0
      ≡ ok opened)
    × (((persisting counting (λ m. m)).update_session
          (some tenant)
          (codes "s1")
          renamed
          (0, new_kernel_session_store)).0
        ≡ ok opened)
    × (((persisting counting (λ m. m)).delete_session
          (some tenant)
          (codes "s1")
          (0, new_kernel_session_store)).0
        ≡ err (new_error (codes "gateway is down")))
persisting_gateway-answers_example =
    persisting_gateway-answers (gateway_beside counting) (written counting (λ m. m)) (some tenant)
      (codes "s1") request renamed (0, new_kernel_session_store)

persisting-history_example :
    ((state_after_all
        (persisting counting (λ m. m))
        (create (some tenant) request ∷ remove_session none (codes "s1") ∷ [])
        (0, new_kernel_session_store)).0
      ≡ state_after_all counting
          (create (some tenant) request ∷ remove_session none (codes "s1") ∷ [])
          0)
    × (view
          (state_after_all
            (persisting counting (λ m. m))
            (create (some tenant) request ∷ remove_session none (codes "s1") ∷ [])
            (0, new_kernel_session_store)).1
          (codes "s1")
        ≡ map_after
            (all_changes_of counting
              (create (some tenant) request ∷ remove_session none (codes "s1") ∷ [])
              0)
            (λ k. none)
            (codes "s1"))
persisting-history_example =
    persisting-history counting (λ m. m)
      (create (some tenant) request ∷ remove_session none (codes "s1") ∷ []) 0 (codes "s1")

update_session-forgets_example :
    (view
        (state_after
          (persisting counting (λ m. m))
          (update (some tenant) (codes "s1") renamed)
          (1, new_kernel_session_store)).1
        (codes "s1")
      ≡ some (record_from_gateway opened (actor_of (some tenant))))
    × ((record_from_gateway opened (actor_of (some tenant))).cluster ≡ codes "")
    × ((record_from_gateway opened (actor_of (some tenant))).custom_envs ≡ codes "")
update_session-forgets_example =
    update_session-forgets counting (λ m. m) (some tenant) (codes "s1") renamed 1
      new_kernel_session_store refl refl

abbrev row : Record
row = record {
  session_id = codes "s1";
  path = codes "";
  name = codes "";
  type_ = codes "";
  kernel_id = codes "k";
  kernel_name = codes "";
  cluster = codes "c1";
  custom_envs = codes "";
  launch_plan = codes "";
  state = codes "idle";
  owner_uin = codes "100";
  uin = codes "200";
  app_id = codes "app";
  workspace_id = codes "ws";
}

store_refines_example :
    view
      (store_after (put row ∷ put_state (codes "s1") (codes "busy") ∷ []) new_kernel_session_store)
      (codes "s1")
    ≡ map_after (put row ∷ put_state (codes "s1") (codes "busy") ∷ []) (λ k. none) (codes "s1")
store_refines_example =
    store_refines (put row ∷ put_state (codes "s1") (codes "busy") ∷ []) (codes "s1")
