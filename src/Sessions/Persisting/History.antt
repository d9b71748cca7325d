-- ===== src/Sessions/Persisting/History.antt =====
-- What a sequence of calls of the persisting gateway leaves in the store in memory.
use workspace_service.Base.{◌≡◌, refl, sym, ap, ◌∙◌, none, List, [], ◌∷◌, ◌++◌, Text, Map}
use workspace_service.Errors.{Result, ok, err}
use workspace_service.File.{Outcome}
use workspace_service.Gateway.{
  Session, CreateSessionRequest, UpdateSessionRequest, Ctx, SessionClient,
}
use workspace_service.Sessions.{Record, SessionStore, record_from_create, record_from_gateway}
use workspace_service.Sessions.Persisting.{
  actor_of, created, updated, deleted, create_session, update_session, delete_session,
  persisting_gateway,
}
use workspace_service.Sessions.Store.{KernelSessionStore, new_kernel_session_store, session_store}
use workspace_service.Sessions.Store.View.{
  view, Change, put, remove, change_store, store_after, map_after, store_refines,
}

abbrev pub beside :
    {V A : Type 0} → Result A × V → KernelSessionStore → Result A × (V × KernelSessionStore)
beside (r, v) s = (r, (v, s))

abbrev pub over : {V : Type 0} → V → Outcome KernelSessionStore → Outcome (V × KernelSessionStore)
over v (e, s) = (e, (v, s))

-- A gateway and a store side by side.
abbrev pub gateway_beside : {V : Type 0} → SessionClient V → SessionClient (V × KernelSessionStore)
gateway_beside inner = record {
  create_session = λ ctx req w. beside (inner.create_session ctx req w.0) w.1;
  list_sessions = λ ctx w. beside (inner.list_sessions ctx w.0) w.1;
  get_session = λ ctx id w. beside (inner.get_session ctx id w.0) w.1;
  update_session = λ ctx id req w. beside (inner.update_session ctx id req w.0) w.1;
  delete_session = λ ctx id w. beside (inner.delete_session ctx id w.0) w.1;
}

abbrev pub store_beside :
    {V : Type 0} → SessionStore KernelSessionStore → SessionStore (V × KernelSessionStore)
store_beside store = record {
  upsert = λ rec w. over w.0 (store.upsert rec w.1);
  update_state = λ id state w. over w.0 (store.update_state id state w.1);
  mark_deleted = λ id w. over w.0 (store.mark_deleted id w.1);
  get_by_session_id = λ id w. store.get_by_session_id id w.1;
  get_by_kernel_id = λ id w. store.get_by_kernel_id id w.1;
}

-- A call of the gateway.
pub data GatewayCall : Type 0 where
  create : Ctx → CreateSessionRequest → GatewayCall
  update : Ctx → Text → UpdateSessionRequest → GatewayCall
  remove_session : Ctx → Text → GatewayCall
  list : Ctx → GatewayCall
  look_up : Ctx → Text → GatewayCall

-- The state that a call leaves.
unfoldable pub state_after : {W : Type 0} → SessionClient W → GatewayCall → W → W
state_after gw (create ctx req) w = (gw.create_session ctx req w).1
state_after gw (update ctx id req) w = (gw.update_session ctx id req w).1
state_after gw (remove_session ctx id) w = (gw.delete_session ctx id w).1
state_after gw (list ctx) w = (gw.list_sessions ctx w).1
state_after gw (look_up ctx id) w = (gw.get_session ctx id w).1

abbrev pub state_after_all : {W : Type 0} → SessionClient W → List GatewayCall → W → W
state_after_all gw [] w = w
state_after_all gw (c ∷ cs) w = state_after_all gw cs (state_after gw c w)

-- What is written down for an answer.
unfoldable pub on_create : Ctx → CreateSessionRequest → Result Session → List Change
on_create ctx req (ok sess) = put (record_from_create sess (actor_of ctx) req) ∷ []
on_create ctx req (err e) = []

unfoldable pub on_update : Ctx → Result Session → List Change
on_update ctx (ok sess) = put (record_from_gateway sess (actor_of ctx)) ∷ []
on_update ctx (err e) = []

unfoldable pub on_delete : Text → Result (Unit {0}) → List Change
on_delete id (ok u) = remove id ∷ []
on_delete id (err e) = []

-- What is written down for a call of the gateway beneath in the state v.
unfoldable pub changes_of : {V : Type 0} → SessionClient V → GatewayCall → V → List Change
unfolding on_create on_update on_delete
changes_of inner (create ctx req) v = on_create ctx req (inner.create_session ctx req v).0
changes_of inner (update ctx id req) v = on_update ctx (inner.update_session ctx id req v).0
changes_of inner (remove_session ctx id) v = on_delete id (inner.delete_session ctx id v).0
changes_of inner (list ctx) v = []
changes_of inner (look_up ctx id) v = []

abbrev pub all_changes_of : {V : Type 0} → SessionClient V → List GatewayCall → V → List Change
all_changes_of inner [] v = []
all_changes_of inner (c ∷ cs) v =
    changes_of inner c v ++ all_changes_of inner cs (state_after inner c v)

module _ {V : Type 0} (inner : SessionClient V) (order : Map Text Record → Map Text Record) where
  abbrev pub persisting : SessionClient (V × KernelSessionStore)
  persisting = persisting_gateway (gateway_beside inner) (store_beside (session_store order))

  abbrev pub written : SessionStore (V × KernelSessionStore)
  written = store_beside (session_store order)

  created-on_create :
      (ctx : Ctx) (req : CreateSessionRequest) (o : Result Session × V) (s : KernelSessionStore)
      → (created (gateway_beside inner) written ctx req (beside o s)).1
        ≡ (o.1, store_after (on_create ctx req o.0) s)
  unfolding created on_create session_store change_store
  created-on_create ctx req (ok sess, v) s = refl
  created-on_create ctx req (err e, v) s = refl

  updated-on_update :
      (ctx : Ctx) (o : Result Session × V) (s : KernelSessionStore)
      → (updated (gateway_beside inner) written ctx (beside o s)).1
        ≡ (o.1, store_after (on_update ctx o.0) s)
  unfolding updated on_update session_store change_store
  updated-on_update ctx (ok sess, v) s = refl
  updated-on_update ctx (err e, v) s = refl

  deleted-on_delete :
      (id : Text) (o : Result (Unit {0}) × V) (s : KernelSessionStore)
      → (deleted (gateway_beside inner) written id (beside o s)).1
        ≡ (o.1, store_after (on_delete id o.0) s)
  unfolding deleted on_delete session_store change_store
  deleted-on_delete id (ok u, v) s = refl
  deleted-on_delete id (err e, v) s = refl

  pub state_after-persisting :
      (c : GatewayCall) (v : V) (s : KernelSessionStore)
      → state_after persisting c (v, s)
        ≡ (state_after inner c v, store_after (changes_of inner c v) s)
  unfolding state_after changes_of persisting_gateway create_session update_session delete_session
  state_after-persisting (create ctx req) v s =
      created-on_create ctx req (inner.create_session ctx req v) s
  state_after-persisting (update ctx id req) v s =
      updated-on_update ctx (inner.update_session ctx id req v) s
  state_after-persisting (remove_session ctx id) v s =
      deleted-on_delete id (inner.delete_session ctx id v) s
  state_after-persisting (list ctx) v s = refl
  state_after-persisting (look_up ctx id) v s = refl

  store_after-append :
      (cs ds : List Change) (s : KernelSessionStore)
      → store_after (cs ++ ds) s ≡ store_after ds (store_after cs s)
  store_after-append [] ds s = refl
  store_after-append (c ∷ cs) ds s = store_after-append cs ds (change_store c s)

  state_after_all-persisting :
      (cs : List GatewayCall) (v : V) (s : KernelSessionStore)
      → state_after_all persisting cs (v, s)
        ≡ (state_after_all inner cs v, store_after (all_changes_of inner cs v) s)
  state_after_all-persisting [] v s = refl
  state_after_all-persisting (c ∷ cs) v s =
      ap (state_after_all persisting cs) (state_after-persisting c v s)
      ∙ state_after_all-persisting cs (state_after inner c v) (store_after (changes_of inner c v) s)
      ∙ ap (λ t. (state_after_all inner cs (state_after inner c v), t))
          (sym (
            store_after-append (changes_of inner c v)
              (all_changes_of inner cs (state_after inner c v)) s))

  -- Whatever calls on sessions are made of the persisting gateway over the store in memory,
  -- starting from the empty store, the gateway beneath ends in the state that it ends in alone,
  -- and GetBySessionID answers for every session what the successful answers say: the record of
  -- the last creation or update that answered with a session of that id, if the id is not empty
  -- and no deletion came through since.
  pub persisting-history :
      (cs : List GatewayCall) (v : V) (id : Text)
      → ((state_after_all persisting cs (v, new_kernel_session_store)).0
          ≡ state_after_all inner cs v)
        × (view (state_after_all persisting cs (v, new_kernel_session_store)).1 id
            ≡ map_after (all_changes_of inner cs v) (λ k. none) id)
  persisting-history cs v id = (
    ap (λ w. w.0) (state_after_all-persisting cs v new_kernel_session_store),
    ap (λ w. view w.1 id) (state_after_all-persisting cs v new_kernel_session_store)
        ∙ store_refines (all_changes_of inner cs v) id,
  )
