-- ===== src/Sessions/Persisting/Update.antt =====
-- What an update of a session leaves of its stored record.
use workspace_service.Base.{
  ◌≡◌, refl, ap, ◌∙◌, Option, none, some, Text, Map, false, is_empty, codes, text_eq_refl,
}
use workspace_service.Errors.{ok}
use workspace_service.Gateway.{Kernel, Session, UpdateSessionRequest, Ctx, SessionClient}
use workspace_service.Identity.{RequestContext}
use workspace_service.Sessions.{Record, record_from_gateway, seen_kernel}
use workspace_service.Sessions.Persisting.{actor_of}
use workspace_service.Sessions.Persisting.History.{
  update, state_after, persisting, state_after-persisting, changes_of, on_update,
}
use workspace_service.Sessions.Store.{KernelSessionStore}
use workspace_service.Sessions.Store.View.{view, view-upsert, change_store, put}

seen_kernel-keeps :
    (k : Option Kernel) (rec : Record)
    → ((seen_kernel k rec).session_id ≡ rec.session_id)
      × ((seen_kernel k rec).cluster ≡ rec.cluster)
      × ((seen_kernel k rec).custom_envs ≡ rec.custom_envs)
unfolding seen_kernel
seen_kernel-keeps none rec = (refl, refl, refl)
seen_kernel-keeps (some k) rec = (refl, refl, refl)

record_from_gateway-forgets :
    (sess : Session) (actor : RequestContext)
    → ((record_from_gateway sess actor).session_id ≡ sess.id)
      × ((record_from_gateway sess actor).cluster ≡ codes "")
      × ((record_from_gateway sess actor).custom_envs ≡ codes "")
unfolding record_from_gateway
record_from_gateway-forgets sess actor = seen_kernel-keeps sess.kernel _

view-put :
    (rec : Record) (s : KernelSessionStore) (id : Text)
    → rec.session_id ≡ id
    → is_empty id ≡ false
    → view (change_store (put rec) s) id ≡ some rec
unfolding change_store
view-put rec s id same there = view-upsert rec s id ∙ rw (same, there, text_eq_refl id) refl

-- After an update that answers with a session whose id is not empty, the stored record of that
-- session is made of the answer alone, and its cluster and custom environment are empty, whatever
-- was stored before.
pub update_session-forgets :
    {V : Type 0} (inner : SessionClient V) (order : Map Text Record → Map Text Record) (ctx : Ctx)
    (id : Text) (req : UpdateSessionRequest) (v : V) (s : KernelSessionStore) {sess : Session}
    → (inner.update_session ctx id req v).0 ≡ ok sess
    → is_empty sess.id ≡ false
    → (view (state_after (persisting inner order) (update ctx id req) (v, s)).1 sess.id
        ≡ some (record_from_gateway sess (actor_of ctx)))
      × ((record_from_gateway sess (actor_of ctx)).cluster ≡ codes "")
      × ((record_from_gateway sess (actor_of ctx)).custom_envs ≡ codes "")
unfolding changes_of on_update
update_session-forgets inner order ctx id req v s {sess} e there =
    let (same, no_cluster, no_envs) = record_from_gateway-forgets sess (actor_of ctx) in
    (
      ap (λ w. view w.1 sess.id) (state_after-persisting inner order (update ctx id req) v s)
          ∙ rw e (view-put (record_from_gateway sess (actor_of ctx)) s sess.id same there),
      no_cluster,
      no_envs,
    )
