-- ===== src/Sessions/Store/View.antt =====
-- The store in memory as a partial map from session ids to records.
use workspace_service.Base.{
  ◌≡◌, refl, ◌∙◌, not, ◌&&◌, Option, none, some, List, [], ◌∷◌, Text, text_eq, text_eq_iff,
  text_key, is_empty, lookup, lookup-insert, lookup-delete, arith, if◌then◌else◌,
}
use workspace_service.Errors.{ok, err}
use workspace_service.Sessions.{Record}
use workspace_service.Sessions.Store.{
  KernelSessionStore, upsert, update_state, mark_deleted, get_by_session_id,
  new_kernel_session_store,
}

-- What the store answers for a session, as the value of a partial map.
unfoldable pub view : KernelSessionStore → Text → Option Record
view s id = elim (get_by_session_id id s) [ ok rec ↦ some rec | err e ↦ none ]

-- A session that is marked as deleted has no record.
abbrev pub IsSeparate : KernelSessionStore → Type 0
IsSeparate s = (id : Text) → lookup id s.deleted ≡ some tt → lookup id s.by_id ≡ none

pub view-upsert :
    (rec : Record) (s : KernelSessionStore) (id : Text)
    → view (upsert rec s).1 id
      ≡ (if not (is_empty rec.session_id) && text_eq rec.session_id id then some rec else view s id)
unfolding view upsert get_by_session_id
view-upsert rec s id =
    ground (
      arith,
      lookup-insert rec.session_id id rec s.by_id,
      lookup-delete rec.session_id id s.deleted,
    )

view-mark_deleted :
    (gone : Text) (s : KernelSessionStore) (id : Text)
    → view (mark_deleted gone s).1 id ≡ (if text_eq gone id then none else view s id)
unfolding view mark_deleted get_by_session_id
view-mark_deleted gone s id =
    ground (arith, lookup-insert gone id tt s.deleted, lookup-delete gone id s.by_id)

-- A record with another state.
abbrev pub in_state : Text → Option Record → Option Record
in_state state none = none
in_state state (some rec) = some (record rec { state = state })

view-update_state :
    (changed state : Text) (s : KernelSessionStore) (id : Text)
    → IsSeparate s
    → view (update_state changed state s).1 id
      ≡ (if text_eq changed id then in_state state (view s id) else view s id)
unfolding view update_state get_by_session_id
view-update_state changed state s id h = for_lookup (lookup changed s.by_id) refl
  where
    for_lookup :
        (o : Option Record)
        → lookup changed s.by_id ≡ o
        → view (update_state changed state s).1 id
          ≡ (if text_eq changed id then in_state state (view s id) else view s id)
    for_lookup none e = ground (arith, e, text_eq_iff changed id)
    for_lookup (some rec) e = ground (
      arith,
      e,
      h id,
      text_eq_iff changed id,
      lookup-insert changed id (record rec { state = state }) s.by_id,
    )

upsert-IsSeparate :
    (rec : Record) (s : KernelSessionStore) → IsSeparate s → IsSeparate (upsert rec s).1
unfolding upsert
upsert-IsSeparate rec s h id gone = ground (
  arith,
  h id,
  lookup-insert rec.session_id id rec s.by_id,
  lookup-delete rec.session_id id s.deleted,
)

mark_deleted-IsSeparate :
    (gone : Text) (s : KernelSessionStore) → IsSeparate s → IsSeparate (mark_deleted gone s).1
unfolding mark_deleted
mark_deleted-IsSeparate gone s h id e =
    ground (arith, h id, lookup-insert gone id tt s.deleted, lookup-delete gone id s.by_id)

update_state-IsSeparate :
    (changed state : Text) (s : KernelSessionStore)
    → IsSeparate s
    → IsSeparate (update_state changed state s).1
unfolding update_state
update_state-IsSeparate changed state s h id gone = for_lookup (lookup changed s.by_id) refl gone
  where
    for_lookup :
        (o : Option Record)
        → lookup changed s.by_id ≡ o
        → lookup id (update_state changed state s).1.deleted ≡ some tt
        → lookup id (update_state changed state s).1.by_id ≡ none
    for_lookup none e g = ground (arith, e, h id)
    for_lookup (some rec) e g = ground (
      arith,
      e,
      h id,
      text_eq_iff changed id,
      lookup-insert changed id (record rec { state = state }) s.by_id,
    )

-- A call that changes the store.
pub data Change : Type 0 where
  put : Record → Change
  put_state : Text → Text → Change
  remove : Text → Change

unfoldable pub change_store : Change → KernelSessionStore → KernelSessionStore
change_store (put rec) s = (upsert rec s).1
change_store (put_state id state) s = (update_state id state s).1
change_store (remove id) s = (mark_deleted id s).1

-- What the call means for a partial map.
unfoldable pub change_map : Change → (Text → Option Record) → Text → Option Record
change_map (put rec) m id =
    if not (is_empty rec.session_id) && text_eq rec.session_id id then some rec else m id
change_map (put_state changed state) m id =
    if text_eq changed id then in_state state (m id) else m id
change_map (remove gone) m id = if text_eq gone id then none else m id

-- The calls one after the other.
abbrev pub store_after : List Change → KernelSessionStore → KernelSessionStore
store_after [] s = s
store_after (c ∷ cs) s = store_after cs (change_store c s)

abbrev pub map_after : List Change → (Text → Option Record) → Text → Option Record
map_after [] m = m
map_after (c ∷ cs) m = map_after cs (change_map c m)

change_store-IsSeparate :
    (c : Change) (s : KernelSessionStore) → IsSeparate s → IsSeparate (change_store c s)
unfolding change_store
change_store-IsSeparate (put rec) s h = upsert-IsSeparate rec s h
change_store-IsSeparate (put_state id state) s h = update_state-IsSeparate id state s h
change_store-IsSeparate (remove id) s h = mark_deleted-IsSeparate id s h

view-change_store :
    (c : Change) (s : KernelSessionStore) (id : Text)
    → IsSeparate s
    → view (change_store c s) id ≡ change_map c (view s) id
unfolding change_store change_map
view-change_store (put rec) s id h = view-upsert rec s id
view-change_store (put_state changed state) s id h = view-update_state changed state s id h
view-change_store (remove gone) s id h = view-mark_deleted gone s id

change_map_cong :
    (c : Change) (f g : Text → Option Record) (k : Text)
    → f k ≡ g k
    → change_map c f k ≡ change_map c g k
unfolding change_map
change_map_cong (put rec) f g k same = rw same refl
change_map_cong (put_state id state) f g k same = rw same refl
change_map_cong (remove id) f g k same = rw same refl

view-store_after :
    (cs : List Change) (s : KernelSessionStore) (m : Text → Option Record) (id : Text)
    → IsSeparate s
    → ((k : Text) → view s k ≡ m k)
    → view (store_after cs s) id ≡ map_after cs m id
view-store_after [] s m id h e = e id
view-store_after (c ∷ cs) s m id h e =
    view-store_after cs (change_store c s) (change_map c m) id (change_store-IsSeparate c s h)
      λ k. view-change_store c s k h ∙ change_map_cong c (view s) m k (e k)

-- After any sequence of Upsert, UpdateState and MarkDeleted from the empty store in memory,
-- GetBySessionID answers as a partial map from ids to records does: an Upsert with an id sets it,
-- UpdateState replaces the state where there is a record, MarkDeleted removes it.
pub store_refines :
    (cs : List Change) (id : Text)
    → view (store_after cs new_kernel_session_store) id ≡ map_after cs (λ k. none) id
unfolding new_kernel_session_store view get_by_session_id
store_refines cs id =
    view-store_after cs new_kernel_session_store (λ k. none) id (λ k e. refl) (λ k. refl)
