-- ===== src/Sessions/Store.antt =====
-- internal/infra/persistence/memory/kernel_session_store.go
pub mod View
use workspace_service.Base.{
  Bool, Option, none, some, List, [], ◌∷◌, Text, codes, text_eq, text_key, is_empty, Map, lookup,
  insert, delete, if◌then◌else◌,
}
use workspace_service.Errors.{Error, Result, ok, err, new_error}
use workspace_service.File.{Outcome}
use workspace_service.Sessions.{Record, SessionStore}

pub record KernelSessionStore : Type 0 where
  pub by_id : Map Text Record
  pub deleted : Map Text (Unit {0})

-- NewKernelSessionStore
unfoldable pub new_kernel_session_store : KernelSessionStore
new_kernel_session_store = record { by_id = []; deleted = [] }

abbrev pub session_not_found : Error
session_not_found = new_error (codes "session not found")

-- KernelSessionStore.Upsert
unfoldable pub upsert : Record → KernelSessionStore → Outcome KernelSessionStore
unfolding insert delete
upsert rec s =
    if is_empty rec.session_id then (some (new_error (codes "session_id is required")), s) else (
      none,
      record {
        by_id = insert rec.session_id rec s.by_id;
        deleted = delete rec.session_id s.deleted;
      },
    )

-- KernelSessionStore.UpdateState
unfoldable pub update_state : Text → Text → KernelSessionStore → Outcome KernelSessionStore
unfolding insert lookup
update_state session_id state s = elim (lookup session_id s.by_id) [
  | none ↦ (some session_not_found, s)
  | some rec ↦ (none, record s { by_id = insert session_id (record rec { state = state }) s.by_id })
]

-- KernelSessionStore.MarkDeleted
unfoldable pub mark_deleted : Text → KernelSessionStore → Outcome KernelSessionStore
unfolding insert delete
mark_deleted session_id s =
    (none, record { by_id = delete session_id s.by_id; deleted = insert session_id tt s.deleted })

stored : Option Record → Result Record
stored none = err session_not_found
stored (some rec) = ok rec

-- KernelSessionStore.GetBySessionID
unfoldable pub get_by_session_id : Text → KernelSessionStore → Result Record
unfolding lookup stored
get_by_session_id session_id s = elim (lookup session_id s.deleted) [
  | some gone ↦ err session_not_found
  | none ↦ stored (lookup session_id s.by_id)
]

-- The loop of GetByKernelID over the entries that are left.
unfoldable pub find_by_kernel : Text → Map Text (Unit {0}) → Map Text Record → Result Record
unfolding lookup
find_by_kernel kernel_id deleted [] = err session_not_found
find_by_kernel kernel_id deleted ((id, rec) ∷ rest) =
    let later = find_by_kernel kernel_id deleted rest in
    elim (lookup id deleted) [
      | some gone ↦ later
      | none ↦ if text_eq rec.kernel_id kernel_id then ok rec else later
    ]

-- KernelSessionStore.GetByKernelID. A range over a map takes its entries in any order: `order` is the
-- one that it takes.
unfoldable pub get_by_kernel_id :
    (Map Text Record → Map Text Record) → Text → KernelSessionStore → Result Record
unfolding find_by_kernel
get_by_kernel_id order kernel_id s = find_by_kernel kernel_id s.deleted (order s.by_id)

-- The store as an implementation of the interface.
unfoldable pub session_store : (Map Text Record → Map Text Record) → SessionStore KernelSessionStore
unfolding upsert update_state mark_deleted get_by_session_id get_by_kernel_id
session_store order = record {
  upsert = upsert;
  update_state = update_state;
  mark_deleted = mark_deleted;
  get_by_session_id = get_by_session_id;
  get_by_kernel_id = get_by_kernel_id order;
}
