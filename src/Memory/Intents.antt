-- ===== src/Memory/Intents.antt =====
-- internal/infra/persistence/memory/file_intent_store.go. The time of a call is an argument.
pub mod Listing
pub mod Pending
pub mod Statuses
mod Examples
use workspace_service.Base.{
  ℕ, zero, suc, ◌+◌, Bool, true, false, ◌&&◌, Option, none, some, List, [], ◌∷◌, Text, codes, Map,
  lookup, insert, values, length, take, ltb, if◌then◌else◌, text_key,
}
use workspace_service.Errors.{Error}
use workspace_service.File.{Intent, IntentStatus, is_pending, Outcome}
use workspace_service.File

pub record FileIntentStore : Type 0 where
  pub seq : ℕ
  pub order : Map Text ℕ
  pub intents : Map Text Intent
  -- set by a test, to make Enqueue fail
  pub enqueue_err : Option Error

-- NewFileIntentStore
abbrev pub new_file_intent_store : FileIntentStore
new_file_intent_store = record { seq = 0; order = []; intents = []; enqueue_err = none }

-- The intent as Enqueue stores it.
fresh_intent : ℕ → Intent → Intent
fresh_intent now intent = record intent {
  status = IntentStatus.pending;
  last_error = codes "";
  updated_at = now;
}

enqueue_known : ℕ → Intent → FileIntentStore → FileIntentStore
unfolding fresh_intent insert
enqueue_known now intent s = record s {
  intents = insert intent.id (fresh_intent now intent) s.intents;
}

enqueue_new : ℕ → Intent → FileIntentStore → FileIntentStore
unfolding fresh_intent insert
enqueue_new now intent s = record s {
  seq = s.seq + 1;
  order = insert intent.id (s.seq + 1) s.order;
  intents = insert intent.id (record (fresh_intent now intent) { created_at = now }) s.intents;
}

-- FileIntentStore.Enqueue
unfoldable pub enqueue : ℕ → Intent → FileIntentStore → Outcome FileIntentStore
unfolding enqueue_known enqueue_new lookup
enqueue now intent s = elim s.enqueue_err [
  | some e ↦ (some e, s)
  | none ↦ (
    none,
    elim (lookup intent.id s.intents) [
      | some _ ↦ enqueue_known now intent s
      | none ↦ enqueue_new now intent s
    ],
  )
]

-- Changes the intent of an id that is known.
unfoldable pub update_intent : Text → (Intent → Intent) → FileIntentStore → FileIntentStore
unfolding lookup insert
update_intent id f s = elim (lookup id s.intents) [
  | none ↦ s
  | some intent ↦ record s { intents = insert id (f intent) s.intents }
]

-- FileIntentStore.MarkDone
unfoldable pub mark_done : ℕ → Text → FileIntentStore → Outcome FileIntentStore
unfolding update_intent
mark_done now id s =
    (none, update_intent id (λ i. record i { status = IntentStatus.done; updated_at = now }) s)

-- FileIntentStore.MarkAborted
unfoldable pub mark_aborted : ℕ → Text → Text → FileIntentStore → Outcome FileIntentStore
unfolding update_intent
mark_aborted now id reason s = (
  none,
  update_intent id
      (λ i. record i { status = IntentStatus.aborted; last_error = reason; updated_at = now }) s,
)

-- FileIntentStore.IncrementAttempt
unfoldable pub increment_attempt : ℕ → Text → Text → FileIntentStore → Outcome FileIntentStore
unfolding update_intent
increment_attempt now id last_err s = (
  none,
  update_intent id
      (λ i. record i { attempts = i.attempts + 1; last_error = last_err; updated_at = now }) s,
)

-- s.order[id], 0 for an id that is not there
unfoldable pub order_of : Map Text ℕ → Text → ℕ
unfolding lookup
order_of order id = elim (lookup id order) [ none ↦ 0 | some n ↦ n ]

pending_of : List Intent → List Intent
pending_of [] = []
pending_of (i ∷ is) = let rest = pending_of is in if is_pending i.status then i ∷ rest else rest

-- sort.Slice by the order of the ids
insert_sorted : Map Text ℕ → Intent → List Intent → List Intent
unfolding order_of
insert_sorted order i [] = i ∷ []
insert_sorted order i (j ∷ js) =
    let later = j ∷ insert_sorted order i js in
    if ltb (order_of order j.id) (order_of order i.id) then later else i ∷ j ∷ js

sort_by_order : Map Text ℕ → List Intent → List Intent
unfolding insert_sorted
sort_by_order order [] = []
sort_by_order order (i ∷ is) = insert_sorted order i (sort_by_order order is)

-- pending[:limit], for a limit above 0 that is exceeded
cut : ℕ → List Intent → List Intent
cut limit is = if ltb 0 limit && ltb limit (length is) then take limit is else is

-- FileIntentStore.ListPending. The map is walked in the order of its list.
unfoldable pub list_pending : ℕ → FileIntentStore → List Intent
unfolding cut sort_by_order pending_of
list_pending limit s = cut limit (sort_by_order s.order (pending_of (values s.intents)))

-- FileIntentStore.Get
unfoldable pub get : Text → FileIntentStore → Option Intent
unfolding lookup
get id s = lookup id s.intents
