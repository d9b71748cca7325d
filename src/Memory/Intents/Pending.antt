-- ===== src/Memory/Intents/Pending.antt =====
-- What the operations of the store do to the intents of an id, and to the number of pending ones.
use workspace_service.Base.{
  ℕ, ◌+◌, ◌≤◌, ◌≡◌, refl, false, Option, none, some, [], ◌∷◌, Text, text_eq, text_eq_iff, Map,
  lookup, insert, lookup-insert, text_key, if◌then◌else◌, arith, Option-cases, inl, inr,
}
use workspace_service.File.{Intent, IntentStatus, is_pending}
use workspace_service.Memory.Intents.{FileIntentStore, update_intent}

-- The status of an intent that is known.
unfoldable pub status_of : Text → FileIntentStore → Option IntentStatus
status_of id s = elim (lookup id s.intents) [ none ↦ none | some i ↦ some i.status ]

abbrev pub pending_weight : Map Text Intent → ℕ
pending_weight [] = 0
pending_weight ((k, i) ∷ m) = (if is_pending i.status then 1 else 0) + pending_weight m

-- The number of pending intents.
unfoldable pub pending_count : FileIntentStore → ℕ
pending_count s = pending_weight s.intents

abbrev pub heft : Intent → ℕ
heft i = if is_pending i.status then 1 else 0

weight-insert :
    (k : Text) (i j : Intent) (m : Map Text Intent)
    → lookup k m ≡ some i
    → pending_weight (insert k j m) + heft i ≡ pending_weight m + heft j
unfolding lookup insert
weight-insert k i j [] h = cc
weight-insert k i j ((l, v) ∷ m) h = ground (arith, weight-insert k i j m)

-- A change of an intent that is known, and nothing else, changes the count by its weight.
count-update_intent :
    (id : Text) (f : Intent → Intent) (s : FileIntentStore) (i : Intent)
    → lookup id s.intents ≡ some i
    → pending_count (update_intent id f s) + heft i ≡ pending_count s + heft (f i)
unfolding pending_count update_intent
count-update_intent id f s i h = rw (h, update_intent) (weight-insert id i (f i) s.intents h)

update_intent_unknown :
    (id : Text) (f : Intent → Intent) (s : FileIntentStore)
    → lookup id s.intents ≡ none
    → update_intent id f s ≡ s
unfolding update_intent
update_intent_unknown id f s h = rw (h, update_intent) refl

-- The intent of an id after a change.
pub lookup-update_intent :
    (id j : Text) (f : Intent → Intent) (s : FileIntentStore)
    → lookup j (update_intent id f s).intents ≡ (
        if text_eq id j
        then (elim (lookup id s.intents) [ none ↦ none | some i ↦ some (f i) ])
        else lookup j s.intents)
unfolding update_intent
lookup-update_intent id j f s = elim (Option-cases (lookup id s.intents)) [
  | inl e ↦ ground (arith, text_eq_iff id j)
  | inr (i, e) ↦ ground (arith, text_eq_iff id j, lookup-insert id j (f i) s.intents)
]

module _ (id : Text) (f : Intent → Intent) (s : FileIntentStore) where
  -- Settling an intent that is pending leaves one pending intent less.
  pub count_settled :
      ((i : Intent) → is_pending (f i).status ≡ false)
      → status_of id s ≡ some IntentStatus.pending
      → pending_count (update_intent id f s) + 1 ≡ pending_count s
  unfolding status_of
  count_settled settles h = elim (Option-cases (lookup id s.intents)) [
    | inl e ↦ ground arith
    | inr (i, e) ↦ ground (arith, settles i, count-update_intent id f s i)
  ]

  -- A change that makes no intent pending does not raise the count.
  pub count_settling_le :
      ((i : Intent) → is_pending (f i).status ≡ false)
      → pending_count (update_intent id f s) ≤ pending_count s
  count_settling_le settles = elim (Option-cases (lookup id s.intents)) [
    | inl e ↦ rw (update_intent_unknown id f s e) (omega arith)
    | inr (i, e) ↦ ground (arith, settles i, count-update_intent id f s i)
  ]

  -- A change that keeps the status keeps the count, and the status of every intent.
  pub count_kept :
      ((i : Intent) → (f i).status ≡ i.status)
      → pending_count (update_intent id f s) ≡ pending_count s
  count_kept keeps = elim (Option-cases (lookup id s.intents)) [
    | inl e ↦ rw (update_intent_unknown id f s e) refl
    | inr (i, e) ↦ ground (arith, keeps i, count-update_intent id f s i)
  ]

  pub status_kept :
      ((i : Intent) → (f i).status ≡ i.status)
      → (j : Text) → status_of j (update_intent id f s) ≡ status_of j s
  unfolding status_of
  status_kept keeps j = elim (Option-cases (lookup id s.intents)) [
    | inl e ↦ rw (update_intent_unknown id f s e) refl
    | inr (i, e) ↦ ground (arith, keeps i, lookup-update_intent id j f s, text_eq_iff id j)
  ]

  -- The status of every intent after a change of one.
  pub status_changed :
      (st : IntentStatus)
      → ((i : Intent) → (f i).status ≡ st)
      → (j : Text)
      → status_of j (update_intent id f s) ≡ (
          if text_eq id j
          then (elim (status_of id s) [ none ↦ none | some _ ↦ some st ])
          else status_of j s)
  unfolding status_of
  status_changed st becomes j = elim (Option-cases (lookup id s.intents)) [
    | inl e ↦ ground (arith, text_eq_iff id j, lookup-update_intent id j f s)
    | inr (i, e) ↦ ground (arith, becomes i, lookup-update_intent id j f s, text_eq_iff id j)
  ]
