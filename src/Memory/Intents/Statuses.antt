-- ===== src/Memory/Intents/Statuses.antt =====
-- The statuses of all intents after each operation of the store.
use workspace_service.Base.{
  ℕ, ◌≡◌, refl, Option, none, some, Text, text_eq, if◌then◌else◌, arith, ◌≤◌, ◌+◌, ◌∙◌,
}
use workspace_service.File.{IntentStatus}
use workspace_service.Memory.Intents.{FileIntentStore, mark_done, mark_aborted, increment_attempt}
use workspace_service.Memory.Intents.Pending.{
  status_of, pending_count, status_changed, status_kept, count_settled, count_settling_le,
  count_kept,
}

abbrev pub changed : IntentStatus → Option IntentStatus → Option IntentStatus
changed st none = none
changed st (some _) = some st

module _ (now : ℕ) (id : Text) (s : FileIntentStore) where
  pub status-mark_done :
      (j : Text)
      → status_of j (mark_done now id s).1
        ≡ (if text_eq id j then changed IntentStatus.done (status_of id s) else status_of j s)
  unfolding mark_done
  status-mark_done j = status_changed id _ s IntentStatus.done (λ i. refl) j ∙ ground arith

  pub status-mark_aborted :
      (reason j : Text)
      → status_of j (mark_aborted now id reason s).1
        ≡ (if text_eq id j then changed IntentStatus.aborted (status_of id s) else status_of j s)
  unfolding mark_aborted
  status-mark_aborted reason j =
      status_changed id _ s IntentStatus.aborted (λ i. refl) j ∙ ground arith

  pub status-increment_attempt :
      (e j : Text) → status_of j (increment_attempt now id e s).1 ≡ status_of j s
  unfolding increment_attempt
  status-increment_attempt e j = status_kept id _ s (λ i. refl) j

  -- Of an intent that is pending, either mark takes one from the count.
  pub count-mark_done :
      status_of id s ≡ some IntentStatus.pending
      → pending_count (mark_done now id s).1 + 1 ≡ pending_count s
  unfolding mark_done
  count-mark_done h = count_settled id _ s (λ i. refl) h

  pub count-mark_aborted :
      (reason : Text)
      → status_of id s ≡ some IntentStatus.pending
      → pending_count (mark_aborted now id reason s).1 + 1 ≡ pending_count s
  unfolding mark_aborted
  count-mark_aborted reason h = count_settled id _ s (λ i. refl) h

  pub count-mark_done_le : pending_count (mark_done now id s).1 ≤ pending_count s
  unfolding mark_done
  count-mark_done_le = count_settling_le id _ s (λ i. refl)

  pub count-mark_aborted_le :
      (reason : Text) → pending_count (mark_aborted now id reason s).1 ≤ pending_count s
  unfolding mark_aborted
  count-mark_aborted_le reason = count_settling_le id _ s (λ i. refl)

  pub count-increment_attempt :
      (e : Text) → pending_count (increment_attempt now id e s).1 ≡ pending_count s
  unfolding increment_attempt
  count-increment_attempt e = count_kept id _ s (λ i. refl)
