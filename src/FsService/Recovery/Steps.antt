-- ===== src/FsService/Recovery/Steps.antt =====
-- What one step of the recovery scan changes in the store of intents, and what it leaves alone.
use workspace_service.Base.{
  ℕ, ◌+◌, ◌≤◌, ◌≡◌, refl, ap, Bool, true, false, Option, none, some, Text, text_eq, text_eq_iff,
  if◌then◌else◌, arith, Bool-cases, inl, inr, leb, ◌==◌, ◌∙◌,
}
use workspace_service.Errors.{Result, ok, err}
use workspace_service.File.{Intent, IntentStatus}
use workspace_service.Memory.Intents
use workspace_service.Memory.Intents.{FileIntentStore, update_intent}
use workspace_service.Memory.Intents.Pending.{status_of, pending_count}
use workspace_service.Memory.Intents.Statuses.{
  changed, status-mark_done, status-mark_aborted, status-increment_attempt, count-mark_done,
  count-mark_aborted, count-mark_done_le, count-mark_aborted_le, count-increment_attempt,
}
use workspace_service.Memory.Intents.Listing.{IsKeyed, update_intent-IsKeyed}
use workspace_service.Memory.Nodes.{upsert_created_or_updated}
use workspace_service.FsService.Recovery.{
  RecoverOutcome, completed, aborted, retried, is_progress, reconcile, settle, retry_or_abort,
  record_node, complete,
}
use workspace_service.FsService.Recovery.World.{World, memory_recoverer}

-- An intent that is known and not pending any more.
abbrev pub IsClosed : Option IntentStatus → Type 0
IsClosed none = ⊥
IsClosed (some IntentStatus.pending) = ⊥
IsClosed (some IntentStatus.done) = Unit
IsClosed (some IntentStatus.aborted) = Unit

pub record Step (id : Text) (o : RecoverOutcome) (s s' : FileIntentStore) : Type 0 where
  pub count_le : pending_count s' ≤ pending_count s
  pub count_drop :
      is_progress o ≡ true
      → status_of id s ≡ some IntentStatus.pending
      → pending_count s' + 1 ≡ pending_count s
  pub same_statuses : is_progress o ≡ false → (j : Text) → status_of j s' ≡ status_of j s
  pub stays_closed : (j : Text) → IsClosed (status_of j s) → IsClosed (status_of j s')
  pub others : (j : Text) → text_eq id j ≡ false → status_of j s' ≡ status_of j s
  pub keyed : IsKeyed s.intents → IsKeyed s'.intents

IsClosed-changed :
    (st : IntentStatus) (o p : Option IntentStatus) (b : Bool)
    → IsClosed (some st)
    → (b ≡ true → o ≡ p)
    → IsClosed p
    → IsClosed (if b then changed st o else p)
IsClosed-changed st o p false h e c = c
IsClosed-changed st o none true h e c = absurd c
IsClosed-changed st o (some q) true h e c = rw (e refl) h

module _ (now : ℕ) (id : Text) (s : FileIntentStore) where
  mark_done-Step : Step id completed s (Intents.mark_done now id s).1
  mark_done-Step = record {
    count_le = count-mark_done_le now id s;
    count_drop = λ _ h. count-mark_done now id s h;
    same_statuses = λ h. cc;
    stays_closed = λ j c. rw (status-mark_done now id s j) (
        IsClosed-changed IntentStatus.done (status_of id s) (status_of j s) (text_eq id j) tt
          (λ e. ap (λ k. status_of k s) ((text_eq_iff id j).0 e)) c);
    others = λ j h. status-mark_done now id s j ∙ rw h refl;
    keyed = λ h. unfold Intents.mark_done in update_intent-IsKeyed id _ s (λ i. refl) h;
  }

  mark_aborted-Step : (reason : Text) → Step id aborted s (Intents.mark_aborted now id reason s).1
  mark_aborted-Step reason = record {
    count_le = count-mark_aborted_le now id s reason;
    count_drop = λ _ h. count-mark_aborted now id s reason h;
    same_statuses = λ h. cc;
    stays_closed = λ j c. rw (status-mark_aborted now id s reason j) (
        IsClosed-changed IntentStatus.aborted (status_of id s) (status_of j s) (text_eq id j) tt
          (λ e. ap (λ k. status_of k s) ((text_eq_iff id j).0 e)) c);
    others = λ j h. status-mark_aborted now id s reason j ∙ rw h refl;
    keyed = λ h. unfold Intents.mark_aborted in update_intent-IsKeyed id _ s (λ i. refl) h;
  }

  increment_attempt-Step : (e : Text) → Step id retried s (Intents.increment_attempt now id e s).1
  increment_attempt-Step e = record {
    count_le = rw (count-increment_attempt now id s e) (omega arith);
    count_drop = λ h. cc;
    same_statuses = λ _ j. status-increment_attempt now id s e j;
    stays_closed = λ j c. rw (status-increment_attempt now id s e j) c;
    others = λ j h. status-increment_attempt now id s e j;
    keyed = λ h. unfold Intents.increment_attempt in update_intent-IsKeyed id _ s (λ i. refl) h;
  }

-- A step of the world: of its store of intents, with the storage and the context left alone.
abbrev pub WorldStep : Intent → World → RecoverOutcome × World → Type 0
WorldStep i w (o, w') =
    Step i.id o w.intents w'.intents × (w'.disk ≡ w.disk) × (w'.cancelled ≡ w.cancelled)

module _ (i : Intent) (w : World) where
  retry_or_abort-WorldStep :
      (reason : Text) → WorldStep i w (retry_or_abort memory_recoverer i reason w)
  unfolding retry_or_abort memory_recoverer
  retry_or_abort-WorldStep reason = elim (Bool-cases (leb 5 (i.attempts + 1))) [
    | inl over ↦ rw over (mark_aborted-Step w.now i.id w.intents _, refl, refl)
    | inr within ↦ rw within (increment_attempt-Step w.now i.id w.intents reason, refl, refl)
  ]

  settle-WorldStep :
      (answer : Result (ℕ × Bool)) → WorldStep i w (settle memory_recoverer i answer w)
  unfolding settle
  settle-WorldStep (err e) = retry_or_abort-WorldStep _
  settle-WorldStep (ok (n, false)) =
      unfold memory_recoverer in (mark_aborted-Step w.now i.id w.intents _, refl, refl)
  settle-WorldStep (ok (n, true)) = elim (Bool-cases (n == 0)) [
    | inl zero_inode ↦ rw zero_inode (retry_or_abort-WorldStep _)
    | inr inode ↦ rw inode (
        unfold record_node memory_recoverer complete upsert_created_or_updated in
        (mark_done-Step w.now i.id w.intents, refl, refl))
  ]

  pub reconcile-WorldStep : WorldStep i w (reconcile memory_recoverer i w)
  unfolding reconcile
  reconcile-WorldStep = settle-WorldStep (memory_recoverer.stat_inode i.abs_path w)
