-- ===== src/FsService/Recovery/Reconcile.antt =====
-- What Reconcile does to the stores of a process, on every answer of the storage.
use workspace_service.Base.{
  ℕ, ◌+◌, ◌≤◌, ◌<◌, ◌≡◌, refl, ◌∙◌, Bool, true, false, Option, some, Text, text_eq_refl, lookup,
  lookup-insert_self, text_key, number_key, arith, inl, inr, Bool-cases, ◌⊎◌, leb, ◌==◌,
}
use workspace_service.Errors.{Result, ok, err}
use workspace_service.File.{Intent, IntentStatus, NodeRecord}
use workspace_service.File.NodeType.{normalize_node_type}
use workspace_service.Memory.Intents.{FileIntentStore, update_intent}
use workspace_service.Memory.Intents
use workspace_service.Memory.Intents.Pending.{status_of}
use workspace_service.Memory.Intents.Statuses.{
  status-mark_done, status-mark_aborted, status-increment_attempt,
}
use workspace_service.Memory.Nodes.{node_record, or_file, upsert_created_or_updated}
use workspace_service.FsService.Recovery.{
  RecoverOutcome, completed, aborted, retried, reconcile, settle, retry_or_abort, record_node,
  complete,
}
use workspace_service.FsService.Recovery.World.{World, memory_recoverer}

abbrev pub status_in : Text → World → Option IntentStatus
status_in id w = status_of id w.intents

-- The row that an intent's recovery writes for an inode.
abbrev pub intent_row : Intent → ℕ → NodeRecord
intent_row i n = record {
  inode_id = n;
  owner_uin = i.actor.owner_uin;
  uin = i.actor.uin;
  app_id = i.actor.app_id;
  workspace_id = i.actor.workspace_id;
  node_type = or_file (normalize_node_type i.node_type);
}

-- What is true of the world before and after an intent that is known was reconciled.
abbrev pub Settled : Intent → World → RecoverOutcome → World → Type 0
Settled i w completed w' =
    (status_in i.id w' ≡ some IntentStatus.done)
    × ((n : ℕ) × (w.disk w.now i.abs_path ≡ ok (n, true))
        × (0 < n)
        × (lookup n w'.nodes.nodes ≡ some (intent_row i n)))
Settled i w aborted w' =
    (status_in i.id w' ≡ some IntentStatus.aborted)
    × (w'.nodes ≡ w.nodes)
    × (((n : ℕ) × (w.disk w.now i.abs_path ≡ ok (n, false))) ⊎ (5 ≤ i.attempts + 1))
Settled i w retried w' =
    (status_in i.id w' ≡ status_in i.id w) × (w'.nodes ≡ w.nodes) × (i.attempts + 1 < 5)

module _ (i : Intent) (w : World) {st : IntentStatus} (known : status_in i.id w ≡ some st) where
  marked_aborted :
      (reason : Text)
      → status_of i.id (Intents.mark_aborted w.now i.id reason w.intents).1
        ≡ some IntentStatus.aborted
  marked_aborted reason =
      status-mark_aborted w.now i.id w.intents reason i.id ∙ rw (text_eq_refl i.id, known) refl

  retry_or_abort-Settled :
      (reason : Text)
      → Settled i w
          (retry_or_abort memory_recoverer i reason w).0
          (retry_or_abort memory_recoverer i reason w).1
  unfolding retry_or_abort memory_recoverer
  retry_or_abort-Settled reason = elim (Bool-cases (leb 5 (i.attempts + 1))) [
    | inl over ↦ rw over (marked_aborted _, refl, inr (ground arith))
    | inr within ↦
        rw within (status-increment_attempt w.now i.id w.intents reason i.id, refl, ground arith)
  ]

  marked_done :
      (s : FileIntentStore)
      → s ≡ w.intents
      → status_of i.id (Intents.mark_done w.now i.id s).1 ≡ some IntentStatus.done
  marked_done s e = status-mark_done w.now i.id s i.id ∙ rw (text_eq_refl i.id, e, known) refl

  record_node-Settled :
      (n : ℕ)
      → w.disk w.now i.abs_path ≡ ok (n, true)
      → 0 < n
      → Settled i w (record_node memory_recoverer i n w).0 (record_node memory_recoverer i n w).1
  unfolding record_node memory_recoverer complete upsert_created_or_updated node_record
  record_node-Settled n found pos =
      (marked_done w.intents refl, (n, found, pos, lookup-insert_self n _ w.nodes.nodes))

  settle-Settled :
      (answer : Result (ℕ × Bool))
      → w.disk w.now i.abs_path ≡ answer
      → Settled i w (settle memory_recoverer i answer w).0 (settle memory_recoverer i answer w).1
  unfolding settle
  settle-Settled (err e) h = retry_or_abort-Settled _
  settle-Settled (ok (n, false)) h = unfold memory_recoverer in (marked_aborted _, refl, inl (n, h))
  settle-Settled (ok (n, true)) h = elim (Bool-cases (n == 0)) [
    | inl zero_inode ↦ rw zero_inode (retry_or_abort-Settled _)
    | inr inode ↦ rw inode (record_node-Settled n h (ground arith))
  ]

  -- Reconciling an intent that the store in memory knows completes, aborts or retries it.
  -- Completed: its status is done, the storage had the path with an inode above 0, and the row of
  -- that inode holds the four identifiers of the actor and the node type of the intent, or file
  -- for a node type that is not known. Aborted: its status is aborted, the rows are unchanged,
  -- and either the path was absent or this was at least the fifth attempt. Retried: its status
  -- and the rows are unchanged, and it had fewer than five attempts with this one.
  pub reconcile-Settled :
      Settled i w (reconcile memory_recoverer i w).0 (reconcile memory_recoverer i w).1
  unfolding reconcile memory_recoverer
  reconcile-Settled = settle-Settled (w.disk w.now i.abs_path) refl
