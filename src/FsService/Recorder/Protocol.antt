-- ===== src/FsService/Recorder/Protocol.antt =====
-- The write-ahead protocol of the recorder.
use workspace_service.Base.{
  ℕ, ◌<◌, ◌≡◌, refl, ap, ◌∙◌, false, none, some, Text, text_eq_refl, lookup, lookup-insert_self,
  text_key, number_key, arith, Option-cases, inl, inr, Bool-cases, ◌⊎◌, ◌==◌, is_empty, codes,
}
use workspace_service.Errors.{Result, ok, err}
use workspace_service.File.{Intent, IntentStatus, IntentOp, NodeRecord}
use workspace_service.File.NodeType.{normalize_node_type}
use workspace_service.FileInfo.{Actor, FileInfo}
use workspace_service.Memory.Intents
use workspace_service.Memory.Intents.{FileIntentStore}
use workspace_service.Memory.Intents.Pending.{status_of}
use workspace_service.Memory.Intents.Statuses.{status-mark_done, status-mark_aborted}
use workspace_service.Memory.Nodes.{node_record, or_file, upsert_created_or_updated}
use workspace_service.FsService.Recorder.{
  NodeRecorder, to_node_actor, new_intent, enqueue, settle, finalize, mark_done, with_intent, run,
}
use workspace_service.FsService.Recovery.World.{World, memory_intents, memory_nodes}

-- Whatever the stores do, fail or not, run answers what the storage action answers in the state
-- that the enqueuing of the intent left: bookkeeping never turns a success into a failure or a
-- failure into a success.
pub run-answer :
    {W : Type 0} (r : NodeRecorder W) (id : Text) (op : IntentOp) (abs_path : Text) (actor : Actor)
    (node_type : Text) (action : W → Result FileInfo × W) (w : W)
    → (run (some r) id op abs_path actor node_type action w).0
      ≡ (action (enqueue r id op abs_path actor node_type w).1).0
unfolding run
run-answer r id op abs_path actor node_type action w =
    settle-answer r _ actor node_type (action (enqueue r id op abs_path actor node_type w).1)
  where
    settle-answer :
        {W : Type 0} (r : NodeRecorder W) (id : Text) (actor : Actor) (node_type : Text)
        (answer : Result FileInfo × W)
        → (settle r id actor node_type answer).0 ≡ answer.0
    settle-answer r id actor node_type (ok info, w) = refl
    settle-answer r id actor node_type (err e, w) = refl

-- The recorder of a process that keeps its stores in memory.
abbrev pub memory_recorder : NodeRecorder World
memory_recorder = record { nodes = some memory_nodes; intents = some memory_intents }

-- The row that a request's success leaves for an inode.
abbrev pub request_row : Actor → Text → ℕ → NodeRecord
request_row actor node_type n = record {
  inode_id = n;
  owner_uin = actor.owner_uin;
  uin = actor.uin;
  app_id = actor.app_id;
  workspace_id = actor.workspace_id;
  node_type = or_file (normalize_node_type node_type);
}

-- How the world stands behind a run whose action answered and left the world w.
abbrev pub Recorded : Text → Actor → Text → Result FileInfo × World → World → Type 0
Recorded id actor node_type (err e, w) w' =
    (status_of id w'.intents ≡ some IntentStatus.aborted) × (w'.nodes ≡ w.nodes)
Recorded id actor node_type (ok info, w) w' =
    ((info.inode_id ≡ 0) × (w' ≡ w))
    ⊎ ((0 < info.inode_id)
        × (status_of id w'.intents ≡ some IntentStatus.done)
        × (lookup info.inode_id w'.nodes.nodes ≡ some (request_row actor node_type info.inode_id)))

enqueue_pending :
    (now : ℕ) (i : Intent) (s : FileIntentStore)
    → s.enqueue_err ≡ none
    → ((Intents.enqueue now i s).0 ≡ none)
      × (status_of i.id (Intents.enqueue now i s).1 ≡ some IntentStatus.pending)
unfolding Intents.enqueue status_of
enqueue_pending now i s h = elim (Option-cases (lookup i.id s.intents)) [
  | inl unknown ↦ (
    ground arith,
    ground (
      arith,
      lookup-insert_self i.id
          (record i {
            status = IntentStatus.pending;
            last_error = codes "";
            updated_at = now;
            created_at = now;
          })
          s.intents,
    ),
  )
  | inr (j, known) ↦ (
    ground arith,
    ground (
      arith,
      lookup-insert_self i.id
          (record i { status = IntentStatus.pending; last_error = codes ""; updated_at = now })
          s.intents,
    ),
  )
]

-- Behind the enqueuing of a request the intent is stored and pending.
pub enqueue-pending :
    (id : Text) (op : IntentOp) (abs_path : Text) (actor : Actor) (node_type : Text) (w : World)
    → w.intents.enqueue_err ≡ none
    → ((enqueue memory_recorder id op abs_path actor node_type w).0 ≡ id)
      × (status_of id (enqueue memory_recorder id op abs_path actor node_type w).1.intents
          ≡ some IntentStatus.pending)
unfolding enqueue
enqueue-pending id op abs_path actor node_type w h =
    let (accepted, stored) =
      enqueue_pending w.now (new_intent id op abs_path actor node_type) w.intents h in
    (rw (accepted, enqueue) refl, stored)

settle-Recorded :
    (id : Text) (actor : Actor) (node_type : Text) (answer : Result FileInfo) (w : World)
    → is_empty id ≡ false
    → status_of id w.intents ≡ some IntentStatus.pending
    → Recorded id actor node_type
        (answer, w)
        (settle memory_recorder id actor node_type (answer, w)).1
unfolding settle finalize mark_done with_intent upsert_created_or_updated node_record to_node_actor
settle-Recorded id actor node_type (err e) w ne h =
    rw (ne, with_intent)
      (status-mark_aborted w.now id w.intents e.message id ∙ rw (text_eq_refl id, h) refl, refl)
settle-Recorded id actor node_type (ok info) w ne h = elim (Bool-cases (info.inode_id == 0)) [
  | inl unresolved ↦ inl (ground arith, rw (unresolved, finalize) refl)
  | inr inode ↦ inr (
    ground arith,
    rw (inode, ne, finalize)
        (status-mark_done w.now id w.intents id ∙ rw (text_eq_refl id, h) refl),
    rw (inode, ne, finalize) (lookup-insert_self info.inode_id _ w.nodes.nodes),
  )
]

-- A run over the stores in memory, whose Enqueue is not made to fail, with an id that is not
-- empty and an action that leaves the store of intents alone, ends as follows from the world that
-- the action left: if the action failed the intent is aborted and the rows of the nodes are
-- unchanged; if it succeeded with inode 0 nothing is changed; if it succeeded with another inode
-- the intent is done and the row of that inode holds the four identifiers of the actor and the
-- node type of the request, or file for a node type that is not known.
pub run-Recorded :
    (id : Text) (op : IntentOp) (abs_path : Text) (actor : Actor) (node_type : Text)
    (action : World → Result FileInfo × World) (w : World)
    → w.intents.enqueue_err ≡ none
    → is_empty id ≡ false
    → ((v : World) → (action v).1.intents ≡ v.intents)
    → Recorded id actor node_type
        (action (enqueue memory_recorder id op abs_path actor node_type w).1)
        (run (some memory_recorder) id op abs_path actor node_type action w).1
unfolding run
run-Recorded id op abs_path actor node_type action w h ne keeps =
    let (same, stored) = enqueue-pending id op abs_path actor node_type w h in
    let w1 = (enqueue memory_recorder id op abs_path actor node_type w).1 in
    rw same (
      settle-Recorded id actor node_type (action w1).0 (action w1).1 ne
        (ap (status_of id) (keeps w1) ∙ stored))
