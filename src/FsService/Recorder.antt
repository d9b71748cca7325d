-- ===== src/FsService/Recorder.antt =====
-- internal/usecase/fs/recorder.go: the storage write inside a write-ahead intent. The stores act on
-- a state W; `none` is a nil store or recorder.
pub mod Protocol
mod Examples
use workspace_service.Base.{
  ℕ, zero, Bool, Option, none, some, List, Text, codes, is_empty, if◌then◌else◌, ◌==◌,
}
use workspace_service.Errors.{Error, Result, ok, err}
use workspace_service.File.{
  NodeActor, NodeMutation, Intent, IntentStatus, IntentOp, IntentStore, NodeStore,
}
use workspace_service.FileInfo.{Actor, FileInfo}

pub record NodeRecorder (W : Type 0) : Type 0 where
  pub nodes : Option (NodeStore W)
  pub intents : Option (IntentStore W)

-- newNodeRecorder
unfoldable pub new_node_recorder :
    {W : Type 0} → Option (NodeStore W) → Option (IntentStore W) → Option (NodeRecorder W)
new_node_recorder none none = none
new_node_recorder none (some i) = some (record { nodes = none; intents = some i })
new_node_recorder (some n) i = some (record { nodes = some n; intents = i })

-- toNodeActor
unfoldable pub to_node_actor : Actor → NodeActor
to_node_actor actor = record {
  owner_uin = actor.owner_uin;
  uin = actor.uin;
  app_id = actor.app_id;
  workspace_id = actor.workspace_id;
}

-- The intent that enqueue builds, with the zero values of the fields that it leaves out. The empty
-- status of the source is not a value of the model: every store sets it to pending.
unfoldable pub new_intent : Text → IntentOp → Text → Actor → Text → Intent
unfolding to_node_actor
new_intent id op abs_path actor node_type = record {
  id = id;
  op = op;
  abs_path = abs_path;
  actor = to_node_actor actor;
  node_type = node_type;
  status = IntentStatus.pending;
  attempts = 0;
  last_error = codes "";
  created_at = 0;
  updated_at = 0;
}

module _ {W : Type 0} where
  -- nodeRecorder.enqueue. `id` is what NewIntentID draws.
  unfoldable pub enqueue : NodeRecorder W → Text → IntentOp → Text → Actor → Text → W → Text × W
  unfolding new_intent
  enqueue r id op abs_path actor node_type w = elim r.intents [
    | none ↦ (codes "", w)
    | some intents ↦
        let (e, w') = intents.enqueue (new_intent id op abs_path actor node_type) w in
        (elim e [ none ↦ id | some _ ↦ codes "" ], w')
  ]

  -- A call whose error the source drops, made only for an id that is not empty.
  with_intent : NodeRecorder W → Text → (IntentStore W → W → Option Error × W) → W → W
  with_intent r id call w =
      if is_empty id then w else elim r.intents [ none ↦ w | some intents ↦ (call intents w).1 ]

  mark_done : NodeRecorder W → Text → W → W
  unfolding with_intent
  mark_done r id w = with_intent r id (λ intents. intents.mark_done id) w

  -- nodeRecorder.finalize
  unfoldable pub finalize : NodeRecorder W → Text → ℕ → Actor → Text → W → W
  unfolding mark_done to_node_actor
  finalize r intent_id inode actor node_type w = elim r.nodes [
    | none ↦ mark_done r intent_id w
    | some nodes ↦
        if inode == 0
        then w
        else (let (e, w') =
              nodes.upsert_created_or_updated
                (record { inode_id = inode; actor = to_node_actor actor; node_type = node_type })
                w in
            elim e [ none ↦ mark_done r intent_id w' | some _ ↦ w' ])
  ]

  -- What run does with the storage action's answer.
  settle : NodeRecorder W → Text → Actor → Text → Result FileInfo × W → Result FileInfo × W
  unfolding with_intent finalize
  settle r intent_id actor node_type (ok info, w) =
      (ok info, finalize r intent_id info.inode_id actor node_type w)
  settle r intent_id actor node_type (err e, w) =
      (err e, with_intent r intent_id (λ intents. intents.mark_aborted intent_id e.message) w)

  -- nodeRecorder.run
  unfoldable pub run :
      Option (NodeRecorder W)
      → Text
      → IntentOp
      → Text
      → Actor
      → Text
      → (W → Result FileInfo × W)
      → W
      → Result FileInfo × W
  unfolding enqueue settle
  run none id op abs_path actor node_type action w = action w
  run (some r) id op abs_path actor node_type action w =
      let (intent_id, w') = enqueue r id op abs_path actor node_type w in
      settle r intent_id actor node_type (action w')
