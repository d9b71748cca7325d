-- ===== src/FsService/Recovery/World.antt =====
-- The state that the recorder and the recovery scan act on in a process: the stores in memory, a
-- clock, the storage as the inspector sees it, and the context. The clock goes on with every change
-- of the intents, so that two intents of a scan may find any two storages, and the context may end
-- between them.
use workspace_service.Base.{ℕ, suc, Bool, Option, some, Text}
use workspace_service.Errors.{Error, Result, ok}
use workspace_service.File.{IntentStore, NodeStore}
use workspace_service.Memory.Intents
use workspace_service.Memory.Intents.{FileIntentStore}
use workspace_service.Memory.Nodes
use workspace_service.Memory.Nodes.{FileNodeStore}
use workspace_service.FsService.Recovery.{Recoverer, new_recoverer}

pub record World : Type 0 where
  pub now : ℕ
  pub intents : FileIntentStore
  pub nodes : FileNodeStore
  -- the answer of StatInode for a path at a time, and the error of the context at a time
  pub disk : ℕ → Text → Result (ℕ × Bool)
  pub cancelled : ℕ → Option Error

abbrev on_intents : World → Option Error × FileIntentStore → Option Error × World
on_intents w (e, s) = (e, record w { intents = s; now = suc w.now })

abbrev on_nodes : World → Option Error × FileNodeStore → Option Error × World
on_nodes w (e, s) = (e, record w { nodes = s })

abbrev pub memory_intents : IntentStore World
memory_intents = record {
  enqueue = λ i w. on_intents w (Intents.enqueue w.now i w.intents);
  mark_done = λ id w. on_intents w (Intents.mark_done w.now id w.intents);
  mark_aborted = λ id reason w. on_intents w (Intents.mark_aborted w.now id reason w.intents);
  increment_attempt = λ id e w. on_intents w (Intents.increment_attempt w.now id e w.intents);
  list_pending = λ limit w. ok (Intents.list_pending limit w.intents);
}

abbrev pub memory_nodes : NodeStore World
memory_nodes = record {
  upsert_created_or_updated = λ m w. on_nodes w (Nodes.upsert_created_or_updated m w.nodes);
  mark_deleted = λ m w. on_nodes w (Nodes.mark_deleted m w.nodes);
  lookup_by_inode_ids = λ ids w. ok (Nodes.lookup_by_inode_ids ids w.nodes);
}

-- The recoverer of a process that keeps its stores in memory.
unfoldable pub memory_recoverer : Recoverer World
unfolding new_recoverer
memory_recoverer =
    new_recoverer memory_intents (some memory_nodes) (λ p w. w.disk w.now p)
      (λ w. w.cancelled w.now)
