-- ===== src/FsService/Recovery.antt =====
-- internal/usecase/fs/recovery.go: the scan that settles the intents that a crash left pending.
pub mod World
pub mod Reconcile
pub mod Steps
pub mod Termination
pub mod Spinning
mod Examples
use workspace_service.Base.{
  ℕ, zero, suc, ◌+◌, Bool, true, false, not, ◌||◌, Option, none, some, List, [], ◌∷◌, ◌++◌, Text,
  codes, ltb, leb, length, if◌then◌else◌, ◌==◌, is_empty,
}
use workspace_service.Errors.{Error, Result, ok, err}
use workspace_service.File.{Intent, IntentStore, NodeStore}

-- defaultRecoveryBatch
abbrev pub default_recovery_batch : ℕ
default_recovery_batch = 200

-- defaultRecoveryMaxTries
abbrev pub default_recovery_max_tries : ℕ
default_recovery_max_tries = 5

-- `stat_inode` is the StorageInspector, `ctx_err` the state of the context.
pub record Recoverer (W : Type 0) : Type 0 where
  pub intents : IntentStore W
  pub nodes : Option (NodeStore W)
  pub stat_inode : Text → W → Result (ℕ × Bool)
  pub ctx_err : W → Option Error
  pub batch_size : ℕ
  pub max_tries : ℕ

-- NewRecoverer, for a store and an inspector that are there.
unfoldable pub new_recoverer :
    {W : Type 0}
    → IntentStore W
    → Option (NodeStore W)
    → (Text → W → Result (ℕ × Bool))
    → (W → Option Error)
    → Recoverer W
new_recoverer intents nodes stat_inode ctx_err = record {
  intents = intents;
  nodes = nodes;
  stat_inode = stat_inode;
  ctx_err = ctx_err;
  batch_size = default_recovery_batch;
  max_tries = default_recovery_max_tries;
}

pub record RecoveryStats : Type 0 where
  pub scanned : ℕ
  pub completed : ℕ
  pub aborted : ℕ
  pub retried : ℕ

abbrev pub no_stats : RecoveryStats
no_stats = record { scanned = 0; completed = 0; aborted = 0; retried = 0 }

pub data RecoverOutcome : Type 0 where
  completed : RecoverOutcome
  aborted : RecoverOutcome
  retried : RecoverOutcome

unfoldable pub count_outcome : RecoverOutcome → RecoveryStats → RecoveryStats
count_outcome completed t = record t { scanned = t.scanned + 1; completed = t.completed + 1 }
count_outcome aborted t = record t { scanned = t.scanned + 1; aborted = t.aborted + 1 }
count_outcome retried t = record t { scanned = t.scanned + 1; retried = t.retried + 1 }

abbrev pub is_progress : RecoverOutcome → Bool
is_progress completed = true
is_progress aborted = true
is_progress retried = false

module _ {W : Type 0} (r : Recoverer W) where
  -- Recoverer.retryOrAbort
  unfoldable pub retry_or_abort : Intent → Text → W → RecoverOutcome × W
  retry_or_abort intent reason w =
      if leb r.max_tries (intent.attempts + 1)
      then (
        aborted,
        (r.intents.mark_aborted intent.id (codes "max attempts exceeded: " ++ reason) w).1,
      )
      else (retried, (r.intents.increment_attempt intent.id reason w).1)

  complete : Intent → W → RecoverOutcome × W
  complete intent w = (completed, (r.intents.mark_done intent.id w).1)

  record_node : Intent → ℕ → W → RecoverOutcome × W
  unfolding complete retry_or_abort
  record_node intent inode w = elim r.nodes [
    | none ↦ complete intent w
    | some nodes ↦
        let (e, w') =
          nodes.upsert_created_or_updated
            (record { inode_id = inode; actor = intent.actor; node_type = intent.node_type }) w in
        elim e [
          | none ↦ complete intent w'
          | some up_err ↦ retry_or_abort intent (codes "upsert node: " ++ up_err.message) w'
        ]
  ]

  settle : Intent → Result (ℕ × Bool) → W → RecoverOutcome × W
  unfolding retry_or_abort record_node
  settle intent (err e) w = retry_or_abort intent (codes "stat target: " ++ e.message) w
  settle intent (ok (inode, false)) w =
      (aborted, (r.intents.mark_aborted intent.id (codes "target path absent on storage") w).1)
  settle intent (ok (inode, true)) w =
      if inode == 0
      then retry_or_abort intent (codes "inode unresolved for existing path") w
      else record_node intent inode w

  -- Recoverer.reconcile
  unfoldable pub reconcile : Intent → W → RecoverOutcome × W
  unfolding settle
  reconcile intent w = settle intent (r.stat_inode intent.abs_path w) w

  -- The inner loop of Recover over one batch: the totals, whether there was progress, and the error
  -- of the context, if that ended the loop.
  unfoldable pub scan :
      List Intent → RecoveryStats → Bool → W → (RecoveryStats × Bool × Option Error) × W
  scan [] total progressed w = ((total, progressed, none), w)
  scan (intent ∷ rest) total progressed w =
      let (outcome, w') = reconcile intent w in
      let total' = count_outcome outcome total in
      let progressed' = is_progress outcome || progressed in
      elim (r.ctx_err w') [
        | some e ↦ ((total', progressed', some e), w')
        | none ↦ scan rest total' progressed' w'
      ]

  -- The outer loop of Recover, on fuel; `none` means that the fuel ran out.
  unfoldable pub recover_loop : ℕ → RecoveryStats → W → Option ((RecoveryStats × Option Error) × W)
  recover_loop zero total w = none
  recover_loop (suc fuel) total w = elim (r.intents.list_pending r.batch_size w) [
    | err e ↦ some ((total, some e), w)
    | ok pending ↦ elim (is_empty pending) [
      | true ↦ some ((total, none), w)
      | false ↦
          let ((total', progressed, stop), w') = scan pending total false w in
          elim stop [
            | some e ↦ some ((total', some e), w')
            | none ↦ elim (not progressed || ltb (length pending) r.batch_size) [
              | true ↦ some ((total', none), w')
              | false ↦ recover_loop fuel total' w'
            ]
          ]
    ]
  ]

  -- Recoverer.Recover, without its log line
  unfoldable pub recover : ℕ → W → Option ((RecoveryStats × Option Error) × W)
  unfolding recover_loop scan count_outcome reconcile
  recover fuel w = recover_loop fuel no_stats w
