-- ===== src/FsService/Recovery/Examples.antt =====
-- Runs and instances of the recovery scan.
use workspace_service.Base.{
  ◌≡◌, refl, ℕ, zero, suc, codes, List, [], ◌∷◌, true, false, none, some, Option, All, length,
  arith, is_empty, ltb, lookup, text_eq, text_key, ◌<◌,
}
use workspace_service.Errors.{ok, Error}
use workspace_service.File.{Intent, IntentStatus, create_file}
use workspace_service.File.NodeType.{file}
use workspace_service.Memory.Intents.Pending.{status_of, pending_count}
use workspace_service.Memory.Intents.Listing.{IsKeyed}
use workspace_service.Memory.Nodes.{new_file_node_store}
use workspace_service.FsService.Recovery.{
  Recoverer, RecoveryStats, no_stats, recover_loop, reconcile, recover,
}
use workspace_service.FsService.Recovery.World.{World, memory_recoverer}
use workspace_service.FsService.Recovery.Reconcile.{Settled, status_in, reconcile-Settled}
use workspace_service.FsService.Recovery.Termination.{recover_total}
use workspace_service.FsService.Recovery.Spinning.{recover_loop_spins, IsAbsent}

abbrev crashed : Intent
crashed = record {
  id = codes "id";
  op = create_file;
  abs_path = codes "/mnt/a";
  actor = record {
    owner_uin = codes "100";
    uin = codes "200";
    app_id = codes "app";
    workspace_id = codes "ws";
  };
  node_type = file;
  status = IntentStatus.pending;
  attempts = 0;
  last_error = codes "";
  created_at = 1;
  updated_at = 1;
}

-- The process crashed behind the storage write.
abbrev crashed_world : World
crashed_world = record {
  now = 7;
  intents = record {
    seq = 1;
    order = (codes "id", 1) ∷ [];
    intents = (codes "id", crashed) ∷ [];
    enqueue_err = none;
  };
  nodes = new_file_node_store;
  disk = λ t p. ok (42, true);
  cancelled = λ t. none;
}

crashed_known : status_in crashed.id crashed_world ≡ some IntentStatus.pending
unfolding status_of lookup text_eq
crashed_known = refl

reconcile-Settled_example :
    Settled crashed crashed_world
      (reconcile memory_recoverer crashed crashed_world).0
      (reconcile memory_recoverer crashed crashed_world).1
reconcile-Settled_example = reconcile-Settled crashed crashed_world crashed_known

crashed-IsKeyed : IsKeyed crashed_world.intents.intents
unfolding lookup
crashed-IsKeyed = (refl, refl, tt)

crashed_count : pending_count crashed_world.intents < 2
unfolding pending_count
crashed_count = omega arith

recover_total_example :
    (r : (RecoveryStats × Option Error) × World) × (recover memory_recoverer 2 crashed_world
      ≡ some r)
recover_total_example = recover_total 2 crashed_world crashed-IsKeyed crashed_count

-- A store that lists and fails to mark.
abbrev stuck_error : Error
stuck_error = record { message = codes "read only"; chain = [] }

replicate : ℕ → Intent → List Intent
replicate zero i = []
replicate (suc n) i = i ∷ replicate n i

abbrev stuck : Recoverer (Unit {0})
stuck = record {
  intents = record {
    enqueue = λ i w. (none, w);
    mark_done = λ id w. (some stuck_error, w);
    mark_aborted = λ id reason w. (some stuck_error, w);
    increment_attempt = λ id e w. (some stuck_error, w);
    list_pending = λ limit w. ok (replicate limit crashed);
  };
  nodes = none;
  stat_inode = λ p w. ok (0, false);
  ctx_err = λ w. none;
  batch_size = 200;
  max_tries = 5;
}

replicate-IsAbsent : (n : ℕ) → All (IsAbsent stuck tt) (replicate n crashed)
unfolding replicate
replicate-IsAbsent zero = tt
replicate-IsAbsent (suc n) = ((0, refl), replicate-IsAbsent n)

replicate_nonempty : is_empty (replicate 200 crashed) ≡ false
unfolding replicate
replicate_nonempty = refl

replicate_full : ltb (length (replicate 200 crashed)) 200 ≡ false
unfolding replicate
replicate_full = refl

recover_loop_spins_example : recover_loop stuck 1000000 no_stats tt ≡ none
recover_loop_spins_example =
    recover_loop_spins stuck tt stuck_error (λ id reason. refl) refl (replicate 200 crashed) refl
      replicate_nonempty replicate_full (replicate-IsAbsent 200) 1000000 no_stats
