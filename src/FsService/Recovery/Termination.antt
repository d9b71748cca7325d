-- ===== src/FsService/Recovery/Termination.antt =====
-- The scan over a batch, and why Recover comes to an end.
use workspace_service.Base.{
  ℕ, zero, suc, ◌≤◌, ◌<◌, ◌≡◌, refl, Bool, true, false, not, ◌||◌, Option, none, some, List, [],
  ◌∷◌, arith, Bool-cases, inl, inr, ltb, ◌∙◌, is_empty, length, All, All-map_lem, text_key,
}
use workspace_service.Errors.{Error}
use workspace_service.File.{Intent, IntentStatus}
use workspace_service.Memory.Intents
use workspace_service.Memory.Intents.{FileIntentStore}
use workspace_service.Memory.Intents.Pending.{status_of, pending_count}
use workspace_service.Memory.Intents.Listing.{IsKeyed, IsListed, list_pending-IsListed}
use workspace_service.FsService.Recovery.{
  RecoverOutcome, RecoveryStats, no_stats, is_progress, reconcile, scan, recover_loop, recover,
  count_outcome,
}
use workspace_service.FsService.Recovery.World.{World, memory_recoverer}
use workspace_service.FsService.Recovery.Steps.{WorldStep, reconcile-WorldStep}

abbrev pub IsPendingIn : World → Intent → Type 0
IsPendingIn w i = status_of i.id w.intents ≡ some IntentStatus.pending

-- What a scan changes: the count falls if there was progress, and the keys stay in order.
abbrev Scanned : World → Bool → (RecoveryStats × Bool × Option Error) × World → Type 0
Scanned w progressed ((total, progressed', stop), w') =
    (pending_count w'.intents ≤ pending_count w.intents)
    × (progressed ≡ false → progressed' ≡ true → pending_count w'.intents < pending_count w.intents)
    × (IsKeyed w.intents.intents → IsKeyed w'.intents.intents)

still_pending :
    (i : Intent) (w : World) (o : RecoverOutcome) (w' : World) (rest : List Intent)
    → is_progress o ≡ false
    → WorldStep i w (o, w')
    → All (IsPendingIn w) rest
    → All (IsPendingIn w') rest
still_pending i w o w' rest stuck step h =
    All-map_lem (IsPendingIn w) (IsPendingIn w') rest (λ j p. step.0.same_statuses stuck j.id ∙ p) h

-- One step and the scan of the rest, which is skipped when the context has ended.
step-Scanned :
    (i : Intent) (w : World) (o : RecoverOutcome) (w' : World) (total : RecoveryStats)
    (progressed : Bool) (stop : Option Error)
    (later : (RecoveryStats × Bool × Option Error) × World)
    → WorldStep i w (o, w')
    → (progressed ≡ false → IsPendingIn w i)
    → Scanned w' (is_progress o || progressed) later
    → Scanned w progressed
        (elim stop [ some e ↦ ((total, is_progress o || progressed, some e), w') | none ↦ later ])
step-Scanned i w o w' total progressed (some e) later (step, d, c) h l =
    (step.count_le, (λ a b. ground (arith, h a, step.count_drop)), step.keyed)
step-Scanned i w o w' total progressed none later (step, d, c) h (le, drop, keyed) = (
  omega (arith, step.count_le),
  (λ a b. elim (Bool-cases (is_progress o)) [
    | inl p ↦ omega (arith, step.count_drop p (h a))
    | inr q ↦ omega (arith, step.count_le, drop (ground arith) b)
  ]),
  λ k. keyed (step.keyed k),
)

still_pending_later :
    (i : Intent) (w : World) (o : RecoverOutcome) (w' : World) (rest : List Intent)
    (progressed : Bool)
    → WorldStep i w (o, w')
    → (progressed ≡ false → All (IsPendingIn w) (i ∷ rest))
    → (is_progress o || progressed) ≡ false
    → All (IsPendingIn w') rest
still_pending_later i w o w' rest progressed step h e =
    still_pending i w o w' rest (ground arith) step (h (ground arith)).1

scan-Scanned :
    (batch : List Intent) (total : RecoveryStats) (progressed : Bool) (w : World)
    → (progressed ≡ false → All (IsPendingIn w) batch)
    → Scanned w progressed (scan memory_recoverer batch total progressed w)
unfolding scan
scan-Scanned [] total progressed w h = (omega arith, (λ a b. absurd (cc (a, b))), λ k. k)
scan-Scanned (i ∷ rest) total progressed w h =
    let o = (reconcile memory_recoverer i w).0 in
    let w' = (reconcile memory_recoverer i w).1 in
    let later =
      scan-Scanned rest (count_outcome o total) (is_progress o || progressed) w'
        (still_pending_later i w o w' rest progressed (reconcile-WorldStep i w) h) in
    step-Scanned i w o w' (count_outcome o total) progressed (memory_recoverer.ctx_err w') _
      (reconcile-WorldStep i w) (λ e. (h e).0) later

listed_pending : (w : World) (i : Intent) → IsListed w.intents.intents i → IsPendingIn w i
unfolding status_of
listed_pending w i (found, p) = ground arith

batch_pending :
    (w : World)
    → IsKeyed w.intents.intents
    → All (IsPendingIn w) (Intents.list_pending memory_recoverer.batch_size w.intents)
batch_pending w k =
    All-map_lem (IsListed w.intents.intents) (IsPendingIn w) _ (listed_pending w)
      (list_pending-IsListed _ w.intents k).0

abbrev Ends {ℓ} : {A : Type ℓ} → Option A → Type ℓ
Ends {A = A} o = (r : A) × (o ≡ some r)

-- What Recover does behind a batch ends, if going on after progress does.
batch-Ends :
    (stop : Option Error) (progressed short : Bool) (total : RecoveryStats) (w : World)
    (next : Option ((RecoveryStats × Option Error) × World))
    → (progressed ≡ true → Ends next)
    → Ends (elim stop [
      | some e ↦ some ((total, some e), w)
      | none ↦ elim (not progressed || short) [ true ↦ some ((total, none), w) | false ↦ next ]
    ])
batch-Ends (some e) progressed short total w next h = (((total, some e), w), refl)
batch-Ends none false short total w next h = (((total, none), w), refl)
batch-Ends none true true total w next h = (((total, none), w), refl)
batch-Ends none true false total w next h = h refl

listing-Ends :
    (nothing : Bool) (total : RecoveryStats) (w : World)
    (next : Option ((RecoveryStats × Option Error) × World))
    → Ends next
    → Ends (elim nothing [ true ↦ some ((total, none), w) | false ↦ next ])
listing-Ends true total w next h = (((total, none), w), refl)
listing-Ends false total w next h = h

recover_loop_total :
    (fuel : ℕ) (total : RecoveryStats) (w : World)
    → IsKeyed w.intents.intents
    → pending_count w.intents < fuel
    → Ends (recover_loop memory_recoverer fuel total w)
unfolding recover_loop memory_recoverer
recover_loop_total zero total w k h = absurd (omega arith)
recover_loop_total (suc fuel) total w k h =
    let batch = Intents.list_pending 200 w.intents in
    let after = scan memory_recoverer batch total false w in
    let (le, drop, keyed) = scan-Scanned batch total false w (λ _. batch_pending w k) in
    listing-Ends (is_empty batch) total w _ (
      batch-Ends after.0.2 after.0.1 (ltb (length batch) 200) after.0.0 after.1
        (recover_loop memory_recoverer fuel after.0.0 after.1)
        (λ p. recover_loop_total fuel after.0.0 after.1 (keyed k) (omega (arith, drop refl p))))

-- Over a store in memory whose entries stand under the ids of their intents, Recover returns when
-- its fuel is above the number of pending intents, whatever the storage answers to each look at
-- it, which may differ from look to look, and whenever the context ends, which may be between any
-- two intents.
pub recover_total :
    (fuel : ℕ) (w : World)
    → IsKeyed w.intents.intents
    → pending_count w.intents < fuel
    → (r : (RecoveryStats × Option Error) × World) × (recover memory_recoverer fuel w ≡ some r)
unfolding recover
recover_total fuel w k h = recover_loop_total fuel no_stats w k h
