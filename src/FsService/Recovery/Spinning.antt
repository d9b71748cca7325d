-- ===== src/FsService/Recovery/Spinning.antt =====
-- Recover drops the errors of the marks, and counts an intent as aborted all the same: with a store
-- that lists and does not mark, a full batch is scanned for ever.
use workspace_service.Base.{
  ℕ, zero, suc, ◌≡◌, refl, ap, Bool, true, false, ◌||◌, Option, none, some, List, [], ◌∷◌, Text,
  ltb, sym, subst, is_empty, length, All, codes,
}
use workspace_service.Errors.{Error, ok}
use workspace_service.File.{Intent}
use workspace_service.FsService.Recovery.{
  Recoverer, RecoveryStats, RecoverOutcome, is_progress, reconcile, settle, scan, recover_loop,
  count_outcome, aborted,
}

-- The target of the intent is not on the storage.
abbrev pub IsAbsent : {W : Type 0} → Recoverer W → W → Intent → Type 0
IsAbsent r w i = (n : ℕ) × (r.stat_inode i.abs_path w ≡ ok (n, false))

module _ {W : Type 0} (r : Recoverer W) (w : W) (e : Error)
    (fails : (id reason : Text) → r.intents.mark_aborted id reason w ≡ (some e, w))
    (running : r.ctx_err w ≡ none) where
  reconcile_absent : (i : Intent) → IsAbsent r w i → reconcile r i w ≡ (aborted, w)
  unfolding reconcile settle
  reconcile_absent i (n, h) =
      rw (h, settle, fails i.id (codes "target path absent on storage")) refl

  abbrev AfterScan : Bool → (RecoveryStats × Bool × Option Error) × W → Type 0
  AfterScan progressed ((total, progressed', stop), w') =
      (progressed' ≡ progressed) × (stop ≡ none) × (w' ≡ w)

  -- What a scan does behind its first step.
  abbrev scan_next :
      List Intent
      → RecoveryStats
      → Bool
      → RecoverOutcome × W
      → (RecoveryStats × Bool × Option Error) × W
  scan_next rest total progressed (o, w') = elim (r.ctx_err w') [
    | some stop ↦ ((count_outcome o total, is_progress o || progressed, some stop), w')
    | none ↦ scan r rest (count_outcome o total) (is_progress o || progressed) w'
  ]

  scan_absent :
      (batch : List Intent) (total : RecoveryStats)
      → All (IsAbsent r w) batch
      → AfterScan true (scan r batch total true w)
  unfolding scan
  scan_absent [] total h = (refl, refl, refl)
  scan_absent (i ∷ rest) total (a, h) =
      subst (AfterScan true) (sym (ap (scan_next rest total true) (reconcile_absent i a)))
        (rw (running, scan_next) (scan_absent rest (count_outcome aborted total) h))

  scan_absent_first :
      (batch : List Intent) (total : RecoveryStats)
      → All (IsAbsent r w) batch
      → is_empty batch ≡ false
      → AfterScan true (scan r batch total false w)
  unfolding scan
  scan_absent_first [] total h ne = cc
  scan_absent_first (i ∷ rest) total (a, h) ne =
      subst (AfterScan true) (sym (ap (scan_next rest total false) (reconcile_absent i a)))
        (rw (running, scan_next) (scan_absent rest (count_outcome aborted total) h))

  module _ (batch : List Intent) (lists : r.intents.list_pending r.batch_size w ≡ ok batch)
      (nonempty : is_empty batch ≡ false) (full : ltb (length batch) r.batch_size ≡ false)
      (absent : All (IsAbsent r w) batch) where
    -- With a store that lists a full batch of intents whose targets are absent, and whose
    -- MarkAborted fails and changes nothing, in a context that does not end, Recover never
    -- returns: no fuel is enough.
    pub recover_loop_spins : (fuel : ℕ) (total : RecoveryStats) → recover_loop r fuel total w ≡ none
    unfolding recover_loop
    recover_loop_spins zero total = refl
    recover_loop_spins (suc fuel) total =
        let (p, s, same) = scan_absent_first batch total absent nonempty in
        rw (lists, recover_loop, nonempty, s, p, full, same) (recover_loop_spins fuel _)
