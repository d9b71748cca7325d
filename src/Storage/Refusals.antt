-- ===== src/Storage/Refusals.antt =====
-- What a move or a rename leaves standing at its destination.
use workspace_service.Base.{
  Bool, true, false, not, ◌&&◌, ◌||◌, ◌≡◌, refl, sym, ap, ◌∙◌, Bool-cases, Option-cases,
  if◌then◌else◌, inl, inr, Option, none, some, Text, codes,
}
use workspace_service.Errors.{Error, Result, ok, err, prefix_wrap}
use workspace_service.File.{NodeStore, NodeMutation, Outcome}
use workspace_service.FsService.Recorder.{to_node_actor}
use workspace_service.FileInfo.{Actor, FileInfo}
use workspace_service.FilePath.{dir}
use workspace_service.InodeRecord.{record_upsert}
use workspace_service.Os.{Os, Stat}
use workspace_service.Calls.{Call}
use workspace_service.Storage.{WorkspaceFsClient, after}
use workspace_service.Storage.Emptying.Cage.{caged_removal}
use workspace_service.Storage.Enrich.{build_enriched_file_info}
use workspace_service.Storage.Writes.{
  same_path, way_to, moved, rename_or_move, mark_row_deleted, as_it_is,
}

-- A file may take the place of a file and a directory that of a directory, with the leave to
-- overwrite; anything may go where nothing is.
unfoldable pub may_replace : Bool → Result (Option Stat) → Result (Option Stat) → Bool
may_replace overwrite here (ok none) = true
may_replace overwrite here (err e) = false
may_replace overwrite (ok (some a)) (ok (some b)) =
    overwrite && ((a.is_dir && b.is_dir) || (not a.is_dir && not b.is_dir))
may_replace overwrite (ok none) (ok (some b)) = false
may_replace overwrite (err e) (ok (some b)) = false

-- The files of the system with a rename that refuses to replace what may not be replaced.
unfoldable pub careful : {W : Type 0} → Bool → Os W → Os W
unfolding caged_removal may_replace
careful overwrite os = record os {
  rename =
      λ p q w. caged_removal (may_replace overwrite (os.stat p w) (os.stat q w)) (os.rename p q) w;
}

abbrev pub careful_client : {W : Type 0} → Bool → WorkspaceFsClient W → WorkspaceFsClient W
careful_client overwrite c = record c { os = careful overwrite c.os }

after_cong :
    {W A : Type 0} (shown : Error → Error) (o : Outcome W) (f g : Call W A)
    → ((v : W) → o ≡ (none, v) → f v ≡ g v)
    → after shown o f ≡ after shown o g
after_cong shown (none, v) f g h = h v refl
after_cong shown (some e, v) f g h = refl

passed_there :
    {W : Type 0} (h t ov : Bool) (e f : Error) (w v : W)
    → ◌≡◌ {A = Outcome W}
        (if (h && not t) || (not h && t)
          then (some e, w)
          else if ov
          then (none, w)
          else (some f, w))
        (none, v)
    → (w ≡ v) × ((ov && ((h && t) || (not h && not t))) ≡ true)
passed_there true true true e f w v p = (ap (λ o. o.1) p, refl)
passed_there false false true e f w v p = (ap (λ o. o.1) p, refl)
passed_there true true false e f w v p = absurd (cc (ap (λ o. o.0) p))
passed_there false false false e f w v p = absurd (cc (ap (λ o. o.0) p))
passed_there true false ov e f w v p = absurd (cc (ap (λ o. o.0) p))
passed_there false true ov e f w v p = absurd (cc (ap (λ o. o.0) p))

module _ {W : Type 0} (c : WorkspaceFsClient W)
    (free_stays : (p : Text) (w : W)
      → c.os.stat p w ≡ ok none
      → c.os.stat p (c.os.mkdir_all (dir p) w).1 ≡ ok none)
    (rows_apart : (store : NodeStore W) (mutation : NodeMutation) (p : Text) (w : W)
      → c.store ≡ some store
      → c.os.stat p (store.mark_deleted mutation w).1 ≡ c.os.stat p w)
    (actor : Actor) (src dest : Text) (overwrite : Bool) where
  marked_apart :
      (info : Stat) (p : Text) (w : W)
      → c.os.stat p (mark_row_deleted c actor info w) ≡ c.os.stat p w
  unfolding mark_row_deleted
  marked_apart info p w = elim (Option-cases c.store) [
    | inl without ↦ rw without refl
    | inr (store, with_store) ↦ rw with_store (
        rows_apart store
          (record { inode_id = info.inode; actor = to_node_actor actor; node_type = codes "" }) p w
          with_store)
  ]

  -- What lets a move through has a destination that may be replaced.
  way_to-may_replace :
      (here : Stat) (there : Result (Option Stat)) (w v : W)
      → c.os.stat src w ≡ ok (some here)
      → c.os.stat dest w ≡ there
      → way_to c dest overwrite here there w ≡ (none, v)
      → may_replace overwrite (c.os.stat src v) (c.os.stat dest v) ≡ true
  unfolding way_to may_replace
  way_to-may_replace here (ok none) w v s d passed =
      let made : (c.os.mkdir_all (dir dest) w).1 ≡ v = ap (λ o. o.1) passed in
      ap (may_replace overwrite (c.os.stat src v))
        (ap (c.os.stat dest) (sym made) ∙ free_stays dest w d)
  way_to-may_replace here (err e) w v s d passed = absurd (cc (ap (λ o. o.0) passed))
  way_to-may_replace here (ok (some there)) w v s d passed =
      let (same, fits) = passed_there here.is_dir there.is_dir overwrite _ _ w v passed in
      ap (λ a. may_replace overwrite a (c.os.stat dest v)) (ap (c.os.stat src) (sym same) ∙ s)
      ∙ ap (may_replace overwrite (ok (some here))) (ap (c.os.stat dest) (sym same) ∙ d)
      ∙ fits

  replaced :
      (here : Stat) (v : W)
      → may_replace overwrite (c.os.stat src v) (c.os.stat dest v) ≡ true
      → (careful overwrite c.os).rename src dest (mark_row_deleted c actor here v)
        ≡ c.os.rename src dest (mark_row_deleted c actor here v)
  unfolding careful caged_removal
  replaced here v h =
      let w : W = mark_row_deleted c actor here v in
      ap (λ b. caged_removal b (c.os.rename src dest) w)
        (ap (λ a. may_replace overwrite a (c.os.stat dest w)) (marked_apart here src v)
          ∙ ap (may_replace overwrite (c.os.stat src v)) (marked_apart here dest v)
          ∙ h)

  build_enriched-careful :
      (p : Text) (w : W)
      → build_enriched_file_info (careful_client overwrite c) actor p w
        ≡ build_enriched_file_info c actor p w
  unfolding build_enriched_file_info careful
  build_enriched-careful p w = refl

  finished :
      (w : W)
      → build_enriched_file_info
          (careful_client overwrite c)
          actor
          dest
          (record_upsert (careful_client overwrite c).os c.store actor dest w)
        ≡ build_enriched_file_info c actor dest (record_upsert c.os c.store actor dest w)
  unfolding build_enriched_file_info careful record_upsert
  finished w = refl

  step_of : WorkspaceFsClient W → Stat → Call W FileInfo
  step_of client here v =
      after (prefix_wrap (codes "move"))
        (client.os.rename src dest (mark_row_deleted client actor here v))
        λ w.
          build_enriched_file_info client actor dest
            (record_upsert client.os client.store actor dest w)

  marked-careful :
      (here : Stat) (v : W)
      → mark_row_deleted (careful_client overwrite c) actor here v ≡ mark_row_deleted c actor here v
  unfolding mark_row_deleted
  marked-careful here v = refl

  way_to-careful :
      (here : Stat) (w : W)
      → way_to
          (careful_client overwrite c)
          dest
          overwrite
          here
          ((careful overwrite c.os).stat dest w)
          w
        ≡ way_to c dest overwrite here (c.os.stat dest w) w
  unfolding way_to careful
  way_to-careful here w = refl

  step-careful :
      (here : Stat) (v : W)
      → may_replace overwrite (c.os.stat src v) (c.os.stat dest v) ≡ true
      → step_of (careful_client overwrite c) here v ≡ step_of c here v
  unfolding step_of
  step-careful here v h =
      ap
        (λ m. after (prefix_wrap (codes "move")) ((careful overwrite c.os).rename src dest m) λ w.
          build_enriched_file_info (careful_client overwrite c) actor dest
            (record_upsert (careful_client overwrite c).os c.store actor dest w))
        (marked-careful here v)
      ∙ ap
          (λ o. after (prefix_wrap (codes "move")) o λ w.
            build_enriched_file_info (careful_client overwrite c) actor dest
              (record_upsert (careful_client overwrite c).os c.store actor dest w))
          (replaced here v h)
      ∙ after_cong (prefix_wrap (codes "move")) _ _ _ λ w _. finished w

  moved-careful :
      (found : Result (Option Stat)) (w : W)
      → c.os.stat src w ≡ found
      → moved (careful_client overwrite c) actor src dest overwrite found w
        ≡ moved c actor src dest overwrite found w
  unfolding moved step_of
  moved-careful (ok none) w s = refl
  moved-careful (err e) w s = refl
  moved-careful (ok (some here)) w s = elim (Bool-cases (same_path src dest)) [
    | inl same ↦ rw same (build_enriched-careful src w)
    | inr other ↦ rw other (
        ap (λ o. after as_it_is o (step_of (careful_client overwrite c) here))
          (way_to-careful here w)
        ∙ after_cong as_it_is (way_to c dest overwrite here (c.os.stat dest w) w) _ _ λ v passed.
          step-careful here v (way_to-may_replace here (c.os.stat dest w) w v s refl passed))
  ]

  -- When the making of the parent directory of a free path leaves the path free and the marking
  -- of rows leaves what os.Stat tells of every path, renameOrMove, for every source and
  -- destination, with or without the leave to overwrite, answers the same and leaves the same
  -- state over files whose rename refuses to replace anything without that leave, and with it a
  -- file by a directory or a directory by a file.
  pub rename_or_move-careful :
      (w : W)
      → rename_or_move (careful_client overwrite c) actor src dest overwrite w
        ≡ rename_or_move c actor src dest overwrite w
  unfolding rename_or_move careful
  rename_or_move-careful w = moved-careful (c.os.stat src w) w refl
