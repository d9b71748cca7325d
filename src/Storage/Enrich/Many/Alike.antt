-- ===== src/Storage/Enrich/Many/Alike.antt =====
-- A listing is enriched as its files are one by one, when the store is a table.
use workspace_service.Base.{
  ℕ, Bool, true, false, Bool-cases, inl, inr, ◌||◌, ◌≡◌, refl, sym, ap, ◌∙◌, Option, none, some,
  List, [], ◌∷◌, Text, codes, Map, lookup, number_key, map, all, contains, text_eq, text_eq_iff,
  if◌then◌else◌, ◌==◌, ==_iff, arith,
}
use workspace_service.Errors.{Error, ok, err}
use workspace_service.File.{NodeRecord, NodeStore}
use workspace_service.FileInfo.{Actor, FileInfo}
use workspace_service.FilePath.{base}
use workspace_service.Storage.{WorkspaceFsClient, trash_dir_name, is_under_trash, read_trash_meta}
use workspace_service.Storage.Enrich.{
  with_row, with_rows, with_stored, with_node_type, with_git_folder, with_origin, with_recycle,
  enrich_file_info,
}
use workspace_service.Storage.Enrich.Many.{
  inode_ids, records_of, known_records, in_trash, one_of_many, inode_filled, enrich_many,
}

-- The store answers, for the inodes that are asked for, what a table holds.
abbrev pub IsTable : {W : Type 0} → NodeStore W → W → (ℕ → Option NodeRecord) → Type 0
IsTable {W} store w table =
    (ids : List ℕ)
    → (records : Map ℕ NodeRecord) × (store.lookup_by_inode_ids ids w ≡ ok records)
      × ((id : ℕ) → lookup id records ≡ (if contains id ids then table id else none))

-- The inode of the file is among those that are asked for, unless it has none.
abbrev is_asked : List ℕ → FileInfo → Bool
is_asked ids info = info.inode_id == 0 || contains info.inode_id ids

is_asked_more :
    (id : ℕ) (ids : List ℕ) (files : List FileInfo)
    → all (is_asked ids) files ≡ true
    → all (is_asked (id ∷ ids)) files ≡ true
unfolding contains
is_asked_more id ids [] h = refl
is_asked_more id ids (f ∷ files) h = ground (arith, is_asked_more id ids files)

inode_ids_asked : (files : List FileInfo) → all (is_asked (inode_ids files)) files ≡ true
unfolding inode_ids contains
inode_ids_asked [] = refl
inode_ids_asked (f ∷ files) = ground (
  arith,
  inode_ids_asked files,
  is_asked_more f.inode_id (inode_ids files) files,
  ==_iff f.inode_id f.inode_id,
)

inode_ids_nonzero : (files : List FileInfo) → contains 0 (inode_ids files) ≡ false
unfolding inode_ids contains
inode_ids_nonzero [] = refl
inode_ids_nonzero (f ∷ files) = ground (arith, inode_ids_nonzero files)

module _ {W : Type 0} (c : WorkspaceFsClient W) (w : W) where
  -- What is found for a file that may have no inode.
  row_of : (ℕ → Option NodeRecord) → ℕ → Option NodeRecord
  row_of table id = if id == 0 then none else table id

  records_of-none : (ids : List ℕ) → c.store ≡ none → records_of c ids w ≡ []
  unfolding records_of
  records_of-none [] e = refl
  records_of-none (id ∷ ids) e = rw e refl

  with_stored-none : (info : FileInfo) → c.store ≡ none → with_stored c info w ≡ info
  unfolding with_stored
  with_stored-none info e = elim (Bool-cases (info.inode_id == 0)) [
    | inl z ↦ rw z refl
    | inr z ↦ rw (z, e) refl
  ]

  records_of-some :
      (store : NodeStore W) (table : ℕ → Option NodeRecord) (ids : List ℕ) (id : ℕ)
      → c.store ≡ some store
      → IsTable store w table
      → lookup id (records_of c ids w) ≡ (if contains id ids then table id else none)
  unfolding records_of known_records contains lookup
  records_of-some store table [] id e h = refl
  records_of-some store table (i ∷ ids) id e h =
      let (records, answered, found) = h (i ∷ ids) in rw (e, answered) (found id)

  with_stored-some :
      (store : NodeStore W) (table : ℕ → Option NodeRecord) (info : FileInfo)
      → c.store ≡ some store
      → IsTable store w table
      → with_stored c info w ≡ with_row c info (row_of table info.inode_id)
  unfolding with_stored with_rows row_of with_row contains
  with_stored-some store table info e h =
      let (records, answered, found) = h (info.inode_id ∷ []) in
      let same : (info.inode_id == info.inode_id) ≡ true =
        (==_iff info.inode_id info.inode_id).1 refl in
      elim (Bool-cases (info.inode_id == 0)) [
        | inl z ↦ rw z refl
        | inr z ↦ rw (z, e, answered) (ap (with_row c info) (found info.inode_id ∙ rw same refl))
      ]

  row_of-asked :
      (table : ℕ → Option NodeRecord) (ids : List ℕ) (id : ℕ)
      → contains 0 ids ≡ false
      → (id == 0 || contains id ids) ≡ true
      → (if contains id ids then table id else none) ≡ row_of table id
  unfolding row_of
  row_of-asked table ids id z asked = elim (Bool-cases (id == 0)) [
    | inl none_there ↦
        let unasked : contains id ids ≡ false =
          ap (λ i. contains i ids) ((==_iff id 0).0 none_there) ∙ z in
        rw (unasked, none_there) refl
    | inr there ↦
        let found : contains id ids ≡ true = ground (arith, asked, there) in rw (found, there) refl
  ]

  -- The row that the listing finds for a file is the one that the file alone finds.
  with_row-records_of :
      (store : Option (NodeStore W)) (table : ℕ → Option NodeRecord) (ids : List ℕ)
      (info : FileInfo)
      → c.store ≡ store
      → ((s : NodeStore W) → store ≡ some s → IsTable s w table)
      → contains 0 ids ≡ false
      → is_asked ids info ≡ true
      → with_row c info (lookup info.inode_id (records_of c ids w)) ≡ with_stored c info w
  unfolding with_row lookup
  with_row-records_of none table ids info e h z asked =
      ap (λ rs. with_row c info (lookup info.inode_id rs)) (records_of-none ids e)
      ∙ sym (with_stored-none info e)
  with_row-records_of (some s) table ids info e h z asked =
      ap (with_row c info) (
        records_of-some s table ids info.inode_id e (h s refl)
        ∙ row_of-asked table ids info.inode_id z asked)
      ∙ sym (with_stored-some s table info e (h s refl))

  -- Nothing is known of a name that is no entry of the trash.
  with_origin-no_entry :
      (actor : Actor) (info : FileInfo) (name : Text) {e f : Error}
      → read_trash_meta c actor trash_dir_name w ≡ err e
      → read_trash_meta c actor (codes "_meta") w ≡ err f
      → (text_eq name trash_dir_name || text_eq name (codes "_meta")) ≡ true
      → with_origin c info (read_trash_meta c actor name w) ≡ info
  unfolding with_origin
  with_origin-no_entry actor info name h k special =
      elim (Bool-cases (text_eq name trash_dir_name)) [
        | inl t ↦
            ap (with_origin c info)
              (ap (λ n. read_trash_meta c actor n w) ((text_eq_iff name trash_dir_name).0 t) ∙ h)
        | inr t ↦ ap (with_origin c info) (
            ap (λ n. read_trash_meta c actor n w)
              ((text_eq_iff name (codes "_meta")).0 (ground (arith, special, t)))
            ∙ k)
      ]

  origin_or_none :
      (actor : Actor) (info : FileInfo) (name : Text) {e f : Error}
      → read_trash_meta c actor trash_dir_name w ≡ err e
      → read_trash_meta c actor (codes "_meta") w ≡ err f
      → with_origin c info (read_trash_meta c actor name w) ≡ (
          if text_eq name trash_dir_name || text_eq name (codes "_meta")
          then info
          else with_origin c info (read_trash_meta c actor name w))
  origin_or_none actor info name h k =
      elim (Bool-cases (text_eq name trash_dir_name || text_eq name (codes "_meta"))) [
        | inl special ↦ rw special (with_origin-no_entry actor info name h k special)
        | inr entry ↦ rw entry refl
      ]

  in_trash-eq :
      (actor : Actor) (info : FileInfo) {e f : Error}
      → read_trash_meta c actor trash_dir_name w ≡ err e
      → read_trash_meta c actor (codes "_meta") w ≡ err f
      → in_trash c actor info w ≡ with_recycle c actor info w
  unfolding in_trash with_recycle
  in_trash-eq actor info h k =
      ap (λ i. if is_under_trash c actor info.path then i else info)
        (origin_or_none actor (record info { in_recycle = true }) (base info.path) h k)

  one_of_many-eq :
      (actor : Actor) (table : ℕ → Option NodeRecord) (ids : List ℕ) (info : FileInfo) {e f : Error}
      → ((s : NodeStore W) → c.store ≡ some s → IsTable s w table)
      → read_trash_meta c actor trash_dir_name w ≡ err e
      → read_trash_meta c actor (codes "_meta") w ≡ err f
      → contains 0 ids ≡ false
      → is_asked ids (inode_filled c w info) ≡ true
      → one_of_many c actor (records_of c ids w) w (inode_filled c w info)
        ≡ enrich_file_info c actor info w
  unfolding one_of_many enrich_file_info inode_filled
  one_of_many-eq actor table ids info h t m z asked =
      let known : FileInfo = inode_filled c w info in
      ap (λ i. in_trash c actor (with_git_folder c (with_node_type c i) w) w)
        (with_row-records_of c.store table ids known refl h z asked)
      ∙ in_trash-eq actor (with_git_folder c (with_node_type c (with_stored c known w)) w) t m

  listed-eq :
      (actor : Actor) (table : ℕ → Option NodeRecord) (ids : List ℕ) (files : List FileInfo)
      {e f : Error}
      → ((s : NodeStore W) → c.store ≡ some s → IsTable s w table)
      → read_trash_meta c actor trash_dir_name w ≡ err e
      → read_trash_meta c actor (codes "_meta") w ≡ err f
      → contains 0 ids ≡ false
      → all (is_asked ids) (map (inode_filled c w) files) ≡ true
      → map (one_of_many c actor (records_of c ids w) w) (map (inode_filled c w) files)
        ≡ map (λ info. enrich_file_info c actor info w) files
  listed-eq actor table ids [] h t m z asked = refl
  listed-eq actor table ids (info ∷ files) h t m z asked =
      rw
        (
          one_of_many-eq actor table ids info h t m z (ground (arith, asked)),
          listed-eq actor table ids files h t m z (ground (arith, asked)),
        )
        refl

  -- When the store, if there is one, answers for the inodes that are asked for what some table
  -- holds, and no meta data can be read for the names "trash" and "_meta", enrichMany, which asks
  -- the store once, makes of every list of files what enrichFileInfo makes of each of them, which
  -- asks the store for each.
  pub enrich_many-eq :
      (actor : Actor) (table : ℕ → Option NodeRecord) (files : List FileInfo) {e f : Error}
      → ((s : NodeStore W) → c.store ≡ some s → IsTable s w table)
      → read_trash_meta c actor trash_dir_name w ≡ err e
      → read_trash_meta c actor (codes "_meta") w ≡ err f
      → enrich_many c actor files w ≡ map (λ info. enrich_file_info c actor info w) files
  unfolding enrich_many
  enrich_many-eq actor table files h t m =
      let filled : List FileInfo = map (inode_filled c w) files in
      listed-eq actor table (inode_ids filled) files h t m (inode_ids_nonzero filled)
        (inode_ids_asked filled)
