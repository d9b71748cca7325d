-- ===== src/Storage/Enrich/Many.antt =====
-- enrichMany of internal/infra/fs/enrich.go: a listing is enriched with one question to the store.
pub mod Alike
mod Examples
use workspace_service.Base.{
  ℕ, Bool, true, Option, none, some, List, [], ◌∷◌, Map, lookup, number_key, map, if◌then◌else◌,
  ◌==◌,
}
use workspace_service.Errors.{Result, ok, err}
use workspace_service.File.{NodeRecord, NodeStore}
use workspace_service.FileInfo.{Actor, FileInfo}
use workspace_service.FilePath.{base}
use workspace_service.Storage.{WorkspaceFsClient, is_under_trash, read_trash_meta}
use workspace_service.Storage.Enrich.{
  with_inode, with_row, with_node_type, with_git_folder, with_origin,
}

inode_ids : List FileInfo → List ℕ
inode_ids [] = []
inode_ids (f ∷ files) =
    let rest = inode_ids files in if f.inode_id == 0 then rest else f.inode_id ∷ rest

known_records : Result (Map ℕ NodeRecord) → Map ℕ NodeRecord
known_records (ok records) = records
known_records (err e) = []

module _ {W : Type 0} (c : WorkspaceFsClient W) where
  records_of : List ℕ → W → Map ℕ NodeRecord
  unfolding known_records
  records_of [] w = []
  records_of (id ∷ ids) w = elim c.store [
    | none ↦ []
    | some store ↦ known_records (store.lookup_by_inode_ids (id ∷ ids) w)
  ]

  -- Unlike that of one file, the enrichment of a listing takes every name for an entry.
  in_trash : Actor → FileInfo → W → FileInfo
  unfolding is_under_trash with_origin read_trash_meta base
  in_trash actor info w =
      if is_under_trash c actor info.path
      then with_origin c (record info { in_recycle = true })
          (read_trash_meta c actor (base info.path) w)
      else info

  one_of_many : Actor → Map ℕ NodeRecord → W → FileInfo → FileInfo
  unfolding with_row lookup with_node_type with_git_folder in_trash
  one_of_many actor records w info =
      in_trash actor
        (with_git_folder c (with_node_type c (with_row c info (lookup info.inode_id records))) w) w

  inode_filled : W → FileInfo → FileInfo
  unfolding with_inode
  inode_filled w info =
      if info.inode_id == 0 then with_inode c info (c.os.stat info.path w) else info

  -- WorkspaceFSClient.enrichMany
  unfoldable pub enrich_many : Actor → List FileInfo → W → List FileInfo
  unfolding inode_ids records_of one_of_many inode_filled
  enrich_many actor files w =
      let filled : List FileInfo = map (inode_filled w) files in
      map (one_of_many actor (records_of (inode_ids filled) w) w) filled
