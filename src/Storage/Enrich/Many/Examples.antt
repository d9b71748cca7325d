-- ===== src/Storage/Enrich/Many/Examples.antt =====
-- A run of enrichMany over the rows of the store in memory.
use mathlib.Core.Option.{some-injective}
use workspace_service.Base.{
  ℕ, ◌≡◌, refl, ap, subst, ◌∙◌, some, none, List, [], ◌∷◌, Text, codes, map, false, contains,
  lookup, number_key, if◌then◌else◌, ==_iff, arith,
}
use workspace_service.Errors.{ok, err, new_error}
use workspace_service.File.{NodeStore}
use workspace_service.FileInfo.{FileInfo}
use workspace_service.FsService.Resolve.Examples.{tenant}
use workspace_service.Identity.{normalize}
use workspace_service.Memory.Nodes.{lookup_by_inode_ids}
use workspace_service.Memory.Nodes.Examples.{one_row}
use workspace_service.Memory.Nodes.Laws.{asked, lookup-lookup_by_inode_ids}
use workspace_service.Storage.{WorkspaceFsClient, read_trash_meta, trash_dir_name}
use workspace_service.Storage.Enrich.{enrich_file_info}
use workspace_service.Storage.Enrich.Many.{enrich_many}
use workspace_service.Storage.Enrich.Many.Alike.{IsTable, enrich_many-eq}
use workspace_service.Storage.Examples.{client, full_disk}

-- The rows of a store in memory, which no call of the run changes.
abbrev rows : NodeStore (List Text)
rows = record {
  upsert_created_or_updated = λ m w. (none, w);
  mark_deleted = λ m w. (none, w);
  lookup_by_inode_ids = λ ids w. ok (lookup_by_inode_ids ids one_row);
}

abbrev with_rows_of : WorkspaceFsClient (List Text)
with_rows_of = record client {
  store = some rows;
  os = record full_disk { read_file = λ p w. err (new_error (codes "no such file")) };
}

asked-eq : (k : ℕ) (ids : List ℕ) → asked k ids ≡ contains k ids
unfolding asked contains
asked-eq k [] = refl
asked-eq k (j ∷ js) = ground (arith, asked-eq k js, ==_iff j k, ==_iff k j)

rows-IsTable : IsTable rows [] (λ id. lookup id one_row.nodes)
rows-IsTable ids = (
  lookup_by_inode_ids ids one_row,
  refl,
  λ id.
      lookup-lookup_by_inode_ids id ids one_row
      ∙ ap (λ b. if b then lookup id one_row.nodes else none) (asked-eq id ids),
)

every_store-IsTable :
    (s : NodeStore (List Text))
    → with_rows_of.store ≡ some s
    → IsTable s [] (λ id. lookup id one_row.nodes)
every_store-IsTable s e =
    subst (λ t. IsTable t [] (λ id. lookup id one_row.nodes)) (some-injective rows s e) rows-IsTable

no_meta :
    (name : Text)
    → read_trash_meta with_rows_of (normalize tenant) name []
      ≡ err (new_error (codes "no such file"))
unfolding read_trash_meta
no_meta name = refl

abbrev a_file_named : Text → ℕ → FileInfo
a_file_named name inode_id = record {
  name = name;
  path = codes "/mnt/jfs/app/ws/users/200/a";
  is_dir = false;
  size = 3;
  modify_time = 10;
  inode_id = inode_id;
  owner_uin = codes "";
  creator_uin = codes "";
  node_type = codes "";
  is_git_folder = false;
  in_recycle = false;
  origin_path = codes "";
}

abbrev listing : List FileInfo
listing = a_file_named (codes "a") 0 ∷ a_file_named (codes "b") 7 ∷ []

enrich_many-eq_example :
    enrich_many with_rows_of (normalize tenant) listing []
    ≡ map (λ info. enrich_file_info with_rows_of (normalize tenant) info []) listing
enrich_many-eq_example =
    enrich_many-eq with_rows_of [] (normalize tenant) (λ id. lookup id one_row.nodes) listing
      every_store-IsTable (no_meta trash_dir_name) (no_meta (codes "_meta"))
