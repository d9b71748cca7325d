-- ===== src/Memory/Nodes/Laws.antt =====
-- A lookup of several inodes agrees with the stored rows.
use workspace_service.Base.{
  ℕ, ◌≡◌, refl, Bool, false, ◌||◌, Option, none, some, List, [], ◌∷◌, Map, lookup, lookup-insert,
  number_key, ◌∙◌, ◌==◌, ==_iff, arith, if◌then◌else◌,
}
use workspace_service.File.{NodeRecord}
use workspace_service.Memory.Nodes.{FileNodeStore, lookup_loop, add_found, lookup_by_inode_ids}

unfoldable pub asked : ℕ → List ℕ → Bool
asked k [] = false
asked k (j ∷ js) = j == k || asked k js

lookup-add_found :
    (id k : ℕ) (o : Option NodeRecord) (out : Map ℕ NodeRecord)
    → lookup k (add_found id o out)
      ≡ (elim o [ none ↦ lookup k out | some rec ↦ (if id == k then some rec else lookup k out) ])
unfolding add_found
lookup-add_found id k none out = refl
lookup-add_found id k (some rec) out = lookup-insert id k rec out

or_else : Option NodeRecord → Option NodeRecord → Option NodeRecord
or_else none b = b
or_else (some a) b = some a

lookup-lookup_loop :
    (k : ℕ) (ids : List ℕ) (s : FileNodeStore) (out : Map ℕ NodeRecord)
    → lookup k (lookup_loop ids s out)
      ≡ (if asked k ids then or_else (lookup k s.nodes) (lookup k out) else lookup k out)
unfolding lookup_loop asked or_else
lookup-lookup_loop k [] s out = refl
lookup-lookup_loop k (id ∷ ids) s out =
    lookup-lookup_loop k ids s (add_found id (lookup id s.nodes) out)
    ∙ ground (
      arith,
      lookup-add_found id k (lookup id s.nodes) out,
      ==_iff id k,
      or_else_idem (lookup k s.nodes) (lookup k out),
    )
  where
    or_else_idem : (a b : Option NodeRecord) → or_else a (or_else a b) ≡ or_else a b
    or_else_idem none b = refl
    or_else_idem (some a) b = refl

-- LookupByInodeIDs answers, for every inode, its stored row if the inode was asked for, and no
-- row otherwise.
pub lookup-lookup_by_inode_ids :
    (k : ℕ) (ids : List ℕ) (s : FileNodeStore)
    → lookup k (lookup_by_inode_ids ids s) ≡ (if asked k ids then lookup k s.nodes else none)
unfolding lookup_by_inode_ids or_else
lookup-lookup_by_inode_ids k ids s = lookup-lookup_loop k ids s [] ∙ ground arith
