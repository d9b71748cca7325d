-- ===== src/Storage/Emptying/Examples.antt =====
-- Runs of EmptyRecycleBin over the disk of the other examples, with two entries in the trash.
use workspace_service.Base.{
  ◌≡◌, refl, ap, subst, Option, none, some, List, [], ◌∷◌, Text, codes, trim_space, all, true,
  text_eq, contains,
}
use workspace_service.Errors.{Result, ok, err}
use workspace_service.FilePath.{join_elements}
use workspace_service.FilePath.Elements.{is_plain}
use workspace_service.FsService.Resolve.Examples.{tenant, tenant_plain}
use workspace_service.Identity.{normalize}
use workspace_service.Storage.{WorkspaceFsClient, user_trash_dir_abs}
use workspace_service.Storage.Emptying.{empty_recycle_bin}
use workspace_service.Storage.Emptying.Cage.{caged_client}
use workspace_service.Storage.Emptying.Confined.{empty_recycle_bin-caged}
use workspace_service.Storage.Examples.{client, full_disk, plain_names}

abbrev trashed : List Text
trashed = codes "a__b" ∷ codes "_meta" ∷ []

abbrev with_trash : WorkspaceFsClient (List Text)
with_trash = record client { os = record full_disk { read_dir = λ p w. ok (some trashed) } }

trashed_plain : all is_plain trashed ≡ true
unfolding is_plain text_eq contains
trashed_plain = refl

abbrev names_of : Result (Option (List Text)) → List Text
names_of (ok (some names)) = names
names_of (ok none) = []
names_of (err e) = []

empty_recycle_bin-caged_example :
    empty_recycle_bin
      (caged_client (user_trash_dir_abs with_trash (normalize tenant)) with_trash)
      (normalize tenant)
      []
    ≡ empty_recycle_bin with_trash (normalize tenant) []
unfolding join_elements is_plain
empty_recycle_bin-caged_example =
    empty_recycle_bin-caged with_trash (codes "mnt") (codes "jfs" ∷ []) (normalize tenant) [] refl
      plain_names tenant_plain
      (λ names e. subst (λ ns. all is_plain ns ≡ true) (ap names_of e) trashed_plain)

empty_recycle_bin_run : empty_recycle_bin with_trash (normalize tenant) [] ≡ (
  ok tt,
  codes "/mnt/jfs/app/ws/users/200/trash/_meta"
      ∷ codes "/mnt/jfs/app/ws/users/200/trash/_meta/a__b.json"
      ∷ codes "/mnt/jfs/app/ws/users/200/trash/a__b"
      ∷ [],
)
unfolding empty_recycle_bin normalize trim_space
empty_recycle_bin_run = refl
