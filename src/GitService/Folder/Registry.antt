-- ===== src/GitService/Folder/Registry.antt =====
-- What a job that is set changes in the registry.
use workspace_service.Base.{
  ◌≡◌, refl, arith, Text, text_eq, text_eq_refl, text_key, lookup-insert, if◌then◌else◌, some,
}
use workspace_service.GitService.Folder.{GitFolderJob, CloneJobRegistry, set, get}

pub get-set :
    (key other : Text) (job : GitFolderJob) (r : CloneJobRegistry)
    → get other (set key job r) ≡ (if text_eq key other then some job else get other r)
unfolding get set
get-set key other job r = ground (arith, lookup-insert key other (some job) r.jobs)

pub get-set_self :
    (key : Text) (job : GitFolderJob) (r : CloneJobRegistry) → get key (set key job r) ≡ some job
get-set_self key job r = rw (get-set key key job r, text_eq_refl key) refl
