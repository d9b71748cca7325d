-- ===== src/Storage/Atomic/Examples.antt =====
-- A disk on which the laws of files hold, and a write on it.
use workspace_service.Base.{
  ◌≡◌, ◌≢◌, refl, ◌∙◌, ℕ, Option, none, some, List, [], ◌∷◌, Text, codes, text_eq_iff, text_key,
  Map, lookup, insert, delete, lookup-insert, lookup-delete, lookup-insert_self, arith,
}
use workspace_service.Errors.{Error, ok, new_error}
use workspace_service.File.{Outcome}
use workspace_service.Os.{Os}
use workspace_service.Storage.{WorkspaceFsClient}
use workspace_service.Storage.Atomic.{FileLaws, IsWhole, atomic_write_file-IsWhole}
use workspace_service.Storage.Writes.{atomic_write_file}

-- The content of each path.
abbrev Disk : Type 0
Disk = Map Text (List ℕ)

no_file : Error
no_file = new_error (codes "no such file")

unfoldable rename_on : Text → Text → Option (List ℕ) → Disk → Outcome Disk
unfolding insert delete
rename_on p q none w = (some no_file, w)
rename_on p q (some b) w = (none, insert q b (delete p w))

abbrev disk_os : Os Disk
disk_os = record {
  stat = λ p w. ok none;
  read_file = λ p w. ok [];
  read_dir = λ p w. ok (some []);
  walk = λ p w. [];
  mkdir_all = λ p w. (none, w);
  rename = λ p q w. rename_on p q (lookup p w) w;
  remove = λ p w. (none, delete p w);
  remove_all = λ p w. (none, delete p w);
  write_file = λ p b w. (none, insert p b w);
  create_temp = λ d p w. (ok (codes "/d/.a.wstmp-1"), w);
  write_temp = λ p b w. (none, insert p b w);
  sync_temp = λ p w. (none, w);
  close_temp = λ p w. (none, w);
  chmod = λ p w. (none, w);
}

lookup-rename_on :
    (p q : Text) (o : Option (List ℕ)) (w : Disk)
    → o ≡ lookup p w
    → (rename_on p q o w).0 ≡ none
    → lookup q (rename_on p q o w).1 ≡ lookup p w
unfolding rename_on
lookup-rename_on p q none w e came = ground arith
lookup-rename_on p q (some b) w e came = lookup-insert_self q b (delete p w) ∙ e

rename_on-failed :
    (p q r : Text) (o : Option (List ℕ)) (w : Disk) (e : Error)
    → (rename_on p q o w).0 ≡ some e
    → lookup r (rename_on p q o w).1 ≡ lookup r w
unfolding rename_on
rename_on-failed p q r none w e failed = refl
rename_on-failed p q r (some b) w e failed = ground arith

lookup-insert_elsewhere :
    (p q : Text) (b : List ℕ) (w : Disk) → p ≢ q → lookup q (insert p b w) ≡ lookup q w
lookup-insert_elsewhere p q b w apart = ground (arith, lookup-insert p q b w, text_eq_iff p q)

lookup-delete_elsewhere : (p q : Text) (w : Disk) → p ≢ q → lookup q (delete p w) ≡ lookup q w
lookup-delete_elsewhere p q w apart = ground (arith, lookup-delete p q w, text_eq_iff p q)

disk_laws : FileLaws disk_os lookup
disk_laws = record {
  write_elsewhere = lookup-insert_elsewhere;
  written = λ p b w e. lookup-insert_self p b w;
  synced = λ p q w. refl;
  closed = λ p q w. refl;
  allowed = λ p q w. refl;
  remove_elsewhere = lookup-delete_elsewhere;
  renamed = λ p q w. lookup-rename_on p q (lookup p w) w refl;
  not_renamed = λ p q r w. rename_on-failed p q r (lookup p w) w;
}

abbrev client : WorkspaceFsClient Disk
client = record {
  store = none;
  mount_root = codes "/d";
  os = disk_os;
  now = λ w. 0;
  encode_meta = λ m. m.original_path;
  decode_meta = λ b. ok (record { original_path = b; deleted_at = 0 });
  default_notebook = λ k. [];
}

abbrev before : Disk
before = (codes "/d/a", 1 ∷ []) ∷ []

names_apart : codes "/d/.a.wstmp-1" ≢ codes "/d/a"
names_apart e = ground (arith, e)

atomic_write_file-IsWhole_example :
    IsWhole client lookup disk_laws
      (codes "/d/a")
      (2 ∷ [])
      (lookup (codes "/d/a") before)
      (atomic_write_file client (codes "/d/a") (2 ∷ []) before)
atomic_write_file-IsWhole_example =
    atomic_write_file-IsWhole client lookup disk_laws (codes "/d/a") (codes "/d/.a.wstmp-1")
      (2 ∷ []) before before refl names_apart refl
