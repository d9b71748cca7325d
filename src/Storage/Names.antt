-- ===== src/Storage/Names.antt =====
-- The names of the entries of the recycle bin.
use workspace_service.Base.{
  ℕ, ◌≡◌, refl, sym, ◌∙◌, [], ◌∷◌, ◌++◌, Text, codes, replace_all, append_assoc, arith,
}
use workspace_service.FilePath.{separator}
use workspace_service.Storage.{trash_entry_name}

replace_all-append :
    (old : ℕ) (new x y : Text)
    → replace_all old new (x ++ y) ≡ replace_all old new x ++ replace_all old new y
unfolding replace_all
replace_all-append old new [] y = refl
replace_all-append old new (c ∷ x) y = ground (
  arith,
  replace_all-append old new x y,
  append_assoc new (replace_all old new x) (replace_all old new y),
)

-- Two paths that differ only in that one has a slash where the other has two underscores get the
-- same name of an entry in the trash.
pub trash_entry_name-collides :
    (x y : Text)
    → trash_entry_name (x ++ (separator ∷ y)) ≡ trash_entry_name (x ++ (codes "__" ++ y))
unfolding trash_entry_name replace_all
trash_entry_name-collides x y =
    replace_all-append separator (codes "__") x (separator ∷ y)
    ∙ sym (replace_all-append separator (codes "__") x (codes "__" ++ y))
