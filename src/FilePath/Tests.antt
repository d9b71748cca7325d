-- ===== src/FilePath/Tests.antt =====
-- Runs of the path functions on small inputs.
use workspace_service.Base.{◌≡◌, refl, codes, some, none, [], ◌∷◌}
use workspace_service.FilePath.{clean, join, base, dir, rel}

clean_relative : clean (codes "a//b/./../c/") ≡ codes "a/c"
unfolding clean
clean_relative = refl

clean_up : clean (codes "a/../../b") ≡ codes "../b"
unfolding clean
clean_up = refl

clean_rooted : clean (codes "/../a") ≡ codes "/a"
unfolding clean
clean_rooted = refl

join_skips : join (codes "" ∷ codes "a" ∷ codes "" ∷ codes "../b" ∷ []) ≡ codes "b"
unfolding join
join_skips = refl

base_last : base (codes "/a/b.ipynb//") ≡ codes "b.ipynb"
unfolding base
base_last = refl

dir_parent : dir (codes "/a/b/c") ≡ codes "/a/b"
unfolding dir
dir_parent = refl

rel_down : rel (codes "/mnt/ws") (codes "/mnt/ws/a/b") ≡ some (codes "a/b")
unfolding rel
rel_down = refl

rel_up : rel (codes "/mnt/ws/x/y") (codes "/mnt/other") ≡ some (codes "../../../other")
unfolding rel
rel_up = refl

rel_same : rel (codes "a") (codes "./a") ≡ some (codes ".")
unfolding rel
rel_same = refl

rel_mixed : rel (codes "a") (codes "/a") ≡ none
unfolding rel
rel_mixed = refl
