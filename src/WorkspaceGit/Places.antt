-- ===== src/WorkspaceGit/Places.antt =====
-- Where the meta data of a repository lie, and what a deletion removes.
use workspace_service.Base.{
  ◌≡◌, refl, sym, ap, ◌∙◌, false, true, some, List, [], ◌∷◌, ◌++◌, Text, text_eq, text_eq_refl,
  codes, is_empty, trim_space, has_prefix, contains, all, all-append, arith,
}
use workspace_service.Errors.{ok}
use workspace_service.FilePath.{
  separator, join, join_elements, clean, rel, rel_from, path_of, is_abs,
}
use workspace_service.FilePath.Elements.{is_plain}
use workspace_service.FilePath.Plain.{join_elements-append}
use workspace_service.Storage.Places.{absolute, absolute-append, clean-absolute, elements-absolute}
use workspace_service.WorkspaceGit.{leads_out, meta_dir_of, resolve_git_dir}

rel_from-append : (bs ts : List Text) → rel_from bs (bs ++ ts) ≡ some ts
unfolding rel_from
rel_from-append [] ts = refl
rel_from-append (b ∷ bs) ts = rw (text_eq_refl b) (rel_from-append bs ts)

rel-below :
    (m : Text) (ms : List Text) (p : Text) (ps : List Text)
    → all is_plain (m ∷ ms) ≡ true
    → all is_plain (p ∷ ps) ≡ true
    → rel (absolute (m ∷ ms)) (absolute ((m ∷ ms) ++ (p ∷ ps))) ≡ some (join_elements (p ∷ ps))
unfolding rel is_abs path_of
rel-below m ms p ps h k =
    rw
      (
        elements-absolute m ms h,
        elements-absolute m (ms ++ (p ∷ ps)) (ground (arith, all-append is_plain ms (p ∷ ps))),
        rel_from-append (m ∷ ms) (p ∷ ps),
      )
      refl

-- A path of plain elements leads into the directory.
leads_out-plain :
    (p : Text) (ps : List Text)
    → all is_plain (p ∷ ps) ≡ true
    → leads_out (join_elements (p ∷ ps)) ≡ false
unfolding leads_out join_elements is_plain text_eq has_prefix contains
leads_out-plain [] ps h = absurd (ground arith)
leads_out-plain (c ∷ []) [] h = ground arith
leads_out-plain (c ∷ d ∷ []) [] h = ground arith
leads_out-plain (c ∷ d ∷ e ∷ s) [] h = ground arith
leads_out-plain (c ∷ []) (q ∷ ps) h = ground arith
leads_out-plain (c ∷ d ∷ []) (q ∷ ps) h = ground arith
leads_out-plain (c ∷ d ∷ e ∷ s) (q ∷ ps) h = ground arith

join-three :
    (g : Text) (gs : List Text) (x y : Text)
    → join (absolute (g ∷ gs) ∷ x ∷ y ∷ [])
      ≡ clean (absolute (g ∷ gs) ++ (separator ∷ (x ++ (separator ∷ y))))
unfolding join join_elements
join-three g gs x y = refl

git_plain : is_plain (codes ".git") ≡ true
unfolding is_plain text_eq contains
git_plain = refl

-- The names of the git directory of a worktree, below the root of the meta data.
abbrev pub git_dir_names : List Text → List Text
git_dir_names names = names ++ (codes ".git" ∷ [])

join-git_dir :
    (g : Text) (gs : List Text) (p : Text) (ps : List Text)
    → all is_plain (g ∷ gs) ≡ true
    → all is_plain (p ∷ ps) ≡ true
    → join (absolute (g ∷ gs) ∷ join_elements (p ∷ ps) ∷ codes ".git" ∷ [])
      ≡ absolute ((g ∷ gs) ++ git_dir_names (p ∷ ps))
unfolding join_elements
join-git_dir g gs p ps h k =
    join-three g gs (join_elements (p ∷ ps)) (codes ".git")
    ∙ ap (λ s. clean (absolute (g ∷ gs) ++ (separator ∷ s)))
        (sym (join_elements-append p ps (codes ".git") []))
    ∙ ap clean (absolute-append g gs p (git_dir_names ps))
    ∙ clean-absolute g (gs ++ git_dir_names (p ∷ ps)) (
        ground (
          arith,
          all-append is_plain gs (git_dir_names (p ∷ ps)),
          all-append is_plain (p ∷ ps) (codes ".git" ∷ []),
          git_plain,
        ))

resolve_git_dir-meta :
    (mount meta worktree : Text)
    → is_empty (trim_space meta) ≡ false
    → is_empty (clean mount) ≡ false
    → resolve_git_dir mount meta worktree
      ≡ meta_dir_of (clean meta) (rel (clean mount) (clean worktree))
unfolding resolve_git_dir
resolve_git_dir-meta mount meta worktree h k = rw (h, k) refl

meta_dir_of-some :
    (meta r : Text)
    → leads_out r ≡ false
    → meta_dir_of meta (some r) ≡ ok (join (meta ∷ r ∷ codes ".git" ∷ []))
unfolding meta_dir_of
meta_dir_of-some meta r h = rw h refl

-- When mount root and root of the git meta data are absolute paths of plain elements, the latter
-- not blank, resolveGitDir takes a worktree that lies below the mount root by plain names to the
-- directory .git below the same names under the root of the meta data.
pub resolve_git_dir-eq :
    (m : Text) (ms : List Text) (g : Text) (gs : List Text) (p : Text) (ps : List Text)
    → all is_plain (m ∷ ms) ≡ true
    → all is_plain (g ∷ gs) ≡ true
    → all is_plain (p ∷ ps) ≡ true
    → is_empty (trim_space (absolute (g ∷ gs))) ≡ false
    → resolve_git_dir (absolute (m ∷ ms)) (absolute (g ∷ gs)) (absolute ((m ∷ ms) ++ (p ∷ ps)))
      ≡ ok (absolute ((g ∷ gs) ++ git_dir_names (p ∷ ps)))
resolve_git_dir-eq m ms g gs p ps h k l set =
    let mount : clean (absolute (m ∷ ms)) ≡ absolute (m ∷ ms) = clean-absolute m ms h in
    let worktree : all is_plain ((m ∷ ms) ++ (p ∷ ps)) ≡ true =
      ground (arith, all-append is_plain ms (p ∷ ps)) in
    resolve_git_dir-meta (absolute (m ∷ ms)) (absolute (g ∷ gs)) (absolute ((m ∷ ms) ++ (p ∷ ps)))
      set (ap is_empty mount)
    ∙ ap
        (λ s.
          meta_dir_of s (rel (clean (absolute (m ∷ ms))) (clean (absolute ((m ∷ ms) ++ (p ∷ ps))))))
        (clean-absolute g gs k)
    ∙ ap (λ s. meta_dir_of (absolute (g ∷ gs)) (rel s (clean (absolute ((m ∷ ms) ++ (p ∷ ps))))))
        mount
    ∙ ap (λ s. meta_dir_of (absolute (g ∷ gs)) (rel (absolute (m ∷ ms)) s))
        (clean-absolute m (ms ++ (p ∷ ps)) worktree)
    ∙ ap (meta_dir_of (absolute (g ∷ gs))) (rel-below m ms p ps h l)
    ∙ meta_dir_of-some (absolute (g ∷ gs)) (join_elements (p ∷ ps)) (leads_out-plain p ps l)
    ∙ ap ok (join-git_dir g gs p ps k l)
