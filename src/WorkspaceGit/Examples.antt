-- ===== src/WorkspaceGit/Examples.antt =====
-- Runs of the git client's paths, of its clone and of its deletion.
use workspace_service.Base.{
  ◌≡◌, refl, none, List, [], ◌∷◌, ◌++◌, Text, codes, is_empty, trim_space, all, true, false,
  text_eq, contains,
}
use workspace_service.Errors.{ok, err, new_error}
use workspace_service.FilePath.{join_elements}
use workspace_service.FilePath.Elements.{is_plain}
use workspace_service.FsService.Resolve.Examples.{tenant}
use workspace_service.Storage.Examples.{full_disk}
use workspace_service.Storage.Places.{absolute}
use workspace_service.WorkspaceGit.{
  WorkspaceGitClient, resolve_git_dir, is_subpath, clone, delete_repo, normalize_branch_name,
}
use workspace_service.WorkspaceGit.Places.{git_dir_names, resolve_git_dir-eq}

mount_plain : all is_plain (codes "mnt" ∷ []) ≡ true
unfolding is_plain text_eq contains
mount_plain = refl

meta_plain : all is_plain (codes "meta" ∷ []) ≡ true
unfolding is_plain text_eq contains
meta_plain = refl

worktree_plain : all is_plain (codes "app" ∷ codes "repo" ∷ []) ≡ true
unfolding is_plain text_eq contains
worktree_plain = refl

meta_set : is_empty (trim_space (absolute (codes "meta" ∷ []))) ≡ false
unfolding trim_space join_elements
meta_set = refl

resolve_git_dir-eq_example :
    resolve_git_dir
      (absolute (codes "mnt" ∷ []))
      (absolute (codes "meta" ∷ []))
      (absolute ((codes "mnt" ∷ []) ++ (codes "app" ∷ codes "repo" ∷ [])))
    ≡ ok (absolute ((codes "meta" ∷ []) ++ git_dir_names (codes "app" ∷ codes "repo" ∷ [])))
resolve_git_dir-eq_example =
    resolve_git_dir-eq (codes "mnt") [] (codes "meta") [] (codes "app") (codes "repo" ∷ [])
      mount_plain meta_plain worktree_plain meta_set

-- Every clone by go-git succeeds and is noted by its git directory and its branch.
abbrev git : WorkspaceGitClient (List Text)
git = record {
  os = full_disk;
  mount_root = codes "/mnt";
  git_meta_root = codes "/meta";
  clone_context = λ a d t u b w. (none, d ∷ b ∷ w);
}

clone_into_a_file :
    clone git
      (record {
        actor = tenant;
        repo_url = codes "u";
        target_path = codes "/mnt/a";
        branch = codes "main";
      })
      []
    ≡ (err (new_error (codes "clone target is not a directory: /mnt/a")), [])
unfolding clone
clone_into_a_file = refl

delete_both :
    delete_repo git (record { actor = tenant; path = codes "/mnt/app/repo" }) []
    ≡ (ok tt, codes "/meta/app/repo/.git" ∷ codes "/mnt/app/repo" ∷ [])
unfolding delete_repo
delete_both = refl

branch_name : normalize_branch_name (codes " refs/heads/main ") ≡ codes "main"
unfolding normalize_branch_name
branch_name = refl

no_subpath : is_subpath (codes "/mnt/a") (codes "/mnt/ab") ≡ false
unfolding is_subpath
no_subpath = refl
