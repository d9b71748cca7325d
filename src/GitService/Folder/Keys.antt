-- ===== src/GitService/Folder/Keys.antt =====
-- Clone jobs of different users or folders stand under different keys.
use workspace_service.Base.{◌≡◌, refl, Bool, true, not, ◌&&◌, [], ◌∷◌, ◌++◌, Text, ◌==◌, arith}
use workspace_service.GitService.Folder.{clone_job_key}
use workspace_service.Identity.{RequestContext}

-- No "|" occurs in the text.
unfoldable pub bar_free : Text → Bool
bar_free [] = true
bar_free (c ∷ s) = not (c == b'|') && bar_free s

bar_free-inj :
    (a b x y : Text)
    → bar_free a ≡ true
    → bar_free b ≡ true
    → a ++ (b'|' ∷ x) ≡ b ++ (b'|' ∷ y)
    → (a ≡ b) × (x ≡ y)
unfolding bar_free
bar_free-inj [] [] x y h k e = (refl, ground arith)
bar_free-inj [] (c ∷ b) x y h k e = (ground arith, ground arith)
bar_free-inj (c ∷ a) [] x y h k e = (ground arith, ground arith)
bar_free-inj (c ∷ a) (d ∷ b) x y h k e =
    let (p, q) = bar_free-inj a b x y (ground arith) (ground arith) (ground arith) in
    (ground arith, q)

-- When no app id, workspace id or uin of two identities holds a vertical bar, the keys of their
-- clone jobs are equal only for the same app id, workspace id, uin and path.
pub clone_job_key-inj :
    (r q : RequestContext) (path other : Text)
    → bar_free r.app_id && bar_free r.workspace_id && bar_free r.uin ≡ true
    → bar_free q.app_id && bar_free q.workspace_id && bar_free q.uin ≡ true
    → clone_job_key r path ≡ clone_job_key q other
    → (r.app_id ≡ q.app_id) × (r.workspace_id ≡ q.workspace_id) × (r.uin ≡ q.uin) × (path ≡ other)
unfolding clone_job_key
clone_job_key-inj r q path other h k e =
    let (app, rest) = bar_free-inj r.app_id q.app_id _ _ (ground arith) (ground arith) e in
    let (ws, last) =
      bar_free-inj r.workspace_id q.workspace_id _ _ (ground arith) (ground arith) rest in
    let (uin, paths) = bar_free-inj r.uin q.uin _ _ (ground arith) (ground arith) last in
    (app, ws, uin, paths)
