-- ===== src/Storage/Atomic.antt =====
-- A file is written whole or not at all.
mod Examples
use workspace_service.Base.{
  ◌≡◌, ◌≢◌, refl, sym, ◌∙◌, ◌⊎◌, inl, inr, ℕ, Option, none, some, List, Text, codes, ◌++◌,
}
use workspace_service.Errors.{Error, Result, ok, err}
use workspace_service.File.{Outcome}
use workspace_service.FilePath.{dir, base}
use workspace_service.Os.{Os}
use workspace_service.Storage.{WorkspaceFsClient}
use workspace_service.Storage.Writes.{atomic_write_file, or_remove, or_cleanup, write_and_rename}

-- What is relied on of the files of the system; `content_of` is what reading a path finds.
pub record FileLaws {W : Type 0} (os : Os W) (content_of : Text → W → Option (List ℕ))
    : Type 0 where
  pub write_elsewhere :
      (p q : Text) (b : List ℕ) (w : W)
      → p ≢ q
      → content_of q (os.write_temp p b w).1 ≡ content_of q w
  pub written :
      (p : Text) (b : List ℕ) (w : W)
      → (os.write_temp p b w).0 ≡ none
      → content_of p (os.write_temp p b w).1 ≡ some b
  pub synced : (p q : Text) (w : W) → content_of q (os.sync_temp p w).1 ≡ content_of q w
  pub closed : (p q : Text) (w : W) → content_of q (os.close_temp p w).1 ≡ content_of q w
  pub allowed : (p q : Text) (w : W) → content_of q (os.chmod p w).1 ≡ content_of q w
  pub remove_elsewhere :
      (p q : Text) (w : W) → p ≢ q → content_of q (os.remove p w).1 ≡ content_of q w
  pub renamed :
      (p q : Text) (w : W)
      → (os.rename p q w).0 ≡ none
      → content_of q (os.rename p q w).1 ≡ content_of p w
  pub not_renamed :
      (p q r : Text) (w : W) (e : Error)
      → (os.rename p q w).0 ≡ some e
      → content_of r (os.rename p q w).1 ≡ content_of r w

module _ {W : Type 0} (c : WorkspaceFsClient W) (content_of : Text → W → Option (List ℕ))
    (laws : FileLaws c.os content_of) where
  -- The call succeeded and the path has the content, or it failed and the path has its old content.
  abbrev pub IsWhole : Text → List ℕ → Option (List ℕ) → Outcome W → Type 0
  IsWhole dst content old o =
      ((o.0 ≡ none) × (content_of dst o.1 ≡ some content))
      ⊎ ((e : Error) × (o.0 ≡ some e) × (content_of dst o.1 ≡ old))

  module _ (dst tmp : Text) (apart : tmp ≢ dst) (content : List ℕ) (old : Option (List ℕ)) where
    or_remove-IsWhole :
        (o : Outcome W) (rest : W → Outcome W)
        → ((e : Error) → o.0 ≡ some e → content_of dst o.1 ≡ old)
        → (o.0 ≡ none → IsWhole dst content old (rest o.1))
        → IsWhole dst content old (or_remove c tmp o rest)
    unfolding or_remove
    or_remove-IsWhole (some e, w) rest kept go =
        inr (e, refl, laws.remove_elsewhere tmp dst w apart ∙ kept e refl)
    or_remove-IsWhole (none, w) rest kept go = go refl

    or_cleanup-IsWhole :
        (o : Outcome W) (rest : W → Outcome W)
        → ((e : Error) → o.0 ≡ some e → content_of dst o.1 ≡ old)
        → (o.0 ≡ none → IsWhole dst content old (rest o.1))
        → IsWhole dst content old (or_cleanup c tmp o rest)
    unfolding or_cleanup
    or_cleanup-IsWhole (some e, w) rest kept go =
        inr (e, refl, laws.remove_elsewhere tmp dst _ apart ∙ laws.closed tmp dst w ∙ kept e refl)
    or_cleanup-IsWhole (none, w) rest kept go = go refl

    renamed-IsWhole :
        (w : W)
        → content_of dst w ≡ old
        → content_of tmp w ≡ some content
        → IsWhole dst content old (or_remove c tmp (c.os.rename tmp dst w) (λ w. (none, w)))
    renamed-IsWhole w before here =
        or_remove-IsWhole (c.os.rename tmp dst w) _
          (λ e failed. laws.not_renamed tmp dst dst w e failed ∙ before)
          (λ came. inl (refl, laws.renamed tmp dst w came ∙ here))

    chmod-IsWhole :
        (w : W)
        → content_of dst w ≡ old
        → content_of tmp w ≡ some content
        → IsWhole dst content old (
            or_remove c tmp
              (c.os.chmod tmp w)
              λ w. or_remove c tmp (c.os.rename tmp dst w) (λ w. (none, w)))
    chmod-IsWhole w before here =
        or_remove-IsWhole (c.os.chmod tmp w) _ (λ e failed. laws.allowed tmp dst w ∙ before)
          (λ came.
            renamed-IsWhole (c.os.chmod tmp w).1 (laws.allowed tmp dst w ∙ before)
              (laws.allowed tmp tmp w ∙ here))

    write_and_rename-IsWhole :
        (w : W)
        → content_of dst w ≡ old
        → IsWhole dst content old (write_and_rename c dst content (ok tmp, w))
    unfolding write_and_rename
    write_and_rename-IsWhole w before =
        let kept : content_of dst (c.os.write_temp tmp content w).1 ≡ old =
          laws.write_elsewhere tmp dst content w apart ∙ before in
        or_cleanup-IsWhole (c.os.write_temp tmp content w) _ (λ e failed. kept)
          λ came.
            or_cleanup-IsWhole (c.os.sync_temp tmp _) _ (λ e failed. laws.synced tmp dst _ ∙ kept)
              λ _.
                or_remove-IsWhole (c.os.close_temp tmp _) _
                  (λ e failed. laws.closed tmp dst _ ∙ laws.synced tmp dst _ ∙ kept)
                  λ _. chmod-IsWhole _ (laws.closed tmp dst _ ∙ laws.synced tmp dst _ ∙ kept) (
                    laws.closed tmp tmp _ ∙ laws.synced tmp tmp _ ∙ laws.written tmp content w came)

  -- When the files of the system keep the laws of FileLaws, and the temporary file got a name
  -- other than the destination and its making left the content of the destination as it was,
  -- atomicWriteFile succeeds and the destination has the given content, or it answers an error
  -- and the destination has the content from before, wherever the error came from.
  pub atomic_write_file-IsWhole :
      (dst tmp : Text) (content : List ℕ) (w made : W)
      → c.os.create_temp (dir dst) (codes "." ++ (base dst ++ codes ".wstmp-*")) w ≡ (ok tmp, made)
      → tmp ≢ dst
      → content_of dst made ≡ content_of dst w
      → IsWhole dst content (content_of dst w) (atomic_write_file c dst content w)
  unfolding atomic_write_file
  atomic_write_file-IsWhole dst tmp content w made created apart kept =
      rw created (write_and_rename-IsWhole dst tmp apart content (content_of dst w) made kept)
