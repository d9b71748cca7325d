-- ===== src/FsService/Operations/Refusals.antt =====
-- Every check of a request to the file service refuses with ErrInvalidFileRequest.
use workspace_service.Base.{
  ◌≡◌, refl, Bool, true, false, ℕ, List, Text, if◌then◌else◌, codes, text_eq, contains_any,
  has_suffix, to_lower, is_empty, ◌++◌, ◌||◌,
}
use workspace_service.Errors.{
  Result, ok, err, error_is, sentinel_text, sentinel_wrap, invalid_file_request, map_err, ◌>>=◌,
}
use workspace_service.FilePath.{base, dot, dot_dot}
use workspace_service.FsService.Operations.{
  identified, content_of, checked_name, normalize_notebook_path, notebook_path,
}
use workspace_service.FsService.Operations.Queries.{parent_of}
use workspace_service.FsService.Resolve.{within_mount, resolve_abs_path, resolve_actor_and_path}
use workspace_service.FsService.Service.{Service}
use workspace_service.Identity.{RequestContext, normalize, validate, resolve_relative_path}

-- The result is a value or this error.
unfoldable pub Refuses : {A : Type 0} → Result A → Type 0
Refuses (ok a) = Unit {0}
Refuses (err e) = error_is invalid_file_request e ≡ true

said-Refuses :
    (A : Type 0) (message : Text)
    → Refuses {A = A} (err (sentinel_text invalid_file_request message))
unfolding Refuses sentinel_text error_is
said-Refuses A message = refl

shown-Refuses :
    {A : Type 0} (m : Result A) (message : Text)
    → Refuses (map_err (λ _. sentinel_text invalid_file_request message) m)
unfolding Refuses sentinel_text error_is
shown-Refuses (ok a) message = tt
shown-Refuses (err e) message = refl

wrapped-Refuses :
    {A : Type 0} (m : Result A) → Refuses (map_err (sentinel_wrap invalid_file_request) m)
unfolding Refuses sentinel_wrap error_is
wrapped-Refuses (ok a) = tt
wrapped-Refuses (err f) = refl

value-Refuses : {A : Type 0} (a : A) → Refuses (ok a)
unfolding Refuses
value-Refuses a = tt

if-Refuses :
    {A : Type 0} (b : Bool) (m n : Result A) → Refuses m → Refuses n → Refuses (if b then m else n)
if-Refuses true m n h k = h
if-Refuses false m n h k = k

>>=-Refuses :
    {A B : Type 0} (m : Result A) (rest : A → Result B)
    → Refuses m
    → ((a : A) → Refuses (rest a))
    → Refuses (m >>= rest)
unfolding Refuses
>>=-Refuses (ok a) rest first h = h a
>>=-Refuses (err f) rest first h = first

within_mount-Refuses : (mount abs : Text) → Refuses (within_mount mount abs)
unfolding within_mount
within_mount-Refuses mount abs = if-Refuses _ _ _ (said-Refuses _ _) (value-Refuses abs)

pub resolve_abs_path-Refuses :
    (mount : Text) (ctx : RequestContext) (path : Text) → Refuses (resolve_abs_path mount ctx path)
unfolding resolve_abs_path
resolve_abs_path-Refuses mount ctx path = if-Refuses _ _ _ (said-Refuses _ _) (
    if-Refuses _ _ _ (value-Refuses _) (
      >>=-Refuses _ _ (wrapped-Refuses (resolve_relative_path ctx path))
        λ resolved. within_mount-Refuses mount _))

pub resolve_actor_and_path-Refuses :
    (mount : Text) (ctx : RequestContext) (path : Text)
    → Refuses (resolve_actor_and_path mount ctx path)
unfolding resolve_actor_and_path
resolve_actor_and_path-Refuses mount ctx path =
    >>=-Refuses _ _ (wrapped-Refuses (validate (normalize ctx))) λ _.
      >>=-Refuses _ _ (resolve_abs_path-Refuses mount (normalize ctx) path) λ abs. value-Refuses _

notebook_path-Refuses : (path : Text) → Refuses (notebook_path path)
unfolding notebook_path
notebook_path-Refuses path =
    if-Refuses (is_empty path) _ _ (said-Refuses Text (codes "path is required")) (
      if-Refuses
        (text_eq (base path) dot
          || text_eq (base path) dot_dot
          || contains_any (codes "/\\") (base path))
        _ _ (said-Refuses Text (codes "invalid notebook name"))
        (if-Refuses (has_suffix (codes ".ipynb") (to_lower (base path))) _ _ (value-Refuses path)
          (value-Refuses (path ++ codes ".ipynb"))))

pub normalize_notebook_path-Refuses : (path : Text) → Refuses (normalize_notebook_path path)
unfolding normalize_notebook_path
normalize_notebook_path-Refuses path = notebook_path-Refuses _

module _ {W : Type 0} (s : Service W) where
  pub content_of-Refuses : (raw : List ℕ) (b64 : Text) → Refuses (content_of s raw b64)
  unfolding content_of
  content_of-Refuses raw b64 = shown-Refuses _ _

  pub identified-Refuses : (ctx : RequestContext) → Refuses (identified s ctx)
  unfolding identified
  identified-Refuses ctx = wrapped-Refuses (validate (normalize ctx))

  pub checked_name-Refuses : (name : Text) → Refuses (checked_name s name)
  unfolding checked_name
  checked_name-Refuses name = if-Refuses _ _ _ (said-Refuses _ _) (value-Refuses name)

  pub parent_of-Refuses :
      (ctx : RequestContext) (parent_path : Text) → Refuses (parent_of s ctx parent_path)
  unfolding parent_of
  parent_of-Refuses ctx parent_path =
      if-Refuses _ _ _ (value-Refuses _)
        (resolve_abs_path-Refuses s.mount_root (normalize ctx) parent_path)
