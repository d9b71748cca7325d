-- ===== src/Identity/Normalizing.antt =====
-- Normalize and Validate.
use workspace_service.Base.{
  ◌≡◌, refl, Bool, true, false, ◌&&◌, ◌||◌, not, [], ◌∷◌, Text, is_empty, is_space, trim_left,
  trim_right, trim_space, arith, ◌↔◌,
}
use workspace_service.Errors.{ok}
use workspace_service.Identity.{RequestContext, normalize, validate}

trim_right_idem : (s : Text) → trim_right (trim_right s) ≡ trim_right s
unfolding trim_right
trim_right_idem [] = refl
trim_right_idem (c ∷ s) = ground (arith, trim_right_idem s)

-- A text that does not begin with a space.
starts_dark : Text → Bool
starts_dark [] = true
starts_dark (c ∷ s) = not (is_space c)

trim_left-starts_dark : (s : Text) → starts_dark (trim_left s) ≡ true
unfolding trim_left starts_dark
trim_left-starts_dark [] = refl
trim_left-starts_dark (c ∷ s) = ground (arith, trim_left-starts_dark s)

trim_left_dark : (s : Text) → starts_dark s ≡ true → trim_left s ≡ s
unfolding trim_left starts_dark
trim_left_dark [] h = refl
trim_left_dark (c ∷ s) h = ground arith

trim_right-starts_dark : (s : Text) → starts_dark s ≡ true → starts_dark (trim_right s) ≡ true
unfolding trim_right starts_dark
trim_right-starts_dark [] h = refl
trim_right-starts_dark (c ∷ s) h = ground arith

pub trim_space_idem : (s : Text) → trim_space (trim_space s) ≡ trim_space s
unfolding trim_space
trim_space_idem s = cc (
  trim_left_dark (trim_right (trim_left s))
      (trim_right-starts_dark (trim_left s) (trim_left-starts_dark s)),
  trim_right_idem (trim_left s),
)

pub normalize_idem : (r : RequestContext) → normalize (normalize r) ≡ normalize r
unfolding normalize
normalize_idem r = ground (
  arith,
  trim_space_idem r.owner_uin,
  trim_space_idem r.uin,
  trim_space_idem r.app_id,
  trim_space_idem r.workspace_id,
)

-- A normalized identity is valid exactly when one of owner uin and uin is not blank, and app id
-- and workspace id are not blank.
pub validate-normalize :
    (r : RequestContext)
    → (validate (normalize r) ≡ ok tt) ↔ (
        ((is_empty (trim_space r.owner_uin) && is_empty (trim_space r.uin))
          || is_empty (trim_space r.app_id)
          || is_empty (trim_space r.workspace_id))
        ≡ false)
unfolding normalize validate
validate-normalize r = (
  λ h. ground (
    arith,
    trim_space_idem r.owner_uin,
    trim_space_idem r.uin,
    trim_space_idem r.app_id,
    trim_space_idem r.workspace_id,
  ),
  λ h. ground (
    arith,
    trim_space_idem r.owner_uin,
    trim_space_idem r.uin,
    trim_space_idem r.app_id,
    trim_space_idem r.workspace_id,
  ),
)
