-- ===== src/Base/Lists.antt =====
-- Lists measured by native numbers, and predicates on lists by recursion.
use Prim.Native.Nat.{ℕ, zero, suc, ◌+◌, ◌≤◌}
use mathlib.Core.Path.{◌≡◌, refl}
use mathlib.Core.Bool.{Bool, true, false, ◌&&◌}
use mathlib.Core.List.{List, [], ◌∷◌, ◌++◌}
use native.Mathlib.Omega.{arith}
use workspace_service.Base.Tests.{if◌then◌else◌}

module _ {ℓ} {A : Type ℓ} where
  abbrev pub length : List A → ℕ
  length [] = 0
  length (x ∷ xs) = suc (length xs)

  abbrev pub is_empty : List A → Bool
  is_empty [] = true
  is_empty (x ∷ xs) = false

  abbrev pub take : ℕ → List A → List A
  take zero xs = []
  take (suc n) [] = []
  take (suc n) (x ∷ xs) = x ∷ take n xs

  abbrev pub all : (A → Bool) → List A → Bool
  all p [] = true
  all p (x ∷ xs) = p x && all p xs

  pub length-append : (xs ys : List A) → length (xs ++ ys) ≡ length xs + length ys
  length-append [] ys = omega arith
  length-append (x ∷ xs) ys = omega (arith, length-append xs ys)

  pub all-append : (p : A → Bool) (xs ys : List A) → all p (xs ++ ys) ≡ (all p xs && all p ys)
  all-append p [] ys = refl
  all-append p (x ∷ xs) ys = ground (arith, all-append p xs ys)

module _ {ℓ κ} {A : Type ℓ} (P : A → Type κ) where
  abbrev pub All : List A → Type κ
  All [] = Unit
  All (x ∷ xs) = P x × All xs

  pub All-take : (n : ℕ) (xs : List A) → All xs → All (take n xs)
  All-take zero xs h = tt
  All-take (suc n) [] h = tt
  All-take (suc n) (x ∷ xs) (p, h) = (p, All-take n xs h)

pub All-map_lem {ℓ κ ν} :
    {A : Type ℓ} (P : A → Type κ) (Q : A → Type ν) (xs : List A)
    → ((x : A) → P x → Q x)
    → All P xs
    → All Q xs
All-map_lem P Q [] f h = tt
All-map_lem P Q (x ∷ xs) f (p, h) = (f x p, All-map_lem P Q xs f h)

module _ {ℓ} {A : Type ℓ} where
  pub length-take_le : (n : ℕ) (xs : List A) → length (take n xs) ≤ n
  length-take_le zero xs = omega arith
  length-take_le (suc n) [] = omega arith
  length-take_le (suc n) (x ∷ xs) = omega (arith, length-take_le n xs)

  pub length-take_eq : (n : ℕ) (xs : List A) → n ≤ length xs → length (take n xs) ≡ n
  length-take_eq zero xs h = refl
  length-take_eq (suc n) [] h = omega arith
  length-take_eq (suc n) (x ∷ xs) h = ground (arith, length-take_eq n xs)

pub All-if {ℓ κ} :
    {A : Type ℓ} (P : A → Type κ) (b : Bool) (xs ys : List A)
    → All P xs
    → All P ys
    → All P (if◌then◌else◌ b xs ys)
All-if P true xs ys h k = h
All-if P false xs ys h k = k
