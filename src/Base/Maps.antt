-- ===== src/Base/Maps.antt =====
-- Go maps: association lists with one entry for a key, the first that is found.
use Prim.Native.Nat.{ℕ}
use mathlib.Core.Path.{◌≡◌, refl}
use mathlib.Core.Logic.{◌↔◌}
use mathlib.Core.Bool.{Bool, true}
use mathlib.Core.Option.{Option, none, some}
use mathlib.Core.List.{List, [], ◌∷◌}
use native.Mathlib.Omega.{arith}
use workspace_service.Base.Tests.{if◌then◌else◌, ◌==◌, ==_iff}
use workspace_service.Base.Strings.{Text, text_eq, text_eq_iff}

-- What Go wants of the type of a map's keys: that == decides equality.
pub record Comparable {ℓ} (K : Type ℓ) : Type ℓ where
  pub same : K → K → Bool
  pub same_iff : (j k : K) → (same j k ≡ true) ↔ (j ≡ k)

instance abbrev pub number_key : Comparable ℕ
number_key = record { same = ◌==◌; same_iff = ==_iff }

instance abbrev pub text_key : Comparable Text
text_key = record { same = text_eq; same_iff = text_eq_iff }

abbrev pub Map {ℓ κ} : Type ℓ → Type κ → Type (ℓ ⊔ κ)
Map K V = List (K × V)

module _ {ℓ κ} {K : Type ℓ} {V : Type κ} ⦃c : Comparable K⦄ where
  -- m[k] = v
  unfoldable pub insert : K → V → Map K V → Map K V
  insert key value [] = (key, value) ∷ []
  insert key value ((other, old) ∷ rest) =
      if c.same other key then (other, value) ∷ rest else (other, old) ∷ insert key value rest

  -- v, ok := m[k]
  unfoldable pub lookup : K → Map K V → Option V
  lookup key [] = none
  lookup key ((other, value) ∷ rest) = if c.same other key then some value else lookup key rest

  -- delete(m, k)
  unfoldable pub delete : K → Map K V → Map K V
  delete k [] = []
  delete k ((j, w) ∷ m) = let rest = delete k m in if c.same j k then rest else (j, w) ∷ rest

  pub lookup-insert :
      (k j : K) (v : V) (m : Map K V)
      → lookup j (insert k v m) ≡ (if c.same k j then some v else lookup j m)
  unfolding lookup insert
  lookup-insert k j v [] = refl
  lookup-insert k j v ((i, w) ∷ m) =
      ground (arith, c.same_iff k j, c.same_iff i k, c.same_iff i j, lookup-insert k j v m)

  pub lookup-delete :
      (k j : K) (m : Map K V) → lookup j (delete k m) ≡ (if c.same k j then none else lookup j m)
  unfolding lookup delete
  lookup-delete k j [] = ground arith
  lookup-delete k j ((i, w) ∷ m) =
      ground (arith, c.same_iff k j, c.same_iff i k, c.same_iff i j, lookup-delete k j m)

  pub lookup-insert_self : (k : K) (v : V) (m : Map K V) → lookup k (insert k v m) ≡ some v
  lookup-insert_self k v m = ground (arith, lookup-insert k k v m, c.same_iff k k)

abbrev pub values {ℓ κ} : {K : Type ℓ} {V : Type κ} → Map K V → List V
values [] = []
values ((k, v) ∷ m) = v ∷ values m
