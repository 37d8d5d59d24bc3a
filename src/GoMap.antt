-- ===== src/GoMap.antt =====
-- Go's built-in maps, as association lists. The code under ocr/ reads, writes and ranges over them;
-- the order of a `range` is not specified by Go, so it is a parameter, `MapOrder`.
pub mod Entries
use eavesdrop.Prelude.{
  ℕ, ◌≡◌, Bool, Option, none, some, List, [], ◌∷◌, Permᴰ, Eq, ◌==◌, if◌then◌else◌,
}

abbrev pub GoMap {ℓ κ} : Type ℓ → Type κ → Type (ℓ ⊔ κ)
GoMap K V = List (K × V)

module _ {ℓ κ} {K : Type ℓ} {V : Type κ} ⦃e : Eq K⦄ where
  -- `v, ok := m[k]`
  unfoldable pub lookup : K → GoMap K V → Option V
  lookup k [] = none
  lookup k ((j, v) ∷ m) = if j == k then some v else lookup k m

  -- `m[k] = v`
  unfoldable pub assign : K → V → GoMap K V → GoMap K V
  assign k v [] = (k, v) ∷ []
  assign k v ((j, w) ∷ m) = if j == k then (k, v) ∷ m else (j, w) ∷ assign k v m

  -- `m[k]`, which is the zero value `d` of the type where the key is missing
  unfoldable pub fetch : V → K → GoMap K V → V
  unfolding lookup
  fetch d k m = elim (lookup k m) [ none ↦ d | some v ↦ v ]

  -- No key twice.
  abbrev pub IsMap : GoMap K V → Type κ
  IsMap [] = Unit
  IsMap ((k, v) ∷ m) = (lookup k m ≡ none) × IsMap m

-- The order in which `range` visits the entries of a map: any order, with every entry once.
pub record MapOrder : Type 1 where
  pub visit : (A : Type 0) → List A → List A
  pub visit_perm : (A : Type 0) (xs : List A) → Permᴰ (visit A xs) xs
