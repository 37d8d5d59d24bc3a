-- ===== src/Utils.antt =====
-- utils/common.go.
use eavesdrop.Prelude.{
  Bool, true, false, ◌≡◌, ◌↔◌, refl, List, [], ◌∷◌, Bytes, ◌==◌, bytes_eq, All, arith,
  if◌then◌else◌,
}

module _ (sum256 : Bytes → Bytes) where
  -- The loop over the items after the first.
  unfoldable pub same_hashes : Bytes → List Bytes → Bool
  same_hashes first [] = true
  same_hashes first (item ∷ items) = if sum256 item == first then same_hashes first items else false

  -- `CompareHashes`
  unfoldable pub compare_hashes : List Bytes → Bool
  unfolding same_hashes
  compare_hashes [] = false
  compare_hashes (item ∷ items) = same_hashes (sum256 item) items

  same_hashes_iff :
      (first : Bytes) (items : List Bytes)
      → (same_hashes first items ≡ true) ↔ All (λ item. sum256 item ≡ first) items
  unfolding same_hashes
  same_hashes_iff first [] = ((λ _. tt), (λ _. refl))
  same_hashes_iff first (item ∷ items) = (
    (λ h. ground (arith, bytes_eq.beq_iff (sum256 item) first, same_hashes_iff first items)),
    (λ h. ground (arith, bytes_eq.beq_iff (sum256 item) first, same_hashes_iff first items)),
  )

  -- `CompareHashes` accepts a list with a first item exactly if all items behind it have its hash.
  pub compare_hashes_iff :
      (item : Bytes) (items : List Bytes)
      → (compare_hashes (item ∷ items) ≡ true) ↔ All (λ other. sum256 other ≡ sum256 item) items
  unfolding compare_hashes
  compare_hashes_iff item items = same_hashes_iff (sum256 item) items
