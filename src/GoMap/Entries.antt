-- ===== src/GoMap/Entries.antt =====
-- Laws of the maps: what a write changes, and which entries a range visits.
use eavesdrop.Prelude.{
  ◌≡◌, refl, subst, inl, inr, none, some, [], ◌∷◌, Memᴰ, arith, Eq, ◌==◌, if◌then◌else◌, beq_cases,
}
use eavesdrop.GoMap.{GoMap, lookup, assign, fetch, IsMap}

module _ {ℓ κ} {K : Type ℓ} {V : Type κ} ⦃e : Eq K⦄ where
  pub lookup-assign :
      (k j : K) (v : V) (m : GoMap K V)
      → lookup j (assign k v m) ≡ (if k == j then some v else lookup j m)
  unfolding lookup assign
  lookup-assign k j v [] = refl
  lookup-assign k j v ((i, w) ∷ m) =
      ground (arith, e.beq_iff k j, e.beq_iff i k, e.beq_iff i j, lookup-assign k j v m)

  pub fetch-assign :
      (d : V) (k j : K) (v : V) (m : GoMap K V)
      → fetch d j (assign k v m) ≡ (if k == j then v else fetch d j m)
  unfolding fetch
  fetch-assign d k j v m = ground (arith, lookup-assign k j v m)

  pub fetch_of_lookup :
      (d : V) (k : K) (m : GoMap K V) {v : V} → lookup k m ≡ some v → fetch d k m ≡ v
  unfolding fetch
  fetch_of_lookup d k m h = ground arith

  pub assign-IsMap : (k : K) (v : V) (m : GoMap K V) → IsMap m → IsMap (assign k v m)
  unfolding assign lookup
  assign-IsMap k v [] h = (refl, tt)
  assign-IsMap k v ((j, w) ∷ m) h = elim (beq_cases j k) [
    | inl (same, p) ↦ rw same (subst (λ i. lookup i m ≡ none) p h.0, h.1)
    | inr other ↦ rw other (
      ground (arith, lookup-assign k j v m, e.beq_iff k j, e.beq_iff j k),
      assign-IsMap k v m h.1,
    )
  ]

  lookup-ne-none : {k : K} {v : V} (m : GoMap K V) → Memᴰ (k, v) m → lookup k m ≡ none → ⊥
  unfolding lookup
  lookup-ne-none [] i h = elim i [ ]
  lookup-ne-none {k} ((j, w) ∷ m) (Memᴰ.head p) h = ground (arith, e.beq_iff j k)
  lookup-ne-none {k} ((j, w) ∷ m) (Memᴰ.tail i) h = ground (arith, lookup-ne-none m i)

  -- Every entry of a map is the one that its key reads.
  pub lookup-mem : {k : K} {v : V} (m : GoMap K V) → IsMap m → Memᴰ (k, v) m → lookup k m ≡ some v
  unfolding lookup
  lookup-mem [] h i = elim i [ ]
  lookup-mem {k} ((j, w) ∷ m) h (Memᴰ.head p) = ground (arith, e.beq_iff j k)
  lookup-mem {k} ((j, w) ∷ m) h (Memᴰ.tail i) = ground (arith, e.beq_iff j k, lookup-mem m h.1 i)

  pub mem-lookup : {k : K} {v : V} (m : GoMap K V) → lookup k m ≡ some v → Memᴰ (k, v) m
  unfolding lookup
  mem-lookup [] h = absurd (cc)
  mem-lookup {k} {v} ((j, w) ∷ m) h = elim (beq_cases j k) [
    | inl (same, p) ↦ Memᴰ.head (ground arith)
    | inr other ↦ Memᴰ.tail (mem-lookup m (ground arith))
  ]
