-- ===== src/Prelude/Equality.antt =====
-- Go's `==` on comparable types, as an interface with instances for numbers, texts and bytes.
use Prim.Native.Nat.{ℕ, compare, Ordering}
use Prim.Native.String.{String}
use mathlib.Core.Path.{◌≡◌, refl}
use mathlib.Core.Logic.{◌↔◌, ◌⊎◌}
use mathlib.Core.Bool.{Bool, true, false, ◌&&◌}
use mathlib.Core.List.{List, [], ◌∷◌}
use native.Mathlib.Omega.{arith}
use text.Mathlib.Text.{◌==◌ as str_eq}
use text.Mathlib.TextEquality.{eq_iff}

-- A Go byte slice or string, as its bytes.
abbrev pub Bytes : Type 0
Bytes = List ℕ

pub record Eq {ℓ} (A : Type ℓ) : Type ℓ where
  pub beq : A → A → Bool
  pub beq_iff : (x y : A) → (beq x y ≡ true) ↔ (x ≡ y)

abbrev pub nat_beq : ℕ → ℕ → Bool
nat_beq a b = elim (compare a b) [ Ordering.eq ↦ true | _ ↦ false ]

pub nat_beq_iff : (a b : ℕ) → (nat_beq a b ≡ true) ↔ (a ≡ b)
nat_beq_iff a b = ground arith

instance abbrev pub nat_eq : Eq ℕ
nat_eq = record { beq_iff = nat_beq_iff; beq = nat_beq }

module _ {ℓ} {A : Type ℓ} ⦃e : Eq A⦄ where
  abbrev pub list_beq : List A → List A → Bool
  list_beq [] [] = true
  list_beq [] (y ∷ ys) = false
  list_beq (x ∷ xs) [] = false
  list_beq (x ∷ xs) (y ∷ ys) = e.beq x y && list_beq xs ys

  pub list_beq_iff : (xs ys : List A) → (list_beq xs ys ≡ true) ↔ (xs ≡ ys)
  list_beq_iff [] [] = ((λ _. refl), (λ _. refl))
  list_beq_iff [] (y ∷ ys) = ((λ h. cc), (λ h. cc))
  list_beq_iff (x ∷ xs) [] = ((λ h. cc), (λ h. cc))
  list_beq_iff (x ∷ xs) (y ∷ ys) = (
    (λ h. ground (arith, e.beq_iff x y, list_beq_iff xs ys)),
    (λ h. ground (arith, e.beq_iff x y, list_beq_iff xs ys)),
  )

  pub beq_refl : (a : A) → e.beq a a ≡ true
  beq_refl a = (e.beq_iff a a).1 refl

  -- The two outcomes of a comparison, with what each says of the values.
  pub beq_cases : (a b : A) → ((e.beq a b ≡ true) × (a ≡ b)) ⊎ (e.beq a b ≡ false)
  beq_cases a b = ground (arith, e.beq_iff a b)

instance abbrev pub bytes_eq : Eq Bytes
bytes_eq = record { beq = list_beq; beq_iff = list_beq_iff }

instance abbrev pub string_eq : Eq String
string_eq = record { beq_iff = eq_iff; beq = str_eq }

-- `a == b`
infix 50 ◌==◌
abbrev pub ◌==◌ {ℓ} : {A : Type ℓ} ⦃e : Eq A⦄ → A → A → Bool
◌==◌ ⦃e⦄ = e.beq
