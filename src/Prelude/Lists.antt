-- ===== src/Prelude/Lists.antt =====
-- Lists measured by native numbers, and predicates on all entries.
use Prim.Native.Nat.{ℕ, zero, suc, ◌+◌, ◌≤◌}
use mathlib.Core.Path.{◌≡◌, refl, subst, sym, ◌∙◌}
use mathlib.Core.Bool.{Bool}
use mathlib.Core.Option.{Option, none, some}
use mathlib.Core.List.{List, [], ◌∷◌, ◌++◌, Memᴰ, Permᴰ}
use native.Mathlib.Omega.{arith}
use eavesdrop.Prelude.Tests.{if◌then◌else◌}

module _ {ℓ} {A : Type ℓ} where
  abbrev pub length : List A → ℕ
  length [] = 0
  length (x ∷ xs) = suc (length xs)

  abbrev pub take : ℕ → List A → List A
  take zero xs = []
  take (suc n) [] = []
  take (suc n) (x ∷ xs) = x ∷ take n xs

  abbrev pub get_last? : List A → Option A
  get_last? [] = none
  get_last? (x ∷ xs) = elim (get_last? xs) [ none ↦ some x | some y ↦ some y ]

  abbrev pub drop : ℕ → List A → List A
  drop zero xs = xs
  drop (suc n) [] = []
  drop (suc n) (_ ∷ xs) = drop n xs

  abbrev pub foldl {κ} : {S : Type κ} → (S → A → S) → S → List A → S
  foldl f s [] = s
  foldl f s (x ∷ xs) = foldl f (f s x) xs

  -- How many entries pass a test.
  abbrev pub count_if : (A → Bool) → List A → ℕ
  count_if p [] = 0
  count_if p (x ∷ xs) = (if p x then 1 else 0) + count_if p xs

  abbrev pub All {κ} : (A → Type κ) → List A → Type κ
  All P [] = Unit
  All P (x ∷ xs) = P x × All P xs

  pub length-append : (xs ys : List A) → length (xs ++ ys) ≡ length xs + length ys
  length-append [] ys = omega arith
  length-append (x ∷ xs) ys = omega (arith, length-append xs ys)

  pub length-take : (n : ℕ) (xs : List A) → n ≤ length xs → length (take n xs) ≡ n
  length-take zero xs h = refl
  length-take (suc n) [] h = elim h [ ]
  length-take (suc n) (x ∷ xs) h = omega (arith, length-take n xs)

  pub All-mem {κ} : (P : A → Type κ) {a : A} {xs : List A} → All P xs → Memᴰ a xs → P a
  All-mem P h (Memᴰ.head e) = subst P (sym e) h.0
  All-mem P h (Memᴰ.tail m) = All-mem P h.1 m

  pub All-of-mem {κ} : (P : A → Type κ) (xs : List A) → ((a : A) → Memᴰ a xs → P a) → All P xs
  All-of-mem P [] h = tt
  All-of-mem P (x ∷ xs) h = (h x (Memᴰ.head refl), All-of-mem P xs (λ a m. h a (Memᴰ.tail m)))

  pub All-append {κ} : (P : A → Type κ) (xs ys : List A) → All P xs → All P ys → All P (xs ++ ys)
  All-append P [] ys h k = k
  All-append P (x ∷ xs) ys h k = (h.0, All-append P xs ys h.1 k)

  pub All-take {κ} : (P : A → Type κ) (n : ℕ) (xs : List A) → All P xs → All P (take n xs)
  All-take P zero xs h = tt
  All-take P (suc n) [] h = tt
  All-take P (suc n) (x ∷ xs) h = (h.0, All-take P n xs h.1)

  pub count_if-perm : (p : A → Bool) {xs ys : List A} → Permᴰ xs ys → count_if p xs ≡ count_if p ys
  count_if-perm p Permᴰ.nil = refl
  count_if-perm p (Permᴰ.cons e r) = ground (arith, count_if-perm p r)
  count_if-perm p (Permᴰ.swap e f) = ground arith
  count_if-perm p (Permᴰ.trans r s) = omega (arith, count_if-perm p r, count_if-perm p s)

  pub mem-perm : {a : A} {xs ys : List A} → Permᴰ xs ys → Memᴰ a xs → Memᴰ a ys
  mem-perm Permᴰ.nil m = elim m [ ]
  mem-perm (Permᴰ.trans r s) m = mem-perm s (mem-perm r m)
  mem-perm (Permᴰ.cons e r) (Memᴰ.head h) = Memᴰ.head (h ∙ e)
  mem-perm (Permᴰ.cons e r) (Memᴰ.tail h) = Memᴰ.tail (mem-perm r h)
  mem-perm (Permᴰ.swap e f) (Memᴰ.head h) = Memᴰ.tail (Memᴰ.head (h ∙ e))
  mem-perm (Permᴰ.swap e f) (Memᴰ.tail (Memᴰ.head h)) = Memᴰ.head (h ∙ f)
  mem-perm (Permᴰ.swap e f) (Memᴰ.tail (Memᴰ.tail h)) = Memᴰ.tail (Memᴰ.tail h)

  pub length-take-le : (n : ℕ) (xs : List A) → length (take n xs) ≤ n
  length-take-le zero xs = omega arith
  length-take-le (suc n) [] = omega arith
  length-take-le (suc n) (_ ∷ xs) = omega (arith, length-take-le n xs)
