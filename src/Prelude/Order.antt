-- ===== src/Prelude/Order.antt =====
-- Go's `<` on strings: the lexicographic order of their bytes.
use Prim.Native.Char.{code}
use Prim.Native.String.{String}
use mathlib.Core.Path.{◌≡◌, refl}
use mathlib.Core.Bool.{Bool, true, false}
use mathlib.Core.List.{[], ◌∷◌}
use native.Mathlib.Omega.{arith}
use eavesdrop.Prelude.Tests.{ltb, if◌then◌else◌}
use eavesdrop.Prelude.Equality.{Bytes, nat_beq}

-- `[]byte(s)`, for a text of ASCII characters.
abbrev pub codes : String → Bytes
codes String.[] = []
codes (String.◌∷◌ c s) = code c ∷ codes s

-- `a < b`
abbrev pub lt_bytes : Bytes → Bytes → Bool
lt_bytes [] [] = false
lt_bytes [] (y ∷ ys) = true
lt_bytes (x ∷ xs) [] = false
lt_bytes (x ∷ xs) (y ∷ ys) = if nat_beq x y then lt_bytes xs ys else ltb x y

-- The order is total: what is not below is above or equal.
pub lt_bytes_antisymm : (a b : Bytes) → lt_bytes a b ≡ false → lt_bytes b a ≡ false → a ≡ b
lt_bytes_antisymm [] [] p q = refl
lt_bytes_antisymm [] (y ∷ ys) p q = absurd (cc)
lt_bytes_antisymm (x ∷ xs) [] p q = absurd (cc)
lt_bytes_antisymm (x ∷ xs) (y ∷ ys) p q = ground (arith, lt_bytes_antisymm xs ys)

pub lt_bytes_asymm : (a b : Bytes) → lt_bytes a b ≡ true → lt_bytes b a ≡ false
lt_bytes_asymm [] [] p = refl
lt_bytes_asymm [] (y ∷ ys) p = refl
lt_bytes_asymm (x ∷ xs) [] p = absurd (cc)
lt_bytes_asymm (x ∷ xs) (y ∷ ys) p = ground (arith, lt_bytes_asymm xs ys)

-- If `b` is not below `a`, and `c` is not below `b`, then `c` is not below `a`.
pub not_below_trans :
    (a b c : Bytes) → lt_bytes b a ≡ false → lt_bytes c b ≡ false → lt_bytes c a ≡ false
not_below_trans [] b [] p q = refl
not_below_trans [] b (z ∷ zs) p q = refl
not_below_trans (x ∷ xs) [] c p q = absurd (cc)
not_below_trans (x ∷ xs) (y ∷ ys) [] p q = absurd (cc)
not_below_trans (x ∷ xs) (y ∷ ys) (z ∷ zs) p q = ground (arith, not_below_trans xs ys zs)

pub not_below_refl : (a : Bytes) → lt_bytes a a ≡ false
not_below_refl [] = refl
not_below_refl (x ∷ xs) = ground (arith, not_below_refl xs)
