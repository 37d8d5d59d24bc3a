-- ===== src/Crypto.antt =====
-- Keys and signatures: crypto/keypairs.go. The elliptic curve, SHA-256 and the hexadecimal coding are
-- Go's standard library, and stand here as the parameter `CryptoLibrary`.
pub mod Address
pub mod Keys
use eavesdrop.Prelude.{
  ℕ, ◌%◌, String, Bool, Option, none, some, ◌∷◌, Bytes, ◌==◌, nat_eq, if◌then◌else◌,
}

-- `Signature`, the two halves of an ECDSA signature; none is a nil *big.Int.
pub record Signature : Type 0 where
  pub r : Option ℕ
  pub s : Option ℕ

-- `PublicKey`, the affine coordinates of a point of P-256.
pub record PublicKey : Type 0 where
  pub x : ℕ
  pub y : ℕ

-- `PrivateKey`, the scalar and the public key that ecdsa.PrivateKey embeds.
pub record PrivateKey : Type 0 where
  pub d : ℕ
  pub public : PublicKey

-- What the code calls of crypto/ecdsa, crypto/elliptic, crypto/sha256, encoding/hex and math/big.
pub record CryptoLibrary : Type 0 where
  pub ecdsa_sign : PrivateKey → Bytes → Option (ℕ × ℕ)
  pub ecdsa_verify : PublicKey → Bytes → ℕ → ℕ → Bool
  pub unmarshal_compressed : Bytes → Option (ℕ × ℕ)
  pub sum256 : Bytes → Bytes
  pub encode_to_string : Bytes → String
  pub decode_string : String → Option Bytes
  pub big_bytes : ℕ → Bytes

module _ (lib : CryptoLibrary) where
  -- `PublicKey.Bytes`: the parity of Y, then X without leading zeros.
  unfoldable pub key_bytes : PublicKey → Bytes
  key_bytes p = (if p.y % 2 == 1 then 3 else 2) ∷ lib.big_bytes p.x

  -- `PublicKey.String`
  unfoldable pub key_string : PublicKey → String
  unfolding key_bytes
  key_string p = lib.encode_to_string (key_bytes p)

  unfoldable pub point_of : Option (ℕ × ℕ) → Option PublicKey
  point_of none = none
  point_of (some (x, y)) = some (record { x = x; y = y })

  -- `StringToPublicKey`; `none` is its error.
  unfoldable pub string_to_public_key : String → Option PublicKey
  unfolding point_of
  string_to_public_key text = elim (lib.decode_string text) [
    | none ↦ none
    | some bytes ↦ point_of (lib.unmarshal_compressed bytes)
  ]

  unfoldable pub signature_of : Option (ℕ × ℕ) → Option Signature
  signature_of none = none
  signature_of (some (r, s)) = some (record { r = some r; s = some s })

  -- `PrivateKey.Sign`
  unfoldable pub sign : PrivateKey → Bytes → Option Signature
  unfolding signature_of
  sign key msg = signature_of (lib.ecdsa_sign key msg)

  unfoldable pub halves : Signature → Option (ℕ × ℕ)
  halves sig = elim sig.r [
    | none ↦ none
    | some r ↦ elim sig.s [ none ↦ none | some s ↦ some (r, s) ]
  ]

  -- `Signature.Verify`. The key is compressed and read back; where that fails, or a half of the signature
  -- is nil, the standard library is called with nil numbers, which panics: `none`.
  unfoldable pub verify : Signature → Bytes → PublicKey → Option Bool
  unfolding key_bytes point_of halves
  verify sig msg p = elim (point_of (lib.unmarshal_compressed (key_bytes p))) [
    | none ↦ none
    | some pk ↦ elim (halves sig) [ none ↦ none | some (r, s) ↦ some (lib.ecdsa_verify pk msg r s) ]
  ]
