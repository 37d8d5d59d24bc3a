-- ===== src/Crypto/Keys.antt =====
-- Keys as text, and signatures under them: what crypto/keypairs.go makes of a key of any length, with
-- `ConvertBase64ToECDSAPrivateKey` and `Address`.
use eavesdrop.Prelude.{
  ℕ, ◌-◌, ◌%◌, ◌≡◌, ◌≢◌, ◌⊎◌, refl, ◌∙◌, String, true, Option, none, some, ◌∷◌, Bytes, ◌==◌, nat_eq,
  if◌then◌else◌, length, drop, arith, inl, inr, Bool-cases, Option-cases,
}
use eavesdrop.Crypto.{
  CryptoLibrary, PrivateKey, PublicKey, Signature, key_bytes, key_string, string_to_public_key,
  point_of, halves, sign, signature_of, verify,
}
use eavesdrop.Crypto.Address.{Address, address_from_bytes, DecodesHex}

-- What the key reader calls besides: base64, big.Int.SetBytes, and ScalarBaseMult of P-256, whose
-- coordinates are never nil.
pub record KeyLibrary : Type 0 where
  pub decode_base64 : String → Option Bytes
  pub set_bytes : Bytes → ℕ
  pub scalar_base_mult : ℕ → PublicKey

-- `ConvertBase64ToECDSAPrivateKey`; none is its error.
unfoldable pub convert_base64_to_ecdsa_private_key : KeyLibrary → String → Option PrivateKey
convert_base64_to_ecdsa_private_key lib base64_key = elim (lib.decode_base64 base64_key) [
  | none ↦ none
  | some key_bytes ↦
      if length key_bytes == 32
      then some (record {
        d = lib.set_bytes key_bytes;
        public = lib.scalar_base_mult (lib.set_bytes key_bytes);
      })
      else none
]

-- `PublicKey.Address`; none is a panic.
unfoldable pub key_address : CryptoLibrary → PublicKey → Option Address
unfolding address_from_bytes
key_address lib p =
    let hash = lib.sum256 (key_bytes lib p) in address_from_bytes (drop (length hash - 20) hash)

-- What crypto/ecdsa and crypto/elliptic document: a signature of a key pair is valid under its public key,
-- and a compressed point has 33 bytes.
pub record KeyLaws (lib : CryptoLibrary) (key : PrivateKey) : Type 0 where
  pub signed :
      (msg : Bytes) (r s : ℕ)
      → lib.ecdsa_sign key msg ≡ some (r, s)
      → lib.ecdsa_verify key.public msg r s ≡ true
  pub compressed : (b : Bytes) → length b ≢ 33 → lib.unmarshal_compressed b ≡ none

-- A point of the curve: its compression, of full length, is read back.
abbrev pub IsPoint : CryptoLibrary → PublicKey → Type 0
IsPoint lib p =
    length (lib.big_bytes p.x) ≡ 32
    → lib.unmarshal_compressed ((if p.y % 2 == 1 then 3 else 2) ∷ lib.big_bytes p.x)
      ≡ some (p.x, p.y)

module _ (lib : CryptoLibrary) (p : PublicKey) where
  full_key :
      length (lib.big_bytes p.x) ≡ 32
      → IsPoint lib p
      → lib.unmarshal_compressed (key_bytes lib p) ≡ some (p.x, p.y)
  unfolding key_bytes
  full_key full point = point full

  short_key :
      (key : PrivateKey)
      → KeyLaws lib key
      → length (lib.big_bytes p.x) ≢ 32
      → lib.unmarshal_compressed (key_bytes lib p) ≡ none
  unfolding key_bytes
  short_key key laws short = laws.compressed (key_bytes lib p) (λ e. short (omega (arith, e)))

  -- Reading the text of a key is reading its bytes.
  read_text :
      DecodesHex lib
      → string_to_public_key lib (key_string lib p)
        ≡ point_of lib (lib.unmarshal_compressed (key_bytes lib p))
  unfolding string_to_public_key key_string
  read_text hex = rw (string_to_public_key, hex (key_bytes lib p)) refl

signed_parts :
    (lib : CryptoLibrary) (key : PrivateKey) (msg : Bytes) (sig : Signature)
    → sign lib key msg ≡ some sig
    → (r s : ℕ) × (lib.ecdsa_sign key msg ≡ some (r, s)) × (halves lib sig ≡ some (r, s))
unfolding sign signature_of halves
signed_parts lib key msg sig e = elim (Option-cases (lib.ecdsa_sign key msg)) [
  | inl f ↦ absurd (ground arith)
  | inr ((r, s), f) ↦ (r, s, f, ground arith)
]

-- If signatures of a key pair are valid under its public key, a compressed point has 33 bytes, hexadecimal text is decoded
-- to what was encoded and the key is a point of the curve, then a key whose X takes 32 bytes is read
-- back from its text and its signature is verified; with any other number of bytes the text is refused
-- and the verification panics.
pub full_keys_only :
    (lib : CryptoLibrary) (key : PrivateKey) (msg : Bytes) (sig : Signature)
    → KeyLaws lib key
    → DecodesHex lib
    → IsPoint lib key.public
    → sign lib key msg ≡ some sig
    → ((length (lib.big_bytes key.public.x) ≡ 32)
        × (string_to_public_key lib (key_string lib key.public) ≡ some key.public)
        × (verify lib sig msg key.public ≡ some true))
      ⊎ ((length (lib.big_bytes key.public.x) ≢ 32)
          × (string_to_public_key lib (key_string lib key.public) ≡ none)
          × (verify lib sig msg key.public ≡ none))
unfolding verify point_of
full_keys_only lib key msg sig laws hex point e =
    elim (Bool-cases (length (lib.big_bytes key.public.x) == 32)) [
      | inl full ↦
          let size : length (lib.big_bytes key.public.x) ≡ 32 = ground (arith, full) in
          let read = full_key lib key.public size point in
          let (r, s, made, both) = signed_parts lib key msg sig e in
          let valid = laws.signed msg r s made in
          inl (
            size,
            read_text lib key.public hex ∙ rw (point_of, read) refl,
            rw (verify, read, both, valid) refl,
          )
      | inr short ↦
          let size : length (lib.big_bytes key.public.x) ≢ 32 = ground (arith, short) in
          let unread = short_key lib key.public key laws size in
          inr (
            size,
            read_text lib key.public hex ∙ rw (point_of, unread) refl,
            rw (verify, unread) refl,
          )
    ]
