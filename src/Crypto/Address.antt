-- ===== src/Crypto/Address.antt =====
-- Addresses: crypto/address.go. An address is the list of its bytes.
use Prim.Native.String.{◌++◌}
use Prim.Native.String.append
use eavesdrop.Prelude.{
  ◌≡◌, refl, ◌∙◌, String, Option, none, some, Bytes, ◌==◌, nat_eq, string_eq, if◌then◌else◌, length,
  arith, ap, true, ◌⊎◌, inl, inr, ◌≢◌, Bool-cases, Option-cases,
}
use eavesdrop.Crypto.{CryptoLibrary}

-- `Address`
abbrev pub Address : Type 0
Address = Bytes

-- `AddressFromBytes`; none is its panic.
unfoldable pub address_from_bytes : Bytes → Option Address
address_from_bytes bytes = if length bytes == 20 then some bytes else none

-- `hexStr`, without its prefix.
unfoldable pub strip_prefix : String → String
strip_prefix String.[] = String.[]
strip_prefix (String.◌∷◌ c String.[]) = String.◌∷◌ c String.[]
strip_prefix (String.◌∷◌ c (String.◌∷◌ d rest)) =
    if String.◌∷◌ c (String.◌∷◌ d String.[]) == "0x" then rest else String.◌∷◌ c (String.◌∷◌ d rest)

module _ (lib : CryptoLibrary) where
  -- `Address.String`
  unfoldable pub address_string : Address → String
  address_string a = "0x" ++ lib.encode_to_string a

  -- `UnmarshalText`; none is its error.
  unfoldable pub unmarshal_text : String → Option Address
  unfolding strip_prefix
  unmarshal_text text = elim (lib.decode_string (strip_prefix text)) [
    | none ↦ none
    | some decoded ↦ if length decoded == 20 then some decoded else none
  ]

append-0x : (s : String) → "0x" ++ s ≡ String.◌∷◌ "0" (String.◌∷◌ "x" s)
append-0x s =
    append.cons "0" "x" s
    ∙ ap (λ t. String.◌∷◌ "0" t) (append.cons "x" "" s ∙ ap (λ t. String.◌∷◌ "x" t) (append.nil s))

strip_prefix-append : (s : String) → strip_prefix ("0x" ++ s) ≡ s
unfolding strip_prefix
strip_prefix-append s = rw (append-0x s) refl

-- What encoding/hex documents: DecodeString undoes EncodeToString.
abbrev pub DecodesHex : CryptoLibrary → Type 0
DecodesHex lib = (b : Bytes) → lib.decode_string (lib.encode_to_string b) ≡ some b

module _ (lib : CryptoLibrary) where
  unmarshal_text-address :
      (a : Address)
      → DecodesHex lib
      → length a ≡ 20
      → unmarshal_text lib (address_string lib a) ≡ some a
  unfolding unmarshal_text address_string
  unmarshal_text-address a hex full =
      let decoded = ap lib.decode_string (strip_prefix-append (lib.encode_to_string a)) ∙ hex a in
      let fits : (length a == 20) ≡ true = rw full refl in
      rw (unmarshal_text, address_string, decoded, fits) refl

  unmarshal_text-length :
      (text : String) (a : Address) → unmarshal_text lib text ≡ some a → length a ≡ 20
  unfolding unmarshal_text
  unmarshal_text-length text a e = elim (Option-cases (lib.decode_string (strip_prefix text))) [
    | inl f ↦ absurd (ground arith)
    | inr (decoded, f) ↦ ground arith
  ]

-- If decoding undoes the encoding of hexadecimal text, bytes either make an address, whose text is read
-- back as these bytes, or are refused, and then no text is read as them.
pub address_round_trip :
    (lib : CryptoLibrary) (b : Bytes)
    → DecodesHex lib
    → ((a : Address) × (address_from_bytes b ≡ some a)
        × (unmarshal_text lib (address_string lib a) ≡ some b))
      ⊎ ((address_from_bytes b ≡ none) × ((text : String) → unmarshal_text lib text ≢ some b))
unfolding address_from_bytes
address_round_trip lib b hex = elim (Bool-cases (length b == 20)) [
  | inl full ↦ inl (b, rw full refl, unmarshal_text-address lib b hex (ground arith))
  | inr other ↦ inr (rw other refl, λ text e. ground (arith, unmarshal_text-length lib text b e))
]
