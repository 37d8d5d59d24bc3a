-- ===== src/Scenarios/Texts.antt =====
-- A coding of bytes as text that loses nothing, with an address and a key through it.
use eavesdrop.Prelude.{
  ℕ, zero, suc, ◌≡◌, ◌≢◌, ◌⊎◌, refl, ap, ◌∙◌, String, none, some, [], ◌∷◌, Bytes, ◌==◌, nat_eq,
  length, true, arith, string_eq, if◌then◌else◌,
}
use eavesdrop.Crypto.{CryptoLibrary, PrivateKey, sign, verify, key_string, string_to_public_key}
use eavesdrop.Crypto.Keys.{KeyLaws, full_keys_only}
use eavesdrop.Crypto.Address.{
  Address, address_from_bytes, address_string, unmarshal_text, DecodesHex, address_round_trip,
}
use eavesdrop.LeaderSelection.Backoff.{replicate}
use eavesdrop.Scenarios.Engines.{trusting_crypto}

-- A byte in unary, ended by a zero.
abbrev write_byte : ℕ → String → String
write_byte zero rest = String.◌∷◌ "0" rest
write_byte (suc n) rest = String.◌∷◌ "1" (write_byte n rest)

abbrev write_bytes : Bytes → String
write_bytes [] = ""
write_bytes (b ∷ bs) = write_byte b (write_bytes bs)

abbrev increment : Bytes → Bytes
increment [] = []
increment (b ∷ bs) = suc b ∷ bs

abbrev read_bytes : String → Bytes
read_bytes String.[] = []
read_bytes (String.◌∷◌ c rest) =
    if String.◌∷◌ c String.[] == "0" then 0 ∷ read_bytes rest else increment (read_bytes rest)

read_bytes-write_byte :
    (b : ℕ) (rest : String) → read_bytes (write_byte b rest) ≡ b ∷ read_bytes rest
read_bytes-write_byte zero rest = refl
read_bytes-write_byte (suc b) rest = ap increment (read_bytes-write_byte b rest)

read_bytes-write_bytes : (bs : Bytes) → read_bytes (write_bytes bs) ≡ bs
read_bytes-write_bytes [] = refl
read_bytes-write_bytes (b ∷ bs) =
    read_bytes-write_byte b (write_bytes bs) ∙ ap (λ rest. b ∷ rest) (read_bytes-write_bytes bs)

abbrev unary_crypto : CryptoLibrary
unary_crypto = record trusting_crypto {
  encode_to_string = write_bytes;
  decode_string = λ s. some (read_bytes s);
}

pub unary_crypto-DecodesHex : DecodesHex unary_crypto
unary_crypto-DecodesHex b = ap some (read_bytes-write_bytes b)

abbrev twenty_bytes : Bytes
twenty_bytes = replicate 20 3

address_round_trip_example :
    ((a : Address) × (address_from_bytes twenty_bytes ≡ some a)
      × (unmarshal_text unary_crypto (address_string unary_crypto a) ≡ some twenty_bytes))
    ⊎ ((address_from_bytes twenty_bytes ≡ none)
        × ((text : String) → unmarshal_text unary_crypto text ≢ some twenty_bytes))
address_round_trip_example = address_round_trip unary_crypto twenty_bytes unary_crypto-DecodesHex

-- Keys of 32 bytes, and a curve of one point.
abbrev pub point_crypto : CryptoLibrary
point_crypto = record unary_crypto {
  big_bytes = λ n. replicate 32 n;
  unmarshal_compressed = λ b. if length b == 33 then some (1, 1) else none;
}

abbrev pub point_key : PrivateKey
point_key = record { d = 1; public = record { x = 1; y = 1 } }

pub point_crypto-KeyLaws : KeyLaws point_crypto point_key
point_crypto-KeyLaws = record {
  signed = λ msg r s e. refl;
  compressed = λ b size. ground (arith, size);
}

point_signed : sign point_crypto point_key [] ≡ some (record { r = some 1; s = some 2 })
unfolding sign
point_signed = refl

full_keys_only_example :
    ((length (point_crypto.big_bytes 1) ≡ 32)
      × (string_to_public_key point_crypto (key_string point_crypto point_key.public)
          ≡ some point_key.public)
      × (verify point_crypto (record { r = some 1; s = some 2 }) [] point_key.public ≡ some true))
    ⊎ ((length (point_crypto.big_bytes 1) ≢ 32)
        × (string_to_public_key point_crypto (key_string point_crypto point_key.public) ≡ none)
        × (verify point_crypto (record { r = some 1; s = some 2 }) [] point_key.public ≡ none))
full_keys_only_example =
    full_keys_only point_crypto point_key [] (record { r = some 1; s = some 2 })
      point_crypto-KeyLaws unary_crypto-DecodesHex (λ full. refl) point_signed
