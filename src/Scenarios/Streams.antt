-- ===== src/Scenarios/Streams.antt =====
-- A host whose stream to peer "a" is broken, and a stream of messages of five bytes.
use eavesdrop.Prelude.{
  ℕ, zero, suc, ◌+◌, ◌<◌, ◌≤◌, ◌≡◌, ◌≢◌, ◌⊎◌, refl, ap, ltb, length, take, ◌==◌, if◌then◌else◌,
  true, false, Option, none, some, [], ◌∷◌, Bytes, All, string_eq, arith,
}
use eavesdrop.GoMap.{lookup}
use eavesdrop.Rpc.Codec.{Codec, RpcMessage, no_signature}
use eavesdrop.Transport.{HostLibrary, LibP2pTransport, read, read_loop}
use eavesdrop.Transport.Streams.{send_all, broken_stream_kept}
use eavesdrop.Transport.Chunks.{ReadsObjects, Encodes, written, first_read_decides}
use eavesdrop.Scenarios.Messages.{known, codec_of, write_half, read_half, read_half-write_half}

-- Every ID is known, the host counts its streams, and stream 0 cannot be written to.
abbrev pub plain_host : HostLibrary ℕ
plain_host = record {
  decode_id = λ id. some id;
  id_string = λ id. id;
  connected = λ h. "a" ∷ "c" ∷ [];
  new_stream = λ id h. (some h, h + 1);
  write = λ stream msg h. (ltb 0 stream, h);
  close_peer = λ id h. (true, h);
  connect = λ id h. (true, h);
}

abbrev pub plain_transport : LibP2pTransport ℕ
plain_transport = record { host = 1; streams = ("a", 0) ∷ []; msg_ch = []; peer_ch = [] }

broken_stream_kept_example :
    All (λ sent. sent ≡ false) (send_all plain_host "a" ([] ∷ (7 ∷ []) ∷ []) plain_transport).0
    × ((send_all plain_host "a" ([] ∷ (7 ∷ []) ∷ []) plain_transport).1.streams
        ≡ plain_transport.streams)
unfolding lookup
broken_stream_kept_example =
    broken_stream_kept plain_host "a" "a" 0 refl (λ msg h. refl) ([] ∷ (7 ∷ []) ∷ [])
      plain_transport refl

-- Messages of "a", written between braces as their signature and one byte.
abbrev write_byte : RpcMessage → Bytes → Option Bytes
write_byte m (x ∷ []) =
    if m.from_id == "a"
    then some (123 ∷ write_half m.signature.r ∷ write_half m.signature.s ∷ x ∷ 125 ∷ [])
    else none
write_byte m _ = none

abbrev read_byte : Bytes → Option RpcMessage
read_byte (_ ∷ r ∷ s ∷ x ∷ _ ∷ []) = some (record {
  from_id = "a";
  payload = x ∷ [];
  signature = record { r = read_half r; s = read_half s };
})
read_byte _ = none

abbrev byte_codec : Codec
byte_codec = record (codec_of known) {
  encode_rpc = λ m. write_byte m m.payload;
  decode_rpc = read_byte;
}

abbrev message_of : ℕ → RpcMessage
message_of x = record { from_id = "a"; payload = x ∷ []; signature = no_signature }

abbrev bytes_of : ℕ → Bytes
bytes_of x = 123 ∷ 0 ∷ 0 ∷ x ∷ 125 ∷ []

-- What is written for a message.
written_lem :
    (m : RpcMessage) (b : Bytes)
    → write_byte m m.payload ≡ some b
    → (x : ℕ) × (m.from_id ≡ "a")
      × (m.payload ≡ x ∷ [])
      × (b ≡ 123 ∷ write_half m.signature.r ∷ write_half m.signature.s ∷ x ∷ 125 ∷ [])
written_lem m b e = go m.payload refl e
  where
    go :
        (p : Bytes)
        → m.payload ≡ p
        → write_byte m p ≡ some b
        → (x : ℕ) × (m.from_id ≡ "a")
          × (m.payload ≡ x ∷ [])
          × (b ≡ 123 ∷ write_half m.signature.r ∷ write_half m.signature.s ∷ x ∷ 125 ∷ [])
    go [] f h = absurd (cc)
    go (x ∷ []) f h = (
      x,
      ground (arith, string_eq.beq_iff m.from_id "a"),
      f,
      ground (arith, string_eq.beq_iff m.from_id "a"),
    )
    go (x ∷ y ∷ p) f h = absurd (cc)

short_lem : (k a b c d e : ℕ) → k < 5 → read_byte (take k (a ∷ b ∷ c ∷ d ∷ e ∷ [])) ≡ none
short_lem zero a b c d e h = refl
short_lem (suc zero) a b c d e h = refl
short_lem (suc (suc zero)) a b c d e h = refl
short_lem (suc (suc (suc zero))) a b c d e h = refl
short_lem (suc (suc (suc (suc zero)))) a b c d e h = refl
short_lem (suc (suc (suc (suc (suc k))))) a b c d e h = absurd (omega arith)

byte_codec-ReadsObjects : ReadsObjects byte_codec
byte_codec-ReadsObjects = record {
  opening = 123;
  whole = λ m b e.
      let (x, a, p, f) = written_lem m b e in
      ground
        (arith, a, p, f, read_half-write_half m.signature.r, read_half-write_half m.signature.s);
  opens = λ m b e. let (x, a, p, f) = written_lem m b e in (_, f);
  proper = λ m b k e h.
      let (x, a, p, f) = written_lem m b e in
      rw (f) (short_lem k _ _ _ _ _ (omega (arith, h, ap length f)));
  trailing = λ m b more e. let (x, a, p, f) = written_lem m b e in rw (f) refl;
}

-- Two messages, of which the first read takes a part.
first_read_decides_example :
    (((read 4 (written (bytes_of 7 ∷ bytes_of 8 ∷ []))).0 ≡ bytes_of 7)
      × (length (bytes_of 7) ≤ 4096)
      × (read_loop byte_codec (4 ∷ 6 ∷ []) (written (bytes_of 7 ∷ bytes_of 8 ∷ []))
          ≡ message_of 7 ∷ read_loop byte_codec (6 ∷ []) (written (bytes_of 8 ∷ []))))
    ⊎ (((read 4 (written (bytes_of 7 ∷ bytes_of 8 ∷ []))).0 ≢ bytes_of 7)
        × (read_loop byte_codec (4 ∷ 6 ∷ []) (written (bytes_of 7 ∷ bytes_of 8 ∷ []))
            ≡ read_loop byte_codec (6 ∷ []) (read 4 (written (bytes_of 7 ∷ bytes_of 8 ∷ []))).1))
first_read_decides_example =
    first_read_decides byte_codec byte_codec-ReadsObjects 4 (6 ∷ []) (message_of 7) (bytes_of 7)
      refl (Encodes.cons {m = message_of 8} {b = bytes_of 8} refl Encodes.nil)
