-- ===== src/Scenarios/Messages.antt =====
-- A codec that loses nothing, and messages through it.
use eavesdrop.Prelude.{ℕ, zero, suc, true, Option, some, none, [], ◌∷◌, ◌≡◌, refl, subst, Bytes}
use eavesdrop.Crypto.{Signature}
use eavesdrop.Rpc.{Payload, observe_resp}
use eavesdrop.Rpc.Codec.{
  Codec, Message, RpcMessage, build, default_rpc_decoder, unsigned, set_signature, kind_of,
  message_observe_res, topic_reporter,
}
use eavesdrop.Rpc.Codec.RoundTrip.{Inverts, Decodes, default_rpc_decoder-build}

-- Every payload is written as its one known body, which the codec reads back.
abbrev pub known : Payload
known = observe_resp (record { epoch = 1; round = 2; leader = "a"; job_responses = [] })

abbrev read_message : Bytes → Option Message
read_message (h ∷ t ∷ body) = some (record { headers = h; topic = t; body = body })
read_message _ = none

-- A codec for one payload, whose body is empty.
abbrev pub codec_of : Payload → Codec
codec_of p = record {
  encode = λ _. some [];
  decode = λ _ _. some p;
  encode_message = λ m. some (m.headers ∷ m.topic ∷ m.body);
  decode_message = read_message;
  encode_rpc = λ _. some [];
  decode_rpc = λ _. none;
}

some_injective {ℓ} : {A : Type ℓ} (a b : A) → some a ≡ some b → a ≡ b
some_injective a b e = cc

pub codec_of-Inverts : (p : Payload) → Inverts (codec_of p) p
codec_of-Inverts p = record { body = λ b e. refl; message = reads }
  where
    reads :
        (m : Message) (b : Bytes)
        → some (m.headers ∷ m.topic ∷ m.body) ≡ some b
        → read_message b ≡ some m
    reads m b e = subst (λ c. read_message c ≡ some m) (some_injective _ b e) refl

-- Half of a signature as a number.
abbrev pub write_half : Option ℕ → ℕ
write_half none = 0
write_half (some n) = suc n

abbrev pub read_half : ℕ → Option ℕ
read_half zero = none
read_half (suc n) = some n

pub read_half-write_half : (half : Option ℕ) → read_half (write_half half) ≡ half
read_half-write_half none = refl
read_half-write_half (some n) = refl

abbrev mark : Signature
mark = record { r = some 3; s = some 4 }

abbrev sent : ℕ → RpcMessage
sent headers = record { from_id = "b"; payload = headers ∷ topic_reporter ∷ []; signature = mark }

built_known :
    build
      (codec_of known)
      (set_signature mark (unsigned "b" message_observe_res topic_reporter known))
    ≡ some (sent message_observe_res)
unfolding build set_signature unsigned
built_known = refl

default_rpc_decoder-build_example :
    default_rpc_decoder (codec_of known) (sent message_observe_res)
    ≡ some (record { from_id = "b"; topic = topic_reporter; data_of = known; signature = mark })
unfolding kind_of
default_rpc_decoder-build_example =
    default_rpc_decoder-build (codec_of known) "b" message_observe_res topic_reporter known mark
      (sent message_observe_res) (codec_of-Inverts known) built_known true Decodes.observe_ress
