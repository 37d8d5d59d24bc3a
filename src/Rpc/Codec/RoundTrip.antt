-- ===== src/Rpc/Codec/RoundTrip.antt =====
-- What the decoder makes of the messages that the builder makes.
use eavesdrop.Prelude.{
  ℕ, String, Bool, true, false, ◌≡◌, ◌⊎◌, inl, inr, refl, none, some, Bytes, nat_eq, arith,
  if◌then◌else◌, Option-cases,
}
use eavesdrop.Crypto.{Signature}
use eavesdrop.Rpc.{Payload}
use eavesdrop.Rpc.Codec.{
  Codec, Message, RpcMessage, Kind, is_new_epoch, is_status, is_observe_req, is_observe_resp,
  is_report_req, is_report_res, is_observation_map, is_change_leader, build, default_rpc_decoder,
  no_signature, unsigned, message_new_epoch, message_status, message_change_leader,
  message_observe_req, message_observe_res, message_report_req, message_report_res,
  message_observation_map, message_final_report, message_final_echo, message_progress_round,
  set_signature, kind_of,
}

-- The headers that the decoder knows, with the type of the body and whether the signature is kept.
pub data Decodes : ℕ → Kind → Bool → Type 0 where
  new_epochs : Decodes message_new_epoch is_new_epoch false
  statuses : Decodes message_status is_status false
  leader_changes : Decodes message_change_leader is_change_leader false
  observe_reqs : Decodes message_observe_req is_observe_req false
  observe_ress : Decodes message_observe_res is_observe_resp true
  report_reqs : Decodes message_report_req is_report_req false
  report_ress : Decodes message_report_res is_report_res true
  observation_maps : Decodes message_observation_map is_observation_map false

-- `Decode` undoes `Encode` on this payload and on the message around it.
pub record Inverts (codec : Codec) (p : Payload) : Type 0 where
  pub body : (b : Bytes) → codec.encode p ≡ some b → codec.decode (kind_of p) b ≡ some p
  pub message :
      (m : Message) (b : Bytes) → codec.encode_message m ≡ some b → codec.decode_message b ≡ some m

-- `Decode` makes `q` of what `Encode` makes of `p`, a payload of the same type, and undoes `Encode` on the
-- message around it.
pub record Reads (codec : Codec) (p q : Payload) : Type 0 where
  pub body : (b : Bytes) → codec.encode p ≡ some b → codec.decode (kind_of p) b ≡ some q
  pub message :
      (m : Message) (b : Bytes) → codec.encode_message m ≡ some b → codec.decode_message b ≡ some m

pub Inverts-Reads : (codec : Codec) (p : Payload) → Inverts codec p → Reads codec p p
Inverts-Reads codec p inv = record { body = inv.body; message = inv.message }

module _ (codec : Codec) (from_id : String) (headers topic : ℕ) (p q : Payload) (sign : Signature)
    (rpc_msg : RpcMessage) (inv : Reads codec p q)
    (built : build codec (set_signature sign (unsigned from_id headers topic p))
      ≡ some rpc_msg) where
  -- What a built message holds: its sender, its signature, and the encoded body behind the headers.
  build_parts :
      (b : Bytes) × (codec.encode p ≡ some b)
      × (codec.decode_message rpc_msg.payload
          ≡ some (record { headers = headers; topic = topic; body = b }))
      × (rpc_msg.signature ≡ sign)
      × (rpc_msg.from_id ≡ from_id)
  unfolding build set_signature unsigned
  build_parts = elim (Option-cases (codec.encode p)) [
    | inl e ↦ absurd (ground arith)
    | inr (b, e) ↦
        let msg : Message = record { headers = headers; topic = topic; body = b } in
        elim (Option-cases (codec.encode_message msg)) [
          | inl f ↦ absurd (ground arith)
          | inr (c, f) ↦ (b, e, ground (arith, inv.message msg c f), ground arith, ground arith)
        ]
  ]

  decode_known :
      (h : ℕ) (k : Kind) (keeps : Bool)
      → h ≡ headers
      → k ≡ kind_of p
      → Decodes h k keeps
      → default_rpc_decoder codec rpc_msg
        ≡ some (record {
          from_id = from_id;
          topic = topic;
          data_of = q;
          signature = if keeps then sign else no_signature;
        })
  unfolding default_rpc_decoder
  decode_known h k keeps eh ek new_epochs =
      let (b, e, m, s, i) = build_parts in ground (arith, inv.body b e)
  decode_known h k keeps eh ek d = let (b, e, m, s, i) = build_parts in ground (arith, inv.body b e)

  -- A built message decodes to what its payload is read as.
  pub default_rpc_decoder-reads :
      (keeps : Bool)
      → Decodes headers (kind_of p) keeps
      → default_rpc_decoder codec rpc_msg
        ≡ some (record {
          from_id = from_id;
          topic = topic;
          data_of = q;
          signature = if keeps then sign else no_signature;
        })
  default_rpc_decoder-reads keeps d = decode_known headers (kind_of p) keeps refl refl d

module _ (codec : Codec) (from_id : String) (headers topic : ℕ) (p : Payload) (sign : Signature)
    (rpc_msg : RpcMessage) (inv : Inverts codec p)
    (built : build codec (set_signature sign (unsigned from_id headers topic p))
      ≡ some rpc_msg) where
  -- If the codec inverts itself on the payload, a built message whose headers the decoder knows for the
  -- payload's type decodes to its sender, topic and payload; the signature is kept for OBSERVE-RES and
  -- REPORT-RES, and is the zero signature for the others.
  pub default_rpc_decoder-build :
      (keeps : Bool)
      → Decodes headers (kind_of p) keeps
      → default_rpc_decoder codec rpc_msg
        ≡ some (record {
          from_id = from_id;
          topic = topic;
          data_of = p;
          signature = if keeps then sign else no_signature;
        })
  default_rpc_decoder-build keeps d =
      default_rpc_decoder-reads codec from_id headers topic p p sign rpc_msg
        (Inverts-Reads codec p inv) built keeps d

  -- If the codec inverts itself on the payload, a built message with the headers of a final report, a
  -- final echo or a round progress is refused by the decoder.
  pub final_messages_undecodable :
      (headers ≡ message_final_report)
        ⊎ ((headers ≡ message_final_echo) ⊎ (headers ≡ message_progress_round))
      → default_rpc_decoder codec rpc_msg ≡ none
  unfolding default_rpc_decoder
  final_messages_undecodable h =
      let (b, e, m, s, i) =
        build_parts codec from_id headers topic p p sign rpc_msg (Inverts-Reads codec p inv)
          built in
      ground arith
