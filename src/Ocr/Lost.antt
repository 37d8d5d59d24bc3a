-- ===== src/Ocr/Lost.antt =====
-- What becomes of the final report on its way to the other nodes.
use eavesdrop.Prelude.{
  ℕ, ◌≡◌, refl, sym, ◌∙◌, ◌⊎◌, inl, inr, String, none, some, List, [], ◌∷◌, ◌++◌, Bytes, arith,
  Option-cases,
}
use eavesdrop.Crypto.{Signature, sign}
use eavesdrop.Go.{next}
use eavesdrop.LeaderSelection.{HashLibrary, ProtcolPeer}
use eavesdrop.Rpc.{new_epoch, Payload, FinalReport, final_report}
use eavesdrop.Rpc.Builder.{
  new_epoch_bytes, set_data, builder_bytes, build_message, set_topic, set_headers,
  new_message_builder,
}
use eavesdrop.Rpc.Codec.{
  Message, message_new_epoch, topic_pacemaker, no_signature, Codec, RpcMessage, RpcMessageBuilder,
  rpc_bytes, build, unsigned, set_signature, default_rpc_decoder, topic_reporter,
  message_final_report, message_final_echo, message_progress_round,
}
use eavesdrop.Rpc.Codec.RoundTrip.{Inverts, final_messages_undecodable}
use eavesdrop.Reporter.{Engine, Env, broadcast}
use eavesdrop.Reporter.Phases.{handle_final, broadcast_signed}
use eavesdrop.Server.{Setting}
use eavesdrop.Ocr.{Ocr, deliver, receive}

-- `Decode` undoes `Encode` on an RPC message.
abbrev pub InvertsRpc : Codec → Type 0
InvertsRpc codec =
    (m : RpcMessage) (b : Bytes) → codec.encode_rpc m ≡ some b → codec.decode_rpc b ≡ some m

module _ (codec : Codec) (rpc : InvertsRpc codec) where
  -- The bytes of a builder decode to the message that it builds.
  pub rpc_bytes-build :
      (builder : RpcMessageBuilder) (b : Bytes)
      → rpc_bytes codec builder ≡ some b
      → (m : RpcMessage) × (build codec builder ≡ some m) × (codec.decode_rpc b ≡ some m)
  unfolding rpc_bytes
  rpc_bytes-build builder b e = elim (Option-cases (build codec builder)) [
    | inl f ↦ absurd (ground arith)
    | inr (m, f) ↦ (m, f, rpc m b (ground arith))
  ]

  -- A final message is refused on arrival.
  final_bytes_refused :
      (id : String) (headers : ℕ) (p : Payload) (sig : Signature) (b : Bytes)
      → Inverts codec p
      → (headers ≡ message_final_report)
        ⊎ ((headers ≡ message_final_echo) ⊎ (headers ≡ message_progress_round))
      → rpc_bytes codec (set_signature sig (unsigned id headers topic_reporter p)) ≡ some b
      → (m : RpcMessage) × (codec.decode_rpc b ≡ some m) × (default_rpc_decoder codec m ≡ none)
  final_bytes_refused id headers p sig b inv final e =
      let (m, built, decoded) =
        rpc_bytes-build (set_signature sig (unsigned id headers topic_reporter p)) b e in
      (
        m,
        decoded,
        final_messages_undecodable codec id headers topic_reporter p sig m inv built final,
      )

-- What a signed broadcast puts on the wire.
broadcast_signed-sent :
    (env : Env) (headers : ℕ) (p : Payload) (re re' : Engine)
    → broadcast_signed env headers p re ≡ next tt re'
    → (sig : Signature) × (b : Bytes) × (rpc_bytes env.codec
          (set_signature sig (unsigned re.server_id headers topic_reporter p))
        ≡ some b)
      × (re'.outbox ≡ re.outbox ++ broadcast b ∷ [])
unfolding broadcast_signed
broadcast_signed-sent env headers p re re' e = elim (Option-cases (env.codec.encode p)) [
  | inl f ↦ absurd (ground arith)
  | inr (msg, f) ↦ elim (Option-cases (sign env.crypto re.signer msg)) [
    | inl g ↦ absurd (ground arith)
    | inr (sig, g) ↦
        elim (Option-cases (
          rpc_bytes env.codec
            (set_signature sig (unsigned re.server_id headers topic_reporter p)))) [
              | inl h ↦ absurd (ground arith)
              | inr (b, h) ↦ (sig, b, h, ground arith)
            ]
  ]
]

-- What `handleFinal` broadcasts of a report.
abbrev pub announcement : Engine → FinalReport → Payload
announcement re report =
    final_report
      (record { epoch = re.epoch; round = re.cur_round; leader = re.leader; final_report = report })

handle_final-held :
    (env : Env) (re : Engine) (report : FinalReport)
    → re.leader_state.final_report ≡ some report
    → handle_final env re ≡ broadcast_signed env message_final_report (announcement re report) re
unfolding handle_final
handle_final-held env re report held = ground (arith, held)

module _ (st : Setting) (env : Env) (lib : HashLibrary) (key : Bytes)
    (rounds : List (List ProtcolPeer)) where
  refused-receive :
      (b : Bytes) (m : RpcMessage) (o : Ocr st)
      → st.codec.decode_rpc b ≡ some m
      → default_rpc_decoder st.codec m ≡ none
      → receive st env lib key rounds b o ≡ next tt o
  unfolding receive deliver
  refused-receive b m o e f = rw (e, receive, f, deliver) refl

  -- If the leader and another node share a codec in which decoding undoes encoding, and the leader
  -- broadcasts the final report it holds, then the bytes it sends leave the other node as it is when they
  -- arrive.
  pub final_report_lost :
      (re re' : Engine) (report : FinalReport) (o : Ocr st)
      → env.codec ≡ st.codec
      → InvertsRpc st.codec
      → Inverts st.codec (announcement re report)
      → re.leader_state.final_report ≡ some report
      → handle_final env re ≡ next tt re'
      → (b : Bytes) × (re'.outbox ≡ re.outbox ++ broadcast b ∷ [])
        × (receive st env lib key rounds b o ≡ next tt o)
  final_report_lost re re' report o same rpc inv held done =
      let p = announcement re report in
      let signed = sym (handle_final-held env re report held) ∙ done in
      let (sig, b, e, sent) = broadcast_signed-sent env message_final_report p re re' signed in
      let (m, decoded, refused) =
        final_bytes_refused st.codec rpc re.server_id message_final_report p sig b inv (inl refl)
          (rw same at e) in
      (b, sent, refused-receive b m o decoded refused)

-- What encoding/json documents of a `Message` that is read as an `RPCMessage`: keys without a field are
-- ignored, and fields without a key stay zero.
abbrev pub IgnoresKeys : Codec → Type 0
IgnoresKeys codec =
    (m : Message) (b : Bytes)
    → codec.encode_message m ≡ some b
    → codec.decode_rpc b ≡ some (record { from_id = ""; payload = []; signature = no_signature })

module _ (st : Setting) (env : Env) (lib : HashLibrary) (key : Bytes)
    (rounds : List (List ProtcolPeer)) where
  new_epoch_bytes-message :
      (e : ℕ) (b : Bytes)
      → new_epoch_bytes st.codec e ≡ some b
      → (m : Message) × (st.codec.encode_message m ≡ some b)
  unfolding new_epoch_bytes set_data builder_bytes build_message set_topic set_headers
      new_message_builder
  new_epoch_bytes-message e b sent =
      elim (Option-cases (st.codec.encode (new_epoch (record { epoch_id = e })))) [
        | inl f ↦ absurd (ground arith)
        | inr (body, f) ↦ (
          record { headers = message_new_epoch; topic = topic_pacemaker; body = body },
          ground arith,
        )
      ]

  refused_empty :
      (from_id : String) (sig : Signature)
      → st.codec.decode_message [] ≡ none
      → default_rpc_decoder st.codec (record { from_id = from_id; payload = []; signature = sig })
        ≡ none
  unfolding default_rpc_decoder
  refused_empty from_id sig empty = ground (arith, empty)

  -- If the codec reads a bare message as an empty RPC message, and no message from no bytes, then what the
  -- pacemaker broadcasts to announce an epoch leaves a node as it is when it arrives.
  pub new_epoch_lost :
      (e : ℕ) (b : Bytes) (o : Ocr st)
      → IgnoresKeys st.codec
      → st.codec.decode_message [] ≡ none
      → new_epoch_bytes st.codec e ≡ some b
      → receive st env lib key rounds b o ≡ next tt o
  new_epoch_lost e b o ignores empty sent =
      let (m, encoded) = new_epoch_bytes-message e b sent in
      refused-receive st env lib key rounds b _ o (ignores m b encoded)
        (refused_empty "" no_signature empty)
