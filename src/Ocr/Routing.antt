-- ===== src/Ocr/Routing.antt =====
-- How a message for the reporting engine reaches it: from the bytes of a message to the engine's handler.
use eavesdrop.Prelude.{
  ℕ, ◌≡◌, refl, ◌∙◌, ap, String, Bool, false, Option, some, List, Bytes, arith, nat_eq,
  if◌then◌else◌, ◌==◌,
}
use eavesdrop.GoMap.{lookup}
use eavesdrop.Crypto.{Signature}
use eavesdrop.Rpc.{Payload, DecodedMsg}
use eavesdrop.Rpc.Codec.{
  default_rpc_decoder, kind_of, rpc_bytes, unsigned, set_signature, no_signature, topic_reporter,
  topic_server,
}
use eavesdrop.Rpc.Codec.RoundTrip.{Reads, Decodes, default_rpc_decoder-reads}
use eavesdrop.Go.{GoError, next, returned}
use eavesdrop.LeaderSelection.{HashLibrary, ProtcolPeer}
use eavesdrop.Reporter.{Engine, Env}
use eavesdrop.Reporter.Process.{process_message}
use eavesdrop.Server.{Setting}
use eavesdrop.Ocr.{Ocr, reporter_handler, receive, deliver, route, call_handler, on_reporter}
use eavesdrop.Ocr.Lost.{InvertsRpc, rpc_bytes-build}

module _ (st : Setting) (env : Env) (lib : HashLibrary) (key : Bytes)
    (rounds : List (List ProtcolPeer)) where
  -- The node with another state of its engine.
  abbrev pub with_engine : Ocr st → Engine → Ocr st
  with_engine o re = record o { pacemaker = record (o.pacemaker) { reporter = re } }

  pub routed_lem :
      (msg : DecodedMsg) (o : Ocr st) (re : Engine) (err : Option GoError)
      → msg.topic ≡ topic_reporter
      → lookup topic_reporter o.handlers ≡ some reporter_handler
      → process_message env msg o.pacemaker.reporter ≡ returned err re
      → route st env lib key rounds msg o ≡ next tt (with_engine o re)
  unfolding route call_handler on_reporter
  routed_lem msg o re err topic handled done =
      let elsewhere : (msg.topic == topic_server) ≡ false = ground (arith, topic) in
      let found : lookup msg.topic o.handlers ≡ some reporter_handler =
        ap (λ t. lookup t o.handlers) topic ∙ handled in
      rw (route, elsewhere, found, on_reporter, done) refl

  -- Bytes of a message for the engine reach it.
  pub delivered_lem :
      (from_id : String) (headers : ℕ) (p q : Payload) (sig : Signature) (keeps : Bool) (b : Bytes)
      (o : Ocr st) (re : Engine) (err : Option GoError)
      → st.codec ≡ env.codec
      → InvertsRpc env.codec
      → Reads env.codec p q
      → Decodes headers (kind_of p) keeps
      → rpc_bytes env.codec (set_signature sig (unsigned from_id headers topic_reporter p)) ≡ some b
      → lookup topic_reporter o.handlers ≡ some reporter_handler
      → process_message env
          (record {
            from_id = from_id;
            topic = topic_reporter;
            data_of = q;
            signature = if keeps then sig else no_signature;
          })
          o.pacemaker.reporter
        ≡ returned err re
      → receive st env lib key rounds b o ≡ next tt (with_engine o re)
  unfolding receive deliver
  delivered_lem from_id headers p q sig keeps b o re err same rpc inv d wired handled done =
      let builder = set_signature sig (unsigned from_id headers topic_reporter p) in
      let (m, made, read) = rpc_bytes-build env.codec rpc builder b wired in
      let decoded =
        default_rpc_decoder-reads env.codec from_id headers topic_reporter p q sig m inv made keeps
          d in
      rw
        (
          receive,
          ap (λ c. c.decode_rpc b) same ∙ read,
          deliver,
          ap (λ c. default_rpc_decoder c m) same ∙ decoded,
        )
        (routed_lem _ o re err refl handled done)
