-- ===== src/Scenarios/Wires.antt =====
-- A leader that sends its final report to a node over a codec that loses nothing.
use eavesdrop.Prelude.{
  ◌≡◌, refl, true, ◌==◌, nat_eq, string_eq, Option, none, some, [], ◌∷◌, ◌++◌, Bytes, if◌then◌else◌,
  arith,
}
use eavesdrop.Go.{next, exit, blocked}
use eavesdrop.GoMap.{lookup, assign}
use eavesdrop.LeaderSelection.{exponential_backoff, find_leader, hash_peer}
use eavesdrop.Pacemaker.{init_ticker_time, max_backoff, new_pacemaker, set_ocr_context}
use eavesdrop.Pacemaker.Startup.{start_pacemaker}
use eavesdrop.Reporter.Lifecycle.{zero_engine}
use eavesdrop.Rpc.Builder.{
  new_epoch_bytes, set_data, builder_bytes, build_message, set_topic, set_headers,
  new_message_builder,
}
use eavesdrop.Ocr.Early.{early_message_blocks}
use eavesdrop.Scenarios.JobRuns.{plain_jobs}
use eavesdrop.Scenarios.Starts.{plain_specs, from_dir}
use eavesdrop.Rpc.{DecodedMsg, new_epoch, observe_req, FinalReport}
use eavesdrop.Rpc.Codec.{
  no_signature, message_new_epoch, topic_pacemaker, Codec, RpcMessage, set_signature, unsigned,
  rpc_bytes, build, topic_reporter,
}
use eavesdrop.Crypto.{sign}
use eavesdrop.Rpc.Codec.RoundTrip.{Inverts}
use eavesdrop.Reporter.{Engine, Env, broadcast, phase_final}
use eavesdrop.Reporter.Steps.{sign_message, built, broadcast_msg}
use eavesdrop.Reporter.Phases.{handle_final, broadcast_signed}
use eavesdrop.Server.{new_server}
use eavesdrop.Ocr.{Ocr, new_ocr, receive, route, register_handler, reporter_handler}
use eavesdrop.Ocr.Lost.{InvertsRpc, announcement, final_report_lost, new_epoch_lost}
use eavesdrop.Scenarios.Messages.{
  codec_of, codec_of-Inverts, write_half, read_half, read_half-write_half,
}
use eavesdrop.Scenarios.Engines.{plain_env, engine_at}
use eavesdrop.Scenarios.Leaders.{plain_hmac, peers_of_b, peer_of}
use eavesdrop.Scenarios.Nodes.{setting_of}
use eavesdrop.Scenarios.Streams.{plain_transport}

abbrev report : FinalReport
report = record { report = []; signatories = [] }

abbrev leader : Engine
leader = record (engine_at true) {
  leader_state = record ((engine_at true).leader_state) {
    final_report = some report;
    phase = phase_final;
  };
}

-- Messages of "b" are written as their signature and their payload.
abbrev write_rpc : RpcMessage → Option Bytes
write_rpc m =
    if m.from_id == "b"
    then some (write_half m.signature.r ∷ write_half m.signature.s ∷ m.payload)
    else none

abbrev read_rpc : Bytes → Option RpcMessage
read_rpc (r ∷ s ∷ payload) = some (record {
  from_id = "b";
  payload = payload;
  signature = record { r = read_half r; s = read_half s };
})
read_rpc _ = none

abbrev wire : Codec
wire = record (codec_of (announcement leader report)) {
  encode_rpc = write_rpc;
  decode_rpc = read_rpc;
}

wire-InvertsRpc : InvertsRpc wire
wire-InvertsRpc m b e = ground (
  arith,
  string_eq.beq_iff m.from_id "b",
  read_half-write_half m.signature.r,
  read_half-write_half m.signature.s,
)

wire-Inverts : Inverts wire (announcement leader report)
wire-Inverts =
    let inv = codec_of-Inverts (announcement leader report) in
    record { body = inv.body; message = inv.message }

abbrev wire_env : Env
wire_env = record plain_env { codec = wire }

abbrev announced_leader : Engine
announced_leader = record leader { outbox = broadcast (2 ∷ 3 ∷ 9 ∷ topic_reporter ∷ []) ∷ [] }

final_sent : handle_final wire_env leader ≡ next tt announced_leader
unfolding handle_final broadcast_signed sign_message built broadcast_msg rpc_bytes build
    set_signature unsigned sign
final_sent = refl

abbrev node : Ocr (setting_of wire)
node = new_ocr (setting_of wire) (new_server (setting_of wire) plain_transport)

final_report_lost_example :
    (b : Bytes) × (announced_leader.outbox ≡ [] ++ broadcast b ∷ [])
    × (receive (setting_of wire) wire_env plain_hmac [] (peers_of_b ∷ []) b node ≡ next tt node)
final_report_lost_example =
    final_report_lost (setting_of wire) wire_env plain_hmac [] (peers_of_b ∷ []) leader
      announced_leader report node refl wire-InvertsRpc wire-Inverts refl final_sent

-- A codec for announcements of epochs. A message that is read as an RPC message is empty.
abbrev epoch_codec : Codec
epoch_codec = record (codec_of (new_epoch (record { epoch_id = 3 }))) {
  decode_rpc = λ b. some (record { from_id = ""; payload = []; signature = no_signature });
}

abbrev epoch_node : Ocr (setting_of epoch_codec)
epoch_node = new_ocr (setting_of epoch_codec) (new_server (setting_of epoch_codec) plain_transport)

epoch_sent : new_epoch_bytes epoch_codec 3 ≡ some (message_new_epoch ∷ topic_pacemaker ∷ [])
unfolding new_epoch_bytes set_data builder_bytes build_message set_topic set_headers
    new_message_builder
epoch_sent = refl

new_epoch_lost_example :
    receive
      (setting_of epoch_codec)
      plain_env
      plain_hmac
      []
      (peers_of_b ∷ [])
      (message_new_epoch ∷ topic_pacemaker ∷ [])
      epoch_node
    ≡ next tt epoch_node
new_epoch_lost_example =
    new_epoch_lost (setting_of epoch_codec) plain_env plain_hmac [] (peers_of_b ∷ []) 3
      (message_new_epoch ∷ topic_pacemaker ∷ []) epoch_node (λ m b e. refl) refl epoch_sent

-- A node of which the pacemaker has not started, and a message for its engine.
abbrev early : DecodedMsg
early = record {
  from_id = "a";
  topic = topic_reporter;
  data_of = observe_req (record { epoch = 0; round = 1; leader = "a"; jobs = [] });
  signature = no_signature;
}

abbrev begun_node : Ocr (setting_of epoch_codec)
begun_node =
    record (register_handler (setting_of epoch_codec) topic_reporter reporter_handler epoch_node) {
      pacemaker = set_ocr_context 0 2 "b" new_pacemaker;
    }

reporter_registered : lookup topic_reporter begun_node.handlers ≡ some reporter_handler
unfolding lookup assign register_handler new_ocr
reporter_registered = refl

a_leads :
    exponential_backoff plain_hmac begun_node.pacemaker.stats.e [] max_backoff init_ticker_time
      begun_node.pacemaker.ocr_id
      (peers_of_b ∷ [])
    ≡ some (peer_of "a", [])
unfolding exponential_backoff find_leader hash_peer set_ocr_context new_pacemaker
a_leads = refl

early_message_blocks_example :
    (o' : Ocr (setting_of epoch_codec)) × (route
        (setting_of epoch_codec)
        plain_env
        plain_hmac
        []
        (peers_of_b ∷ [])
        early
        begun_node
      ≡ next tt o')
    × (start_pacemaker plain_jobs plain_specs plain_hmac []
          (peers_of_b ∷ [])
          from_dir
          []
          (engine_at true).signer
          (λ id. true)
          o'.pacemaker
        ≡ exit (blocked o'.pacemaker))
unfolding set_ocr_context new_pacemaker zero_engine
early_message_blocks_example =
    early_message_blocks (setting_of epoch_codec) plain_env plain_hmac [] (peers_of_b ∷ [])
      plain_jobs plain_specs from_dir [] (engine_at true).signer (λ id. true) early begun_node
      (peer_of "a") [] refl reporter_registered refl refl a_leads
      (ground (arith, string_eq.beq_iff "a" "b"))
