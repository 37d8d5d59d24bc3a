-- ===== src/Scenarios/Exchanges.antt =====
-- A leader that asks a follower for one price, over a codec that changes only the template of the job.
use eavesdrop.Prelude.{
  ◌+◌, ◌≡◌, refl, String, true, Option, none, some, [], ◌∷◌, ◌++◌, Bytes, ◌==◌, ◌||◌, nat_eq,
  string_eq, if◌then◌else◌, arith,
}
use eavesdrop.GoMap.{fetch, lookup, assign}
use eavesdrop.Go.{next, listened}
use eavesdrop.Go.States.{reached}
use eavesdrop.Crypto.{Signature, sign, key_string, key_bytes}
use eavesdrop.Jobs.{Value, template, composite, DirectRequestTemplateParams, JobObservationResponse}
use eavesdrop.Jobs.DirectRequest.{
  new_direct_req, new_job_from_info, run, run_tasks, result, execute, new_report_assembler,
}
use eavesdrop.Rpc.{Payload, observe_req, observe_resp}
use eavesdrop.Rpc.Codec.{
  Codec, RpcMessage, is_observe_req, is_observe_resp, kind_of, build, rpc_bytes, unsigned,
  set_signature, topic_reporter, message_observe_res,
}
use eavesdrop.Rpc.Codec.RoundTrip.{Inverts, Reads}
use eavesdrop.Reporter.{Engine, Env, broadcast, send_to}
use eavesdrop.Reporter.Steps.{built, broadcast_msg, set_phase}
use eavesdrop.Reporter.Phases.{handle_observe, get_job_infos, job_info}
use eavesdrop.Reporter.Follower.{start_jobs, observe_job, responses}
use eavesdrop.Reporter.Leader.{group_responses}
use eavesdrop.Reporter.Exchange.{question, answer, Succeeds}
use eavesdrop.Server.{new_server}
use eavesdrop.Ocr.{Ocr, new_ocr, receive, register_handler, reporter_handler}
use eavesdrop.Ocr.Lost.{InvertsRpc}
use eavesdrop.Ocr.Exchange.{heard, observation_reaches_leader}
use eavesdrop.Scenarios.Engines.{plain_env, engine_at}
use eavesdrop.Scenarios.JobRuns.{plain_jobs, price_job}
use eavesdrop.Scenarios.Leaders.{plain_hmac, peers_of_b}
use eavesdrop.Scenarios.Messages.{
  codec_of, codec_of-Inverts, write_half, read_half, read_half-write_half,
}
use eavesdrop.Scenarios.Nodes.{setting_of}
use eavesdrop.Scenarios.Streams.{plain_transport}
use eavesdrop.Scenarios.Texts.{
  point_crypto, point_key, point_crypto-KeyLaws, unary_crypto-DecodesHex,
}

abbrev follower_id : String
follower_id = key_string point_crypto point_key.public

abbrev asking : Engine
asking = record (engine_at true) {
  server_id = "a";
  is_leader = true;
  leader_state = record ((engine_at true).leader_state) { phase_ch = listened };
  job_schedule = (2, price_job ∷ []) ∷ [];
}

abbrev follower : Engine
follower = record (engine_at true) { server_id = follower_id; signer = point_key }

abbrev price : JobObservationResponse
price = record { job_id = "price"; response = 7 ∷ [] }

abbrev given : Payload
given = observe_resp (record { epoch = 3; round = 2; leader = "a"; job_responses = price ∷ [] })

-- The leader's messages and the follower's differ in the first byte.
abbrev write_rpc : RpcMessage → Option Bytes
write_rpc m =
    if m.from_id == "a"
    then some (0 ∷ write_half m.signature.r ∷ write_half m.signature.s ∷ m.payload)
    else if m.from_id == follower_id
    then some (1 ∷ write_half m.signature.r ∷ write_half m.signature.s ∷ m.payload)
    else none

abbrev read_rpc : Bytes → Option RpcMessage
read_rpc (who ∷ r ∷ s ∷ payload) = some (record {
  from_id = if who == 0 then "a" else follower_id;
  payload = payload;
  signature = record { r = read_half r; s = read_half s };
})
read_rpc _ = none

-- What JSON makes of a template, and what a template is read from.
abbrev as_json : Value → Value
as_json (template params) = composite (9 ∷ [])
as_json v = v

abbrev read_template : Value → Option DirectRequestTemplateParams
read_template (composite _) = some price_job.params
read_template _ = none

abbrev talk : Codec
talk = record (codec_of given) {
  decode = λ k b. elim k [
    | is_observe_req ↦ some (observe_req (heard as_json asking))
    | is_observe_resp ↦ some given
    | _ ↦ none
  ];
  encode_rpc = write_rpc;
  decode_rpc = read_rpc;
}

talk-InvertsRpc : InvertsRpc talk
talk-InvertsRpc m b e = ground (
  arith,
  string_eq.beq_iff m.from_id "a",
  string_eq.beq_iff m.from_id follower_id,
  read_half-write_half m.signature.r,
  read_half-write_half m.signature.s,
)

abbrev talk_env : Env
talk_env = record plain_env {
  codec = talk;
  crypto = point_crypto;
  jobs = record plain_jobs { json_template = read_template };
}

abbrev mark : Signature
mark = record { r = some 1; s = some 2 }

abbrev asked : Engine
asked = reached (handle_observe talk_env asking)

abbrev node_of : Engine → Ocr (setting_of talk)
node_of re =
    let o =
      register_handler (setting_of talk) topic_reporter reporter_handler
        (new_ocr (setting_of talk) (new_server (setting_of talk) plain_transport)) in
    record o { pacemaker = record (o.pacemaker) { reporter = re } }

was_asked : handle_observe talk_env asking ≡ next tt asked
unfolding handle_observe built broadcast_msg set_phase rpc_bytes build unsigned
was_asked = refl

able : Succeeds talk_env (heard as_json asking).jobs
unfolding get_job_infos job_info fetch lookup start_jobs observe_job new_job_from_info run run_tasks
    result execute new_direct_req new_report_assembler assign
able = (refl, refl, refl)

answers : observe_resp (answer talk_env follower (heard as_json asking)) ≡ given
unfolding get_job_infos job_info fetch lookup start_jobs observe_job new_job_from_info run run_tasks
    result execute new_direct_req new_report_assembler assign responses
answers = refl

asks-Reads : Reads talk (observe_req (question asking)) (observe_req (heard as_json asking))
unfolding kind_of
asks-Reads = record { body = λ b e. refl; message = (codec_of-Inverts given).message }

given-Inverts : Inverts talk given
unfolding kind_of
given-Inverts = record { body = λ b e. refl; message = (codec_of-Inverts given).message }

abbrev leader_node : Ocr (setting_of talk)
leader_node = node_of asked

abbrev follower_node : Ocr (setting_of talk)
follower_node = node_of follower

registered : lookup topic_reporter leader_node.handlers ≡ some reporter_handler
unfolding lookup assign register_handler new_ocr
registered = refl

abbrev reply : Bytes
reply = 1 ∷ 2 ∷ 3 ∷ message_observe_res ∷ topic_reporter ∷ []

follower_signs : sign point_crypto follower.signer [] ≡ some mark
unfolding sign
follower_signs = refl

wired :
    rpc_bytes talk
      (set_signature mark (unsigned follower_id message_observe_res topic_reporter given))
    ≡ some reply
unfolding rpc_bytes build set_signature unsigned key_string key_bytes
wired = refl

observation_reaches_leader_example :
    (request : Bytes) × (node' leader' : Ocr (setting_of talk)) × (asked.outbox
      ≡ [] ++ broadcast request ∷ [])
    × (receive (setting_of talk) talk_env plain_hmac [] (peers_of_b ∷ []) request follower_node
        ≡ next tt node')
    × (node'.pacemaker.reporter.outbox ≡ [] ++ send_to "a" reply ∷ [])
    × (receive (setting_of talk) talk_env plain_hmac [] (peers_of_b ∷ []) reply leader_node
        ≡ next tt leader')
    × (fetch [] follower_id leader'.pacemaker.reporter.leader_state.observations
        ≡ group_responses (price ∷ []))
    × (leader'.pacemaker.reporter.cache.observe_n ≡ 0 + 1)
unfolding get_job_infos job_info start_jobs observe_job new_job_from_info run run_tasks result
    execute new_direct_req new_report_assembler responses lookup assign fetch
observation_reaches_leader_example =
    observation_reaches_leader talk_env plain_hmac [] (peers_of_b ∷ []) (setting_of talk)
      (setting_of talk) refl refl talk-InvertsRpc unary_crypto-DecodesHex asking as_json leader_node
      follower_node (λ id. id == "a" || id == "c") [] reply mark was_asked (refl, refl) refl
      (omega arith) registered (refl, refl) (refl, refl, refl) (refl, refl, λ full. refl)
      point_crypto-KeyLaws refl registered asks-Reads given-Inverts able refl follower_signs wired
