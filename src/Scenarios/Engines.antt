-- ===== src/Scenarios/Engines.antt =====
-- An engine that follows the leader "a", at the messages that its handlers and prechecks tell apart.
use eavesdrop.Prelude.{
  Bool, true, false, ◌||◌, ◌==◌, string_eq, some, none, [], ◌∷◌, ◌≡◌, ◌⊎◌, refl,
}
use eavesdrop.Crypto.{CryptoLibrary}
use eavesdrop.Go.{GoError, returned, finish, idle}
use eavesdrop.Timer.{new_timer}
use eavesdrop.Rpc.{
  Payload, BroadcastFinalReport, FinalEcho, ObserveReq, DecodedMsg, observe_req, final_echo,
}
use eavesdrop.Rpc.Codec.{no_signature, topic_reporter}
use eavesdrop.Reporter.{Engine, Env, phase_observe, phase_nil}
use eavesdrop.Reporter.Process.{Common, dispatch, process_message, get_common_fields_and_phase}
use eavesdrop.Reporter.Finals.{handle_final_report}
use eavesdrop.Reporter.Gate.{IsCurrent, process_message-gate}
use eavesdrop.Go.States.{state_of}
use eavesdrop.Reporter.Attestation.{final_echo_never_counts}
use eavesdrop.Reporter.Validators.{Vouched, final_report_accepted}
use eavesdrop.Scenarios.{plain_hashing, written_order}
use eavesdrop.Scenarios.JobRuns.{plain_jobs}
use eavesdrop.Scenarios.Messages.{codec_of}

-- Every ID is a key, and every signature is valid.
abbrev pub trusting_crypto : CryptoLibrary
trusting_crypto = record {
  ecdsa_sign = λ key msg. some (1, 2);
  ecdsa_verify = λ pk msg r s. true;
  unmarshal_compressed = λ b. some (1, 1);
  sum256 = λ b. b;
  encode_to_string = λ b. "";
  decode_string = λ s. some [];
  big_bytes = λ n. n ∷ [];
}

abbrev echo : FinalEcho
echo = record { epoch = 3; round = 2; leader = "a" }

abbrev pub plain_env : Env
plain_env = record {
  crypto = trusting_crypto;
  hashing = plain_hashing;
  jobs = plain_jobs;
  codec = codec_of (final_echo echo);
  order = written_order;
  marshal_observations = λ m. some [];
  unmarshal_observations = λ b. some [];
  with_timeout = λ timeout i. false;
}

abbrev pub engine_at : Bool → Engine
engine_at ready = record {
  cur_round = 2;
  is_leader = false;
  epoch = 3;
  leader = "a";
  leader_state = record {
    observations = [];
    final_report = none;
    reports = [];
    final_report_attestation = 0;
    timer_round_timeout = some new_timer;
    timer_grace = some new_timer;
    phase = phase_nil;
    phase_ch = idle;
  };
  msg_service = some (λ id. id == "a" || id == "c");
  server_id = "b";
  quit_ch = idle;
  cache = record {
    observe_n = 0;
    report_n = 0;
    jobs = [];
    job_reports = [];
    follower_observations = [];
    c_final_report = record { report = []; signatories = [] };
  };
  globals = record { n = 3; f = 1 };
  signer = record { d = 5; public = record { x = 1; y = 1 } };
  job_registry = some [];
  job_schedule = [];
  locked = false;
  ready = ready;
  outbox = [];
  signals = [];
  progressing = 0;
}

abbrev message : Payload → DecodedMsg
message p = record { from_id = "a"; topic = topic_reporter; data_of = p; signature = no_signature }

abbrev stale : ObserveReq
stale = record { epoch = 2; round = 2; leader = "a"; jobs = [] }

abbrev stale_fields : Common
stale_fields = record { epoch = 2; round = 2; leader = "a"; phase = phase_observe }

process_message-gate_example :
    (IsCurrent (engine_at true) stale_fields
      × (process_message plain_env (message (observe_req stale)) (engine_at true)
          ≡ finish (
              dispatch plain_env
                (message (observe_req stale))
                (observe_req stale)
                (engine_at true))))
    ⊎ ((¬ IsCurrent (engine_at true) stale_fields)
        × (process_message plain_env (message (observe_req stale)) (engine_at true)
            ≡ returned (some GoError.prechecks_failed) (engine_at true)))
unfolding get_common_fields_and_phase
process_message-gate_example =
    process_message-gate plain_env (engine_at true) (message (observe_req stale)) stale_fields refl
      refl refl

final_echo_never_counts_example :
    let s = state_of (process_message plain_env (message (final_echo echo)) (engine_at true)) in
    (s.leader_state ≡ (engine_at true).leader_state)
    × (s.signals ≡ (engine_at true).signals)
    × (s.outbox ≡ (engine_at true).outbox)
final_echo_never_counts_example =
    final_echo_never_counts plain_env (engine_at true) (message (final_echo echo)) echo refl

-- A report that "a" and "c" signed, which the engine accepts.
abbrev two_signed : BroadcastFinalReport
two_signed = record {
  epoch = 3;
  round = 2;
  leader = "a";
  final_report = record {
    report = [];
    signatories =
        record { sign = no_signature; id = "a" } ∷ record { sign = no_signature; id = "c" } ∷ [];
  };
}

final_report_accepted_example :
    let s =
      state_of
        (finish (handle_final_report plain_env two_signed "a" no_signature (engine_at true))) in
    ((s.cache ≡ (engine_at true).cache) × (s.outbox ≡ (engine_at true).outbox))
    ⊎ Vouched plain_env (engine_at true) two_signed
final_report_accepted_example =
    final_report_accepted plain_env (engine_at true) two_signed "a" no_signature
