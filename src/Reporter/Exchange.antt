-- ===== src/Reporter/Exchange.antt =====
-- The two ends of an exchange of OBSERVE-REQ and OBSERVE-RES: what the leader asks, what a follower answers,
-- and what the leader keeps of the answer.
use eavesdrop.Prelude.{
  ◌+◌, ◌*◌, ◌≤◌, ◌≡◌, refl, String, Bool, true, false, none, some, map, List, [], ◌∷◌, ◌++◌, Bytes,
  arith, string_eq, nat_eq, ltb, Bool-cases, Option-cases, inl, inr,
}
use eavesdrop.GoMap.{fetch, assign}
use eavesdrop.GoMap.Entries.{fetch-assign}
use eavesdrop.Crypto.{Signature, PublicKey, string_to_public_key, sign, verify}
use eavesdrop.Jobs.{Value, JobInfo, JobObservationResponse}
use eavesdrop.Jobs.DirectRequest.{Attempt}
use eavesdrop.Rpc.{DecodedMsg, ObserveReq, ObserveResp, observe_req, observe_resp}
use eavesdrop.Rpc.Codec.{
  rpc_bytes, unsigned, set_signature, topic_reporter, message_observe_req, message_observe_res,
}
use eavesdrop.Go.{next, returned, listened, ◌>>◌, ◌>>=◌}
use eavesdrop.Reporter.{Engine, Env, broadcast, send_to, max_rounds, phase_grace}
use eavesdrop.Reporter.Steps.{signal_phase, set_phase, sign_message, built, broadcast_msg, send_msg}
use eavesdrop.Reporter.Follower.{
  handle_observe_req, observe_jobs, answer_observations, start_jobs, responses, any_fails,
  any_panics,
}
use eavesdrop.Reporter.Leader.{
  handle_observe_resp, accept_observation, store_observations, group_responses,
}
use eavesdrop.Reporter.Phases.{handle_observe, get_job_infos}
use eavesdrop.Reporter.Process.{process_message, dispatch, rpc_msg_prechecks}

-- What a leader asks.
abbrev pub question : Engine → ObserveReq
question re = record {
  epoch = re.epoch;
  round = re.cur_round;
  leader = re.leader;
  jobs = get_job_infos re;
}

-- The request as it is read back: a template, which is an `interface{}`, becomes what JSON makes of it.
abbrev pub read_back : (Value → Value) → ObserveReq → ObserveReq
read_back reread m = record m {
  jobs = map (λ (info : JobInfo). record info { template = reread info.template }) m.jobs;
}

-- The attempts of a follower at jobs, each a success.
abbrev pub Succeeds : Env → List JobInfo → Type 0
Succeeds env jobs =
    let started = start_jobs env jobs in
    (started.2 ≡ true) × (any_panics started.1 ≡ false) × (any_fails started.1 ≡ false)

-- What a follower answers to it: the responses, in the order in which the jobs end.
abbrev pub answer : Env → Engine → ObserveReq → ObserveResp
answer env re m = record {
  epoch = re.epoch;
  round = m.round;
  leader = re.leader;
  job_responses =
      responses (env.order.visit (Attempt JobObservationResponse) (start_jobs env m.jobs).1);
}

-- With a messaging layer, a message is sent.
send_msg-served :
    (id : String) (bytes : Bytes) (service : String → Bool) (re : Engine)
    → re.msg_service ≡ some service
    → send_msg id bytes re ≡ next tt (record re { outbox = re.outbox ++ send_to id bytes ∷ [] })
unfolding send_msg
send_msg-served id bytes service re served = ground arith

module _ (env : Env) (re : Engine) where
  -- What the leader broadcasts.
  pub handle_observe-sent :
      (re' : Engine)
      → handle_observe env re ≡ next tt re'
      → (b : Bytes) × (rpc_bytes env.codec
            (unsigned re.server_id message_observe_req topic_reporter (observe_req (question re)))
          ≡ some b)
        × (re'.outbox ≡ re.outbox ++ broadcast b ∷ [])
  unfolding handle_observe built broadcast_msg set_phase
  handle_observe-sent re' e =
      elim (Option-cases (
        rpc_bytes env.codec
          (unsigned re.server_id message_observe_req topic_reporter (observe_req (question re))))) [
            | inl f ↦ absurd (ground arith)
            | inr (b, f) ↦ (b, f, ground arith)
          ]

  -- The leader stays as it was, but for what it sends, its timer and its phase.
  pub handle_observe-keeps :
      (re' : Engine)
      → handle_observe env re ≡ next tt re'
      → (re'.epoch ≡ re.epoch)
        × (re'.cur_round ≡ re.cur_round)
        × (re'.leader ≡ re.leader)
        × (re'.locked ≡ re.locked)
        × (re'.ready ≡ re.ready)
        × (re'.leader_state.phase_ch ≡ re.leader_state.phase_ch)
        × (re'.cache.observe_n ≡ re.cache.observe_n)
  unfolding handle_observe built broadcast_msg set_phase
  handle_observe-keeps re' e = ground arith

  -- The engine of a follower once it has answered.
  abbrev pub answered : ObserveReq → Bytes → Engine
  answered m bytes = record re {
    cur_round = m.round;
    cache = record (re.cache) { jobs = re.cache.jobs ++ (start_jobs env m.jobs).0 };
    outbox = re.outbox ++ send_to re.leader bytes ∷ [];
  }

  -- A message whose fields are the engine's own is handled.
  pub process_message-current :
      (msg : DecodedMsg) (re' : Engine)
      → re.locked ≡ false
      → re.ready ≡ true
      → rpc_msg_prechecks re msg.data_of ≡ true
      → dispatch env msg msg.data_of re ≡ next tt re'
      → process_message env msg re ≡ returned none re'
  unfolding process_message
  process_message-current msg re' free ready ok done = ground arith

  pub answer_observations-sent :
      (m : ObserveReq) (bytes msg : Bytes) (sig : Signature) (service : String → Bool)
      → m.round ≤ max_rounds
      → Succeeds env m.jobs
      → re.msg_service ≡ some service
      → env.codec.encode (observe_resp (answer env re m)) ≡ some msg
      → sign env.crypto re.signer msg ≡ some sig
      → rpc_bytes env.codec (
          set_signature sig (
            unsigned re.server_id message_observe_res topic_reporter
              (observe_resp (answer env re m))))
        ≡ some bytes
      → handle_observe_req env m re ≡ next tt (answered m bytes)
  unfolding handle_observe_req observe_jobs answer_observations sign_message built
  answer_observations-sent m bytes msg sig service in_time (all, calm, fine) served encoded signed
        wired =
      let early : ltb max_rounds m.round ≡ false = ground (arith, in_time) in
      rw
        (
          handle_observe_req, early, ◌>>◌, observe_jobs, calm, all, fine, answer_observations,
          encoded, ◌>>=◌, sign_message, signed, built, wired,
        )
        (send_msg-served re.leader bytes service
          (record re {
            cur_round = m.round;
            cache = record (re.cache) { jobs = re.cache.jobs ++ (start_jobs env m.jobs).0 };
          })
          served)

-- The leader keeps a valid answer of its round, whether or not it is the last that it waits for.
pub handle_observe_resp-recorded :
    (env : Env) (re : Engine) (m : ObserveResp) (from_id : String) (sig : Signature) (msg : Bytes)
    (pk : PublicKey)
    → m.round ≡ re.cur_round
    → m.epoch ≡ re.epoch
    → env.codec.encode (observe_resp m) ≡ some msg
    → string_to_public_key env.crypto from_id ≡ some pk
    → verify env.crypto sig msg pk ≡ some true
    → re.leader_state.phase_ch ≡ listened
    → (re' : Engine) × (handle_observe_resp env m from_id sig re ≡ next tt re')
      × (fetch [] from_id re'.leader_state.observations ≡ group_responses m.job_responses)
      × (re'.cache.observe_n ≡ re.cache.observe_n + 1)
unfolding handle_observe_resp accept_observation store_observations signal_phase set_phase
handle_observe_resp-recorded env re m from_id sig msg pk round epoch encoded key valid ready =
    elim (Bool-cases (ltb (2 * re.globals.f + 1) (re.cache.observe_n + 1))) [
      | inl many ↦
          let s = store_observations from_id (group_responses m.job_responses) re in
          (
            record s {
              leader_state = record (s.leader_state) { phase = phase_grace };
              signals = s.signals ++ phase_grace ∷ [];
            },
            ground arith,
            stored,
            refl,
          )
      | inr few ↦ (
        store_observations from_id (group_responses m.job_responses) re,
        ground arith,
        stored,
        refl,
      )
    ]
  where
    stored :
        fetch [] from_id
          (assign from_id (group_responses m.job_responses) re.leader_state.observations)
        ≡ group_responses m.job_responses
    stored = ground (
      arith,
      fetch-assign [] from_id from_id (group_responses m.job_responses)
          re.leader_state.observations,
      string_eq.beq_iff from_id from_id,
    )
