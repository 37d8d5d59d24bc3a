-- ===== src/Reporter/Phases.antt =====
-- The handlers of the leader's phases, and the loop that starts them: ocr/leader.go, and
-- `orchestrateLeadership` of ocr/reporter.go. A transmitter of
-- ocr/transmitter.go sends nothing and only reports that it is done, so it leaves no trace here.
use eavesdrop.Prelude.{
  ℕ, ◌+◌, String, Bool, true, false, Option, none, some, List, [], ◌∷◌, Bytes, nat_eq, string_eq,
  if◌then◌else◌, map,
}
use eavesdrop.GoMap.{GoMap, lookup, fetch}
use eavesdrop.Go.{Body, ◌>>=◌, ◌>>◌, pure, give_back, panic, gets, modify, or_else}
use eavesdrop.Jobs.{JobInfo, Value, template}
use eavesdrop.Jobs.DirectRequest.{DirectRequest}
use eavesdrop.Rpc.{Payload, observe_req, report_req, observation_map, final_report, progress_round}
use eavesdrop.Rpc.Codec.{
  rpc_bytes, unsigned, set_signature, topic_reporter, message_observe_req, message_report_req,
  message_observation_map, message_final_report, message_progress_round,
}
use eavesdrop.Timer.{new_timer}
use eavesdrop.Reporter.{Engine, Env, phase_observe, phase_report}
use eavesdrop.Reporter.Steps.{broadcast_msg, sign_message, built, set_phase, signal_phase}

-- The entry of `GetJobInfosForCurrRound` for a job.
unfoldable pub job_info : DirectRequest → JobInfo
job_info job = record {
  job_id = job.job_id;
  job_type = job.job_type;
  template = template job.params;
  timeout = job.timeout;
}

-- `GetJobInfosForCurrRound`
unfoldable pub get_job_infos : Engine → List JobInfo
unfolding job_info
get_job_infos re = map job_info (fetch [] re.cur_round re.job_schedule)

-- The callback of `handleGrace`, five seconds later.
unfoldable pub end_grace : Body Engine (Unit {0})
unfolding set_phase signal_phase
end_grace = do modify (set_phase phase_report); signal_phase phase_report

-- The first loop of `handleTransmit`: the jobs of the report, or none where one is not registered.
unfoldable pub find_jobs :
    GoMap String DirectRequest → List (String × Value) → Option (List DirectRequest)
find_jobs registry [] = some []
find_jobs registry ((job_id, _) ∷ rest) = elim (lookup job_id registry) [
  | none ↦ none
  | some job ↦ elim (find_jobs registry rest) [ none ↦ none | some jobs ↦ some (job ∷ jobs) ]
]

module _ (env : Env) where
  -- `handleObserve`
  unfoldable pub handle_observe : Body Engine (Unit {0})
  unfolding get_job_infos built broadcast_msg set_phase
  handle_observe = do
    re ← gets (λ re. re)
    let req = observe_req (record {
      epoch = re.epoch;
      round = re.cur_round;
      leader = re.leader;
      jobs = get_job_infos re;
    })
    rpc_msg ← built env (unsigned re.server_id message_observe_req topic_reporter req)
    broadcast_msg rpc_msg
    modify λ re. record re {
      leader_state = record (re.leader_state) { timer_round_timeout = some new_timer };
    }
    modify (set_phase phase_observe)

  -- `broadcastObservationMap`; `false` is its error.
  unfoldable pub broadcast_observation_map : Bytes → Body Engine Bool
  unfolding broadcast_msg
  broadcast_observation_map observed = do
    re ← gets (λ re. re)
    let om = observation_map (record {
      epoch = re.epoch;
      round = re.cur_round;
      leader = re.leader;
      observations = observed;
    })
    elim (rpc_bytes env.codec (unsigned re.server_id message_observation_map topic_reporter om)) [
      | none ↦ pure false
      | some rpc_msg ↦ do broadcast_msg rpc_msg; pure true
    ]

  -- `handleReport`: the observation map, and five seconds later the request.
  unfoldable pub handle_report : Body Engine (Unit {0})
  unfolding broadcast_observation_map built broadcast_msg
  handle_report = do
    re ← gets (λ re. re)
    observed ← or_else (env.marshal_observations re.leader_state.observations) (give_back none)
    sent ← broadcast_observation_map observed
    if sent then pure tt else give_back none
    re' ← gets (λ re. re)
    let req = report_req (record {
      epoch = re'.epoch;
      round = re'.cur_round;
      leader = re'.leader;
      observations = observed;
    })
    rpc_msg ← built env (unsigned re'.server_id message_report_req topic_reporter req)
    broadcast_msg rpc_msg

  -- Sign a payload and broadcast it, as `handleFinal` and `handleTransmit` do.
  unfoldable pub broadcast_signed : ℕ → Payload → Body Engine (Unit {0})
  unfolding sign_message built broadcast_msg
  broadcast_signed headers payload = do
    msg_bytes ← or_else (env.codec.encode payload) (give_back none)
    sig ← sign_message env msg_bytes
    re ← gets (λ re. re)
    rpc_msg ← built env (set_signature sig (unsigned re.server_id headers topic_reporter payload))
    broadcast_msg rpc_msg

  -- `handleFinal`
  unfoldable pub handle_final : Body Engine (Unit {0})
  unfolding broadcast_signed
  handle_final = do
    re ← gets (λ re. re)
    report ← or_else re.leader_state.final_report (give_back none)
    broadcast_signed message_final_report (
        final_report (record {
          epoch = re.epoch;
          round = re.cur_round;
          leader = re.leader;
          final_report = report;
        }))

  -- The jobs to transmit; a nil registry panics where there is a job to look up.
  jobs_of :
      Option (GoMap String DirectRequest) → List (String × Value) → Body Engine (List DirectRequest)
  unfolding find_jobs
  jobs_of none [] = pure []
  jobs_of none (_ ∷ _) = panic
  jobs_of (some registry) entries = or_else (find_jobs registry entries) (give_back none)

  -- `handleTransmit`: without a final report it panics. The transmissions are followed by a
  -- PROGRESS-ROUND and the goroutine that moves this node to the next round.
  unfoldable pub handle_transmit : Body Engine (Unit {0})
  unfolding jobs_of broadcast_signed
  handle_transmit = do
    re ← gets (λ re. re)
    report ← or_else re.leader_state.final_report panic
    jobs ← jobs_of re.job_registry (env.order.visit (String × Value) report.report)
    broadcast_signed message_progress_round
        (progress_round (record { epoch = re.epoch; round = re.cur_round; leader = re.leader }))
    modify (λ re. record re { progressing = re.progressing + 1 })
