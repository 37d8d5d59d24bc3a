-- ===== src/Reporter/Follower.antt =====
-- The handlers of messages that followers receive: the cases of `ProcessMessage` of ocr/reporter.go for
-- OBSERVE-REQ, BROADCAST-OBSERVATION-MAP and REPORT-REQ.
use eavesdrop.Prelude.{
  String, Bool, true, false, not, Option, none, some, List, [], ◌∷◌, ◌++◌, Bytes, string_eq, nat_eq,
  ltb, if◌then◌else◌, foldl,
}
use eavesdrop.Utils.{compare_hashes}
use eavesdrop.GoMap.{GoMap, lookup, assign, fetch}
use eavesdrop.Go.{GoError, Body, ◌>>=◌, ◌>>◌, pure, give_back, panic, gets, modify, or_else}
use eavesdrop.Jobs.{JobInfo, JobObservationResponse}
use eavesdrop.Jobs.DirectRequest.{
  DirectRequest, new_job_from_info, run, result, assemble, Attempt, succeeds, fails, panics,
}
use eavesdrop.Rpc.{
  new_epoch, observe_resp, report_res, ObserveReq, ReportReq, BroadcastObservationMap, JobReports,
}
use eavesdrop.Rpc.Codec.{
  unsigned, set_signature, topic_reporter, topic_pacemaker, message_new_epoch, message_observe_res,
  message_report_res,
}
use eavesdrop.Reporter.{Engine, Env, ObservationMap, PeerObservations, max_rounds}
use eavesdrop.Reporter.Steps.{broadcast_msg, send_msg, sign_message, built, stop_engine}

abbrev pub bytes_or_nil : Option Bytes → Bytes
bytes_or_nil none = []
bytes_or_nil (some b) = b

-- The part of OBSERVE-REQ behind `re.curRound > MAX_ROUNDS`.
unfoldable pub stop_after_last_round : Env → Body Engine (Unit {0})
unfolding built broadcast_msg stop_engine
stop_after_last_round env = do
  re ← gets (λ re. re)
  msg ← built env (
      unsigned re.server_id message_new_epoch topic_pacemaker (new_epoch (record { epoch_id = 0 })))
  broadcast_msg msg
  stop_engine

-- The results on `resChan`, in the order in which the goroutines finish, and the errors.
unfoldable pub responses : List (Attempt JobObservationResponse) → List JobObservationResponse
responses [] = []
responses (succeeds r ∷ rs) = r ∷ responses rs
responses (fails ∷ rs) = responses rs
responses (panics ∷ rs) = responses rs

abbrev pub any_fails : List (Attempt JobObservationResponse) → Bool
any_fails [] = false
any_fails (fails ∷ rs) = true
any_fails (succeeds _ ∷ rs) = any_fails rs
any_fails (panics ∷ rs) = any_fails rs

abbrev pub any_panics : List (Attempt JobObservationResponse) → Bool
any_panics [] = false
any_panics (panics ∷ rs) = true
any_panics (succeeds _ ∷ rs) = any_panics rs
any_panics (fails ∷ rs) = any_panics rs

-- The callback of `obsMap.Iterate`; the two loops around it are `add_peer` and `by_job`.
unfoldable pub add_observations :
    GoMap String (List JobObservationResponse)
    → String × List JobObservationResponse
    → GoMap String (List JobObservationResponse)
add_observations m (job_id, observations) = assign job_id (fetch [] job_id m ++ observations) m

module _ (env : Env) where
  -- What the goroutine of one job puts on `resChan`, or an error on `errChan`.
  unfoldable pub observe_job : DirectRequest → JobInfo → Attempt JobObservationResponse
  observe_job job info =
      let (ran, finished) = run env.jobs (env.with_timeout info.timeout) job in
      if finished
      then elim (result env.jobs ran) [
        | succeeds bytes ↦ succeeds (record { job_id = info.job_id; response = bytes })
        | fails ↦ fails
        | panics ↦ panics
      ]
      else fails

  -- The loop over `msg.Jobs`: the jobs that were started with what they observe, and whether every
  -- job could be made.
  unfoldable pub start_jobs :
      List JobInfo → List DirectRequest × List (Attempt JobObservationResponse) × Bool
  start_jobs [] = ([], [], true)
  start_jobs (info ∷ infos) =
      let rest = start_jobs infos in
      elim (new_job_from_info env.jobs info) [
        | none ↦ ([], [], false)
        | some job ↦ (
          (run env.jobs (env.with_timeout info.timeout) job).0 ∷ rest.0,
          observe_job job info ∷ rest.1,
          rest.2,
        )
      ]

  -- Answer the leader with the observations, signed.
  unfoldable pub answer_observations : List JobObservationResponse → Body Engine (Unit {0})
  unfolding sign_message built send_msg
  answer_observations rs = do
    re ← gets (λ re. re)
    let resp =
        observe_resp (record {
          epoch = re.epoch;
          round = re.cur_round;
          leader = re.leader;
          job_responses = rs;
        })
    msg_bytes ← or_else (env.codec.encode resp) (give_back none)
    sig ← sign_message env msg_bytes
    rpc_msg ←
        built env
          (set_signature sig (unsigned re.server_id message_observe_res topic_reporter resp))
    send_msg re.leader rpc_msg

  -- The part of OBSERVE-REQ that runs the jobs and answers.
  unfoldable pub observe_jobs : ObserveReq → Body Engine (Unit {0})
  unfolding answer_observations
  observe_jobs msg = do
    let started = start_jobs msg.jobs
    modify λ re. record re { cache = record (re.cache) { jobs = re.cache.jobs ++ started.0 } }
    if any_panics started.1 then panic else pure tt
    if not started.2 then give_back none else pure tt
    if any_fails started.1 then give_back (some GoError.job_failed) else pure tt
    answer_observations (responses (env.order.visit (Attempt JobObservationResponse) started.1))

  -- OBSERVE-REQ
  unfoldable pub handle_observe_req : ObserveReq → Body Engine (Unit {0})
  unfolding stop_after_last_round observe_jobs
  handle_observe_req msg = do
    modify (λ re. record re { cur_round = msg.round })
    if ltb max_rounds msg.round then stop_after_last_round env else pure tt
    observe_jobs msg

  -- BROADCAST-OBSERVATION-MAP
  unfoldable pub handle_observation_map : BroadcastObservationMap → Body Engine (Unit {0})
  handle_observation_map msg = do
    observed ←
        or_else (env.unmarshal_observations msg.observations)
          (give_back (some GoError.bad_observation_map))
    modify λ re. record re { cache = record (re.cache) { follower_observations = observed } }

  unfoldable pub add_peer :
      GoMap String (List JobObservationResponse)
      → String × PeerObservations
      → GoMap String (List JobObservationResponse)
  unfolding add_observations
  add_peer m (_, peer) =
      foldl add_observations m (env.order.visit (String × List JobObservationResponse) peer)

  unfoldable pub by_job : ObservationMap → GoMap String (List JobObservationResponse)
  unfolding add_peer
  by_job m = foldl add_peer [] (env.order.visit (String × PeerObservations) m)

  -- The loop of step 3: a job that fails is skipped; none is a panic.
  unfoldable pub assemble_jobs :
      GoMap String DirectRequest
      → List (String × List JobObservationResponse)
      → JobReports
      → Option JobReports
  assemble_jobs registry [] acc = some acc
  assemble_jobs registry ((job_id, observations) ∷ rest) acc =
      elim (assemble env.jobs (lookup job_id registry) observations) [
        | succeeds value ↦ assemble_jobs registry rest (assign job_id value acc)
        | fails ↦ assemble_jobs registry rest acc
        | panics ↦ none
      ]

  -- `(*re.jobRegistry)[jobID]` panics on a nil pointer, if there is any job to look up.
  unfoldable pub assemble_all :
      Option (GoMap String DirectRequest)
      → List (String × List JobObservationResponse)
      → Option JobReports
  unfolding assemble_jobs
  assemble_all none [] = some []
  assemble_all none (_ ∷ _) = none
  assemble_all (some registry) jobs = assemble_jobs registry jobs []

  unfoldable pub answer_reports : JobReports → Body Engine (Unit {0})
  unfolding sign_message built send_msg
  answer_reports values = do
    re ← gets (λ re. re)
    let res =
        report_res
          (record { epoch = re.epoch; round = re.cur_round; leader = re.leader; reports = values })
    msg_bytes ← or_else (env.codec.encode res) (give_back none)
    sig ← sign_message env msg_bytes
    rpc_msg ←
        built env (set_signature sig (unsigned re.server_id message_report_res topic_reporter res))
    send_msg re.leader rpc_msg

  -- REPORT-REQ. A marshalling error leaves nil bytes to compare with.
  unfoldable pub handle_report_req : ReportReq → Body Engine (Unit {0})
  unfolding assemble_all answer_reports
  handle_report_req msg = do
    observed ←
        or_else (env.unmarshal_observations msg.observations)
          (give_back (some GoError.bad_observation_map))
    re ← gets (λ re. re)
    let cached = bytes_or_nil (env.marshal_observations re.cache.follower_observations)
    if not (compare_hashes env.crypto.sum256 (msg.observations ∷ cached ∷ []))
        then give_back none
        else pure tt
    let jobs = env.order.visit (String × List JobObservationResponse) (by_job observed)
    values ← or_else (assemble_all re.job_registry jobs) panic
    modify λ re. record re { cache = record (re.cache) { job_reports = values } }
    answer_reports values
