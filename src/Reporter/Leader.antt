-- ===== src/Reporter/Leader.antt =====
-- The handlers of messages that the leader receives: the cases of `ProcessMessage` of ocr/reporter.go for
-- OBSERVE-RES, REPORT-RES and FINAL-ECHO.
use eavesdrop.Prelude.{
  ◌+◌, ◌*◌, String, ◌&&◌, ◌||◌, not, none, some, List, [], ◌∷◌, ◌++◌, ◌==◌, string_eq, nat_eq, ltb,
  leb, if◌then◌else◌, foldl, length,
}
use eavesdrop.GoMap.{assign, fetch}
use eavesdrop.Crypto.{Signature, string_to_public_key, verify}
use eavesdrop.Consensus.{Report, assemble_final_report}
use eavesdrop.Go.{Body, ◌>>=◌, ◌>>◌, pure, give_back, gets, modify, or_else}
use eavesdrop.Jobs.{JobObservationResponse}
use eavesdrop.Rpc.{observe_resp, report_res, final_echo, ObserveResp, ReportRes, FinalEcho}
use eavesdrop.Reporter.{Engine, Env, PeerObservations, phase_grace, phase_final, phase_transmit}
use eavesdrop.Reporter.Steps.{signal_phase, set_phase, checked, verify_sig_and_peer}

-- `observationMap`: the responses of one message by job.
unfoldable pub group_responses : List JobObservationResponse → PeerObservations
group_responses rs = foldl (λ m r. assign r.job_id (fetch [] r.job_id m ++ r ∷ []) m) [] rs

unfoldable pub store_observations : String → PeerObservations → Engine → Engine
store_observations from_id m re = record re {
  leader_state = record (re.leader_state) {
    observations = assign from_id m re.leader_state.observations;
  };
  cache = record (re.cache) { observe_n = re.cache.observe_n + 1 };
}

-- `re.reports = append(re.reports, report)`
unfoldable pub append_report : Report → Engine → Engine
append_report r re = record re {
  leader_state = record (re.leader_state) { reports = re.leader_state.reports ++ r ∷ [] };
}

unfoldable pub count_attestation : Engine → Engine
count_attestation re = record re {
  leader_state = record (re.leader_state) {
    final_report_attestation = re.leader_state.final_report_attestation + 1;
  };
}

module _ (env : Env) where
  -- The code behind a valid signature of OBSERVE-RES.
  unfoldable pub accept_observation : ObserveResp → String → Body Engine (Unit {0})
  unfolding store_observations signal_phase set_phase
  accept_observation msg from_id = do
    modify (store_observations from_id (group_responses msg.job_responses))
    re ← gets (λ re. re)
    if ltb (2 * re.globals.f + 1) re.cache.observe_n
        then (do modify (set_phase phase_grace); signal_phase phase_grace)
        else pure tt

  -- OBSERVE-RES
  unfoldable pub handle_observe_resp : ObserveResp → String → Signature → Body Engine (Unit {0})
  unfolding accept_observation checked
  handle_observe_resp msg from_id sig = do
    re ← gets (λ re. re)
    if not ((msg.round == re.cur_round) && (msg.epoch == re.epoch)) then give_back none else pure tt
    msg_bytes ← or_else (env.codec.encode (observe_resp msg)) (give_back none)
    pk ← or_else (string_to_public_key env.crypto from_id) (give_back none)
    signed ← checked env (verify env.crypto sig msg_bytes pk)
    if signed then accept_observation msg from_id else give_back none

  -- The code behind a valid signature of REPORT-RES.
  unfoldable pub accept_report : Report → Body Engine (Unit {0})
  unfolding append_report signal_phase set_phase
  accept_report report = do
    modify (append_report report)
    re ← gets (λ re. re)
    if leb re.globals.n (length re.leader_state.reports)
        then elim (assemble_final_report env.hashing env.order re.globals.f
            re.leader_state.reports) [
              | none ↦ pure tt
              | some final ↦ do
                modify λ re. record re {
                  leader_state = record (re.leader_state) { final_report = some final };
                }
                modify (set_phase phase_final)
                signal_phase phase_final
            ]
        else pure tt

  -- REPORT-RES
  unfoldable pub handle_report_res : ReportRes → String → Signature → Body Engine (Unit {0})
  unfolding accept_report checked
  handle_report_res msg from_id sig = do
    msg_bytes ← or_else (env.codec.encode (report_res msg)) (give_back none)
    pk ← or_else (string_to_public_key env.crypto from_id) (give_back none)
    signed ← checked env (verify env.crypto sig msg_bytes pk)
    if signed
        then accept_report (record { from = from_id; reports = msg.reports; sig = sig })
        else give_back none

  -- FINAL-ECHO
  unfoldable pub handle_final_echo : FinalEcho → String → Signature → Body Engine (Unit {0})
  unfolding count_attestation signal_phase set_phase
  handle_final_echo msg from_id sig = do
    re ← gets (λ re. re)
    if not (msg.epoch == re.epoch)
          || (not (msg.round == re.cur_round) || not (msg.leader == re.leader))
        then give_back none
        else pure tt
    msg_bytes ← or_else (env.codec.encode (final_echo msg)) (give_back none)
    signed ← verify_sig_and_peer env msg_bytes from_id sig
    if not signed then give_back none else pure tt
    modify count_attestation
    re' ← gets (λ re. re)
    if leb (re'.globals.f + 1) re'.leader_state.final_report_attestation
        then (do modify (set_phase phase_transmit); signal_phase phase_transmit)
        else pure tt
