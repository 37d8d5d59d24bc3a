-- ===== src/Reporter/Rounds.antt =====
-- No handler moves an engine to another round: each keeps the round, and brings the engine no nearer to
-- the transmit phase, whose handler is the only one left that would.
use eavesdrop.Prelude.{
  ◌∙◌, subst, sym, Bool-cases, Bool, ltb, ◌+◌, Option-cases, inl, inr, ℕ, String, Bytes, ◌≡◌, ◌≢◌,
  refl, List, [], ◌∷◌, ◌++◌, true, false, some, arith, if◌then◌else◌, All, All-append,
}
use eavesdrop.Go.{pure, Flow, next, exit}
use eavesdrop.Go.States.{reached, reached->>, state_of, state_of-finish}
use eavesdrop.Crypto.{Signature}
use eavesdrop.Rpc.{
  ObserveResp, ObserveReq, ReportRes, ReportReq, BroadcastFinalReport, BroadcastObservationMap,
  final_report, DecodedMsg, Payload, observe_req, observe_resp, observation_map, report_req,
  report_res, final_echo, progress_round, status_msg, new_epoch, change_leader,
}
use eavesdrop.Consensus.{Report}
use eavesdrop.Reporter.{
  Engine, Env, max_rounds, LeaderPhase, phase_transmit, phase_grace, phase_final, phase_report,
}
use eavesdrop.Reporter.Leader.{
  handle_observe_resp, accept_observation, handle_final_echo, handle_report_res, accept_report,
}
use eavesdrop.Reporter.Follower.{
  handle_observe_req, observe_jobs, stop_after_last_round, handle_report_req,
  handle_observation_map,
}
use eavesdrop.Reporter.Finals.{handle_final_report, count_validators}
use eavesdrop.Reporter.Validators.{count_validators-reached}
use eavesdrop.Reporter.Attestation.{handle_final_echo-keeps}
use eavesdrop.Reporter.Process.{
  dispatch, rpc_msg_prechecks, get_common_fields_and_phase, process_message,
}
use eavesdrop.Reporter.Phases.{handle_observe, handle_report, handle_final, end_grace}

pub record IsStuck (epoch r : ℕ) (re : Engine) : Type 0 where
  pub in_epoch : re.epoch ≡ epoch
  pub in_round : re.cur_round ≡ r
  pub no_transmit : re.leader_state.phase ≢ phase_transmit
  pub no_signal : All (λ p. p ≢ phase_transmit) re.signals
  pub no_progress : re.progressing ≡ 0

pub signal-All :
    (ps : List LeaderPhase) (p : LeaderPhase)
    → p ≢ phase_transmit
    → All (λ p. p ≢ phase_transmit) ps
    → All (λ p. p ≢ phase_transmit) (ps ++ p ∷ [])
signal-All ps p ne all = All-append (λ p. p ≢ phase_transmit) ps (p ∷ []) all (ne, tt)

module _ (env : Env) (epoch r : ℕ) (re : Engine) (stuck : IsStuck epoch r re) where
  accept_observation-IsStuck :
      (m : ObserveResp) (from_id : String)
      → IsStuck epoch r (reached (accept_observation env m from_id re))
  unfolding accept_observation
  accept_observation-IsStuck m from_id =
      ground (arith, signal-All re.signals phase_grace (λ e. cc) stuck.no_signal)

  handle_observe_resp-IsStuck :
      (m : ObserveResp) (from_id : String) (sig : Signature)
      → IsStuck epoch r (reached (handle_observe_resp env m from_id sig re))
  unfolding handle_observe_resp
  handle_observe_resp-IsStuck m from_id sig = ground (arith, accept_observation-IsStuck m from_id)

  accept_report-IsStuck :
      (report : Report) → IsStuck epoch r (reached (accept_report env report re))
  unfolding accept_report
  accept_report-IsStuck report =
      ground (arith, signal-All re.signals phase_final (λ e. cc) stuck.no_signal)

  handle_report_res-IsStuck :
      (m : ReportRes) (from_id : String) (sig : Signature)
      → IsStuck epoch r (reached (handle_report_res env m from_id sig re))
  unfolding handle_report_res
  handle_report_res-IsStuck m from_id sig =
      ground
        (arith, accept_report-IsStuck (record { from = from_id; reports = m.reports; sig = sig }))

  pub handle_observe-IsStuck : IsStuck epoch r (reached (handle_observe env re))
  unfolding handle_observe
  handle_observe-IsStuck = ground (arith)

  pub handle_report-IsStuck : IsStuck epoch r (reached (handle_report env re))
  unfolding handle_report
  handle_report-IsStuck = ground (arith)

  pub handle_final-IsStuck : IsStuck epoch r (reached (handle_final env re))
  unfolding handle_final
  handle_final-IsStuck = ground (arith)

  pub end_grace-IsStuck : IsStuck epoch r (reached (end_grace re))
  unfolding end_grace
  end_grace-IsStuck = ground (arith, signal-All re.signals phase_report (λ e. cc) stuck.no_signal)

  handle_report_req-IsStuck :
      (m : ReportReq) → IsStuck epoch r (reached (handle_report_req env m re))
  unfolding handle_report_req
  handle_report_req-IsStuck m = ground arith

  handle_observation_map-IsStuck :
      (m : BroadcastObservationMap) → IsStuck epoch r (reached (handle_observation_map env m re))
  unfolding handle_observation_map
  handle_observation_map-IsStuck m = ground arith

  stop_after_last_round-IsStuck : IsStuck epoch r (reached (stop_after_last_round env re))
  unfolding stop_after_last_round
  stop_after_last_round-IsStuck = ground arith

  observe_jobs-IsStuck : (m : ObserveReq) → IsStuck epoch r (reached (observe_jobs env m re))
  unfolding observe_jobs
  observe_jobs-IsStuck m = ground arith

module _ (env : Env) (epoch r : ℕ) (re : Engine) (stuck : IsStuck epoch r re) where
  handle_observe_req-IsStuck :
      (m : ObserveReq) → m.round ≡ r → IsStuck epoch r (reached (handle_observe_req env m re))
  unfolding handle_observe_req
  handle_observe_req-IsStuck m e =
      reached->> {A = Unit {0}} (IsStuck epoch r)
        (if ltb max_rounds m.round then stop_after_last_round env else pure tt) (observe_jobs env m)
        (record re { cur_round = m.round }) (round_check (ltb max_rounds m.round))
        (λ t s. observe_jobs-IsStuck env epoch r t s m)
    where
      moved : IsStuck epoch r (record re { cur_round = m.round })
      moved = ground (arith, stuck)

      round_check :
          (b : Bool)
          → IsStuck epoch r (
              reached {A = Unit {0}} (
                (if b then stop_after_last_round env else pure tt)
                  (record re { cur_round = m.round })))
      round_check true =
          stop_after_last_round-IsStuck env epoch r (record re { cur_round = m.round }) moved
      round_check false = moved

  accepted-IsStuck :
      (m : BroadcastFinalReport) (from_id : String) (sig : Signature) (msg : Bytes)
      → env.codec.encode (final_report m) ≡ some msg
      → (flow : Flow Engine (List String))
      → count_validators env msg (re.globals.f + 1) m.final_report.signatories [] re ≡ flow
      → reached flow ≡ re
      → IsStuck epoch r (reached (handle_final_report env m from_id sig re))
  unfolding handle_final_report
  accepted-IsStuck m from_id sig msg e (next u s) f same = ground arith
  accepted-IsStuck m from_id sig msg e (exit x) f same = ground arith

  handle_final_report-IsStuck :
      (m : BroadcastFinalReport) (from_id : String) (sig : Signature)
      → IsStuck epoch r (reached (handle_final_report env m from_id sig re))
  unfolding handle_final_report
  handle_final_report-IsStuck m from_id sig =
      elim (Option-cases (env.codec.encode (final_report m))) [
        | inl e ↦ ground arith
        | inr (msg, e) ↦
            accepted-IsStuck m from_id sig msg e _ refl
              (count_validators-reached env re msg (re.globals.f + 1) m.final_report.signatories)
      ]

  -- The switch: OBSERVE-REQ is let through in its own round only, PROGRESS-ROUND never.
  dispatch-IsStuck :
      (msg : DecodedMsg) (p : Payload)
      → rpc_msg_prechecks re p ≡ true
      → IsStuck epoch r (reached (dispatch env msg p re))
  unfolding dispatch rpc_msg_prechecks get_common_fields_and_phase
  dispatch-IsStuck msg (observe_req m) ok = handle_observe_req-IsStuck m (ground arith)
  dispatch-IsStuck msg (observe_resp m) ok =
      handle_observe_resp-IsStuck env epoch r re stuck m msg.from_id msg.signature
  dispatch-IsStuck msg (observation_map m) ok =
      handle_observation_map-IsStuck env epoch r re stuck m
  dispatch-IsStuck msg (report_req m) ok = handle_report_req-IsStuck env epoch r re stuck m
  dispatch-IsStuck msg (report_res m) ok =
      handle_report_res-IsStuck env epoch r re stuck m msg.from_id msg.signature
  dispatch-IsStuck msg (final_report m) ok = handle_final_report-IsStuck m msg.from_id msg.signature
  dispatch-IsStuck msg (final_echo m) ok =
      subst (IsStuck epoch r)
        (sym (handle_final_echo-keeps env re m msg.from_id msg.signature)
          ∙ state_of-finish (handle_final_echo env m msg.from_id msg.signature re))
        stuck
  dispatch-IsStuck msg (progress_round m) ok = absurd (cc)
  dispatch-IsStuck msg (status_msg _) ok = stuck
  dispatch-IsStuck msg (new_epoch _) ok = stuck
  dispatch-IsStuck msg change_leader ok = stuck

  pub process_message-IsStuck :
      (msg : DecodedMsg) → IsStuck epoch r (state_of (process_message env msg re))
  unfolding process_message
  process_message-IsStuck msg = elim (Bool-cases (rpc_msg_prechecks re msg.data_of)) [
    | inl ok ↦ ground (
      arith,
      dispatch-IsStuck msg msg.data_of ok,
      state_of-finish (dispatch env msg msg.data_of re),
    )
    | inr bad ↦ ground (arith, stuck)
  ]
