-- ===== src/Reporter/Untouched.antt =====
-- What leaves the leader's reports, its final report and its counts of nodes as they are: every handler but
-- that of REPORT-RES and the move to the next round.
use eavesdrop.Prelude.{
  ◌∙◌, sym, ◌+◌, Option-cases, Bool-cases, ◌⊎◌, inl, inr, String, Bytes, ◌≡◌, refl, List, [], true,
  false, some, Bool, ltb, if◌then◌else◌, arith, ap,
}
use eavesdrop.Go.{pure, Flow, next, exit}
use eavesdrop.Go.States.{reached, reached->>, state_of, state_of-finish}
use eavesdrop.Crypto.{Signature}
use eavesdrop.Rpc.{
  ObserveResp, ObserveReq, ReportReq, BroadcastFinalReport, BroadcastObservationMap, FinalEcho,
  ProgressRound, DecodedMsg, final_report,
}
use eavesdrop.Reporter.{Engine, Env, max_rounds}
use eavesdrop.Reporter.Leader.{handle_observe_resp, accept_observation, handle_final_echo}
use eavesdrop.Reporter.Follower.{
  handle_observe_req, observe_jobs, stop_after_last_round, handle_report_req,
  handle_observation_map,
}
use eavesdrop.Reporter.Finals.{handle_final_report, count_validators, handle_progress_round}
use eavesdrop.Reporter.Validators.{count_validators-reached}
use eavesdrop.Reporter.Attestation.{handle_final_echo-keeps}
use eavesdrop.Reporter.Process.{process_message, dispatch, rpc_msg_prechecks}
use eavesdrop.Reporter.Phases.{
  handle_observe, handle_report, handle_final, handle_transmit, end_grace,
}

abbrev pub Untouched : Engine → Engine → Type 0
Untouched re re' =
    (re'.leader_state.reports ≡ re.leader_state.reports)
    × (re'.leader_state.final_report ≡ re.leader_state.final_report)
    × (re'.globals ≡ re.globals)

module _ (env : Env) (re : Engine) where
  accept_observation-Untouched :
      (m : ObserveResp) (from_id : String)
      → Untouched re (reached (accept_observation env m from_id re))
  unfolding accept_observation
  accept_observation-Untouched m from_id = ground arith

  pub handle_observe_resp-Untouched :
      (m : ObserveResp) (from_id : String) (sig : Signature)
      → Untouched re (reached (handle_observe_resp env m from_id sig re))
  unfolding handle_observe_resp
  handle_observe_resp-Untouched m from_id sig =
      ground (arith, accept_observation-Untouched m from_id)

  pub handle_observation_map-Untouched :
      (m : BroadcastObservationMap) → Untouched re (reached (handle_observation_map env m re))
  unfolding handle_observation_map
  handle_observation_map-Untouched m = ground arith

  pub handle_report_req-Untouched :
      (m : ReportReq) → Untouched re (reached (handle_report_req env m re))
  unfolding handle_report_req
  handle_report_req-Untouched m = ground arith

  pub handle_progress_round-Untouched :
      (m : ProgressRound) (sig : Signature)
      → Untouched re (reached (handle_progress_round env m sig re))
  unfolding handle_progress_round
  handle_progress_round-Untouched m sig = ground arith

  pub handle_final_echo-Untouched :
      (m : FinalEcho) (from_id : String) (sig : Signature)
      → Untouched re (reached (handle_final_echo env m from_id sig re))
  handle_final_echo-Untouched m from_id sig =
      let same =
        sym (state_of-finish (handle_final_echo env m from_id sig re))
        ∙ handle_final_echo-keeps env re m from_id sig in
      (
        ap (λ u. u.leader_state.reports) same,
        ap (λ u. u.leader_state.final_report) same,
        ap (λ u. u.globals) same,
      )

  stop_after_last_round-Untouched : Untouched re (reached (stop_after_last_round env re))
  unfolding stop_after_last_round
  stop_after_last_round-Untouched = ground arith

  observe_jobs-Untouched : (m : ObserveReq) → Untouched re (reached (observe_jobs env m re))
  unfolding observe_jobs
  observe_jobs-Untouched m = ground arith

  pub handle_observe-Untouched : Untouched re (reached (handle_observe env re))
  unfolding handle_observe
  handle_observe-Untouched = ground arith

  pub handle_report-Untouched : Untouched re (reached (handle_report env re))
  unfolding handle_report
  handle_report-Untouched = ground arith

  pub handle_final-Untouched : Untouched re (reached (handle_final env re))
  unfolding handle_final
  handle_final-Untouched = ground arith

  pub handle_transmit-Untouched : Untouched re (reached (handle_transmit env re))
  unfolding handle_transmit
  handle_transmit-Untouched = ground arith

  pub end_grace-Untouched : Untouched re (reached (end_grace re))
  unfolding end_grace
  end_grace-Untouched = ground arith

Untouched-trans : (a b c : Engine) → Untouched a b → Untouched b c → Untouched a c
Untouched-trans a b c (r, f, g) (r', f', g') = (r' ∙ r, f' ∙ f, g' ∙ g)

module _ (env : Env) (re : Engine) where
  pub handle_observe_req-Untouched :
      (m : ObserveReq) → Untouched re (reached (handle_observe_req env m re))
  unfolding handle_observe_req
  handle_observe_req-Untouched m =
      reached->> {A = Unit {0}} (Untouched re)
        (if ltb max_rounds m.round then stop_after_last_round env else pure tt) (observe_jobs env m)
        moved (round_check (ltb max_rounds m.round))
        (λ t s.
          Untouched-trans re t (reached (observe_jobs env m t)) s (observe_jobs-Untouched env t m))
    where
      moved : Engine
      moved = record re { cur_round = m.round }

      round_check :
          (b : Bool)
          → Untouched re
              (reached {A = Unit {0}} ((if b then stop_after_last_round env else pure tt) moved))
      round_check true = stop_after_last_round-Untouched env moved
      round_check false = (refl, refl, refl)

  accepted-Untouched :
      (m : BroadcastFinalReport) (from_id : String) (sig : Signature) (msg : Bytes)
      → env.codec.encode (final_report m) ≡ some msg
      → (flow : Flow Engine (List String))
      → count_validators env msg (re.globals.f + 1) m.final_report.signatories [] re ≡ flow
      → reached flow ≡ re
      → Untouched re (reached (handle_final_report env m from_id sig re))
  unfolding handle_final_report
  accepted-Untouched m from_id sig msg e (next u s) f same = ground arith
  accepted-Untouched m from_id sig msg e (exit x) f same = ground arith

  pub handle_final_report-Untouched :
      (m : BroadcastFinalReport) (from_id : String) (sig : Signature)
      → Untouched re (reached (handle_final_report env m from_id sig re))
  unfolding handle_final_report
  handle_final_report-Untouched m from_id sig =
      elim (Option-cases (env.codec.encode (final_report m))) [
        | inl e ↦ ground arith
        | inr (msg, e) ↦
            accepted-Untouched m from_id sig msg e _ refl
              (count_validators-reached env re msg (re.globals.f + 1) m.final_report.signatories)
      ]

-- A message is handled, or changes neither.
pub process_message-cases :
    (env : Env) (msg : DecodedMsg) (re : Engine)
    → Untouched re (state_of (process_message env msg re))
      ⊎ (state_of (process_message env msg re) ≡ reached (dispatch env msg msg.data_of re))
unfolding process_message
process_message-cases env msg re = elim (Bool-cases re.locked) [
  | inl held ↦ inl (ground arith)
  | inr free ↦ elim (Bool-cases re.ready) [
    | inr unready ↦ inl (ground arith)
    | inl ready ↦ elim (Bool-cases (rpc_msg_prechecks re msg.data_of)) [
      | inr bad ↦ inl (ground arith)
      | inl ok ↦ inr (ground (arith, state_of-finish (dispatch env msg msg.data_of re)))
    ]
  ]
]
