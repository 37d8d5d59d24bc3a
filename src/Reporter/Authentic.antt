-- ===== src/Reporter/Authentic.antt =====
-- Whose signatures the leader's final report carries, whatever messages arrive.
use eavesdrop.Prelude.{
  ℕ, ◌+◌, ◌≤◌, ◌≡◌, ◌⊎◌, refl, sym, subst, none, some, [], ◌∷◌, length, All, inl, inr, Bool-cases,
  ◌==◌, string_eq,
}
use eavesdrop.Rpc.{
  report_res, FinalReport, DecodedMsg, Payload, observe_req, observe_resp, observation_map,
  report_req, final_report, final_echo, progress_round, status_msg, new_epoch, change_leader,
}
use eavesdrop.Go.{Flow, finish}
use eavesdrop.Go.States.{reached, state_of, state_of-finish}
use eavesdrop.Reporter.{
  Engine, Env, LeaderPhase, phase_nil, phase_observe, phase_grace, phase_report, phase_final,
  phase_transmit,
}
use eavesdrop.Reporter.Steps.{progress_to_next_round}
use eavesdrop.Reporter.Lifecycle.{zero_report}
use eavesdrop.Reporter.Process.{process_message, dispatch}
use eavesdrop.Reporter.Phases.{
  handle_observe, handle_report, handle_final, handle_transmit, end_grace,
}
use eavesdrop.Reporter.Orchestra.{Orchestra, handle_phase, Step, Reach}
use eavesdrop.Reporter.Untouched.{
  Untouched, process_message-cases, handle_observe_req-Untouched, handle_observe_resp-Untouched,
  handle_observation_map-Untouched, handle_report_req-Untouched, handle_final_report-Untouched,
  handle_final_echo-Untouched, handle_progress_round-Untouched, handle_observe-Untouched,
  handle_report-Untouched, handle_final-Untouched, handle_transmit-Untouched, end_grace-Untouched,
}
use eavesdrop.Reporter.Attested.{
  empty_report, IsAttested, IsAuthentic, Untouched-IsAuthentic, handle_report_res-IsAuthentic,
}

module _ (env : Env) (f : ℕ) where
  dispatch-IsAuthentic :
      (msg : DecodedMsg) (p : Payload) (re : Engine)
      → IsAuthentic env f re
      → IsAuthentic env f (reached (dispatch env msg p re))
  unfolding dispatch
  dispatch-IsAuthentic msg (observe_req m) re h =
      Untouched-IsAuthentic env f re _ (handle_observe_req-Untouched env re m) h
  dispatch-IsAuthentic msg (observe_resp m) re h =
      Untouched-IsAuthentic env f re _
        (handle_observe_resp-Untouched env re m msg.from_id msg.signature) h
  dispatch-IsAuthentic msg (observation_map m) re h =
      Untouched-IsAuthentic env f re _ (handle_observation_map-Untouched env re m) h
  dispatch-IsAuthentic msg (report_req m) re h =
      Untouched-IsAuthentic env f re _ (handle_report_req-Untouched env re m) h
  dispatch-IsAuthentic msg (report_res m) re h =
      handle_report_res-IsAuthentic env f m msg.from_id msg.signature re h
  dispatch-IsAuthentic msg (final_report m) re h =
      Untouched-IsAuthentic env f re _
        (handle_final_report-Untouched env re m msg.from_id msg.signature) h
  dispatch-IsAuthentic msg (final_echo m) re h =
      Untouched-IsAuthentic env f re _
        (handle_final_echo-Untouched env re m msg.from_id msg.signature) h
  dispatch-IsAuthentic msg (progress_round m) re h =
      Untouched-IsAuthentic env f re _ (handle_progress_round-Untouched env re m msg.signature) h
  dispatch-IsAuthentic msg (status_msg _) re h = h
  dispatch-IsAuthentic msg (new_epoch _) re h = h
  dispatch-IsAuthentic msg change_leader re h = h

  process_message-IsAuthentic :
      (msg : DecodedMsg) (re : Engine)
      → IsAuthentic env f re
      → IsAuthentic env f (state_of (process_message env msg re))
  process_message-IsAuthentic msg re h = elim (process_message-cases env msg re) [
    | inl same ↦ Untouched-IsAuthentic env f re _ same h
    | inr done ↦ subst (IsAuthentic env f) (sym done) (dispatch-IsAuthentic msg msg.data_of re h)
  ]

  progress-IsAuthentic :
      (re : Engine) → IsAuthentic env f re → IsAuthentic env f (progress_to_next_round re)
  unfolding progress_to_next_round
  progress-IsAuthentic re h = elim (Bool-cases (re.server_id == re.leader)) [
    | inl own ↦ rw (own) record {
      rest = [];
      held = refl;
      attested = tt;
      vouched = λ report e. inl (cc);
      faulty = h.faulty;
    }
    | inr other ↦ rw (other) record {
      rest = h.rest;
      held = h.held;
      attested = h.attested;
      vouched = h.vouched;
      faulty = h.faulty;
    }
  ]

  ended :
      (re : Engine) (flow : Flow Engine (Unit {0}))
      → Untouched re (reached flow)
      → IsAuthentic env f re
      → IsAuthentic env f (state_of (finish flow))
  ended re flow same h =
      subst (IsAuthentic env f) (sym (state_of-finish flow))
        (Untouched-IsAuthentic env f re (reached flow) same h)

  handle_phase-IsAuthentic :
      (p : LeaderPhase) (o : Orchestra)
      → IsAuthentic env f o.engine
      → IsAuthentic env f (handle_phase env p o).engine
  unfolding handle_phase
  handle_phase-IsAuthentic phase_nil o h = h
  handle_phase-IsAuthentic phase_observe o h =
      ended o.engine (handle_observe env o.engine) (handle_observe-Untouched env o.engine) h
  handle_phase-IsAuthentic phase_grace o h = h
  handle_phase-IsAuthentic phase_report o h =
      ended o.engine (handle_report env o.engine) (handle_report-Untouched env o.engine) h
  handle_phase-IsAuthentic phase_final o h =
      ended o.engine (handle_final env o.engine) (handle_final-Untouched env o.engine) h
  handle_phase-IsAuthentic phase_transmit o h =
      ended o.engine (handle_transmit env o.engine) (handle_transmit-Untouched env o.engine) h

  Step-IsAuthentic :
      {o u : Orchestra} → Step env o u → IsAuthentic env f o.engine → IsAuthentic env f u.engine
  Step-IsAuthentic {o} (Step.receive msg) h = process_message-IsAuthentic msg o.engine h
  Step-IsAuthentic {o} (Step.start_phase phase later e) h =
      let re = record (o.engine) { signals = later } in
      handle_phase-IsAuthentic phase (record o { engine = re })
        (Untouched-IsAuthentic env f o.engine re (refl, refl, refl) h)
  Step-IsAuthentic {o} (Step.grace_over left e) h =
      ended o.engine (end_grace o.engine) (end_grace-Untouched env o.engine) h
  Step-IsAuthentic {o} (Step.progress left e) h =
      let re = record (o.engine) { progressing = left } in
      progress-IsAuthentic re (Untouched-IsAuthentic env f o.engine re (refl, refl, refl) h)

  Reach-IsAuthentic :
      {o u : Orchestra} → Reach env o u → IsAuthentic env f o.engine → IsAuthentic env f u.engine
  Reach-IsAuthentic Reach.here h = h
  Reach-IsAuthentic (Reach.then steps step) h = Step-IsAuthentic step (Reach-IsAuthentic steps h)

-- Where a leader starts with the empty report only and no final report, then whatever messages arrive,
-- whatever goroutines of the leader run, whatever grace periods end and whatever rounds begin, in any
-- order, a final report that it holds is either the empty one or has at least f + 1 signatories, for
-- each of which the signature is valid, under the key that the signatory's ID spells, for a REPORT-RES.
pub final_report-IsAttested :
    (env : Env) (o u : Orchestra) (final : FinalReport)
    → o.engine.leader_state.reports ≡ zero_report ∷ []
    → o.engine.leader_state.final_report ≡ none
    → Reach env o u
    → u.engine.leader_state.final_report ≡ some final
    → (final ≡ empty_report)
      ⊎ ((o.engine.globals.f + 1 ≤ length final.signatories)
          × All (IsAttested env) final.signatories)
final_report-IsAttested env o u final fresh unsettled steps e =
    let h = Reach-IsAuthentic env o.engine.globals.f steps (record {
      rest = [];
      held = fresh;
      attested = tt;
      vouched = λ report same. absurd (cc);
      faulty = refl;
    }) in
    h.vouched final e
