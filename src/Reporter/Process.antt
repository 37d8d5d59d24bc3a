-- ===== src/Reporter/Process.antt =====
-- `ProcessMessage` and `rpcMsgPrechecks` of ocr/reporter.go, and `getCommonFieldsAndPhase` of
-- ocr/utils.go.
use eavesdrop.Prelude.{
  ℕ, String, Bool, true, false, not, Option, none, some, ◌==◌, string_eq, nat_eq, if◌then◌else◌,
}
use eavesdrop.Go.{GoError, Exit, blocked, returned, Body, give_back, finish}
use eavesdrop.Rpc.{
  Payload, status_msg, new_epoch, change_leader, observe_req, observe_resp, report_req, report_res,
  observation_map, final_report, final_echo, progress_round, DecodedMsg,
}
use eavesdrop.Reporter.{Engine, Env, LeaderPhase, phase_observe, phase_report, phase_final}
use eavesdrop.Reporter.Follower.{handle_observe_req, handle_observation_map, handle_report_req}
use eavesdrop.Reporter.Finals.{handle_final_report, handle_progress_round}
use eavesdrop.Reporter.Leader.{handle_observe_resp, handle_report_res, handle_final_echo}

-- What `getCommonFieldsAndPhase` returns.
pub record Common : Type 0 where
  pub epoch : ℕ
  pub round : ℕ
  pub leader : String
  pub phase : LeaderPhase

-- `getCommonFieldsAndPhase`: none where a field is missing, or where `typeToPhase` has no entry.
unfoldable pub get_common_fields_and_phase : Payload → Option Common
get_common_fields_and_phase (status_msg _) = none
get_common_fields_and_phase (new_epoch _) = none
get_common_fields_and_phase change_leader = none
get_common_fields_and_phase (observe_req m) =
    some (record { epoch = m.epoch; round = m.round; leader = m.leader; phase = phase_observe })
get_common_fields_and_phase (observe_resp m) =
    some (record { epoch = m.epoch; round = m.round; leader = m.leader; phase = phase_observe })
get_common_fields_and_phase (report_req m) =
    some (record { epoch = m.epoch; round = m.round; leader = m.leader; phase = phase_report })
get_common_fields_and_phase (report_res m) =
    some (record { epoch = m.epoch; round = m.round; leader = m.leader; phase = phase_report })
get_common_fields_and_phase (observation_map m) =
    some (record { epoch = m.epoch; round = m.round; leader = m.leader; phase = phase_report })
get_common_fields_and_phase (final_report m) =
    some (record { epoch = m.epoch; round = m.round; leader = m.leader; phase = phase_final })
get_common_fields_and_phase (final_echo m) =
    some (record { epoch = m.epoch; round = m.round; leader = m.leader; phase = phase_final })
get_common_fields_and_phase (progress_round _) = none

check_common : Engine → Common → Bool
check_common re c =
    if not (c.epoch == re.epoch)
    then false
    else if not (c.round == re.cur_round)
    then false
    else if not (c.leader == re.leader)
    then false
    else true

-- `rpcMsgPrechecks`: whether the message is let through.
unfoldable pub rpc_msg_prechecks : Engine → Payload → Bool
unfolding check_common
rpc_msg_prechecks re p = elim (get_common_fields_and_phase p) [
  | none ↦ false
  | some c ↦ check_common re c
]

module _ (env : Env) where
  -- The type switch.
  unfoldable pub dispatch : DecodedMsg → Payload → Body Engine (Unit {0})
  dispatch msg (observe_req m) = handle_observe_req env m
  dispatch msg (observe_resp m) = handle_observe_resp env m msg.from_id msg.signature
  dispatch msg (observation_map m) = handle_observation_map env m
  dispatch msg (report_req m) = handle_report_req env m
  dispatch msg (report_res m) = handle_report_res env m msg.from_id msg.signature
  dispatch msg (final_report m) = handle_final_report env m msg.from_id msg.signature
  dispatch msg (final_echo m) = handle_final_echo env m msg.from_id msg.signature
  dispatch msg (progress_round m) = handle_progress_round env m msg.signature
  dispatch msg (status_msg _) = give_back none
  dispatch msg (new_epoch _) = give_back none
  dispatch msg change_leader = give_back none

  -- `ProcessMessage`. Where the engine is not ready it returns with the mutex held.
  unfoldable pub process_message : DecodedMsg → Engine → Exit Engine
  process_message msg re =
      if re.locked
      then blocked re
      else if not re.ready
      then returned (some GoError.not_ready) (record re { locked = true })
      else if not (rpc_msg_prechecks re msg.data_of)
      then returned (some GoError.prechecks_failed) re
      else finish (dispatch msg msg.data_of re)
