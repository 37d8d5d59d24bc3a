-- ===== src/Scenarios/Signers.antt =====
-- A leader among its goroutines that gets three answers and starts its final phase.
use eavesdrop.Prelude.{◌≡◌, ◌≤◌, ◌⊎◌, refl, All, length, string_eq, bytes_eq, nat_eq}
use eavesdrop.GoMap.{lookup, assign, fetch}
use eavesdrop.Go.States.{state_of}
use eavesdrop.Crypto.{string_to_public_key, verify}
use eavesdrop.Rpc.{DecodedMsg, report_res}
use eavesdrop.Rpc.Codec.{topic_reporter}
use eavesdrop.Consensus.{assemble_final_report, settle, tally, count_entry}
use eavesdrop.Reporter.Steps.{set_phase, signal_phase}
use eavesdrop.Reporter.Leader.{handle_report_res, accept_report, append_report}
use eavesdrop.Reporter.Process.{
  process_message, dispatch, rpc_msg_prechecks, get_common_fields_and_phase,
}
use eavesdrop.Reporter.Orchestra.{Orchestra, Step, Reach}
use eavesdrop.Reporter.Settling.{Response}
use eavesdrop.Reporter.Attested.{empty_report, IsAttested}
use eavesdrop.Reporter.Authentic.{final_report-IsAttested}
use eavesdrop.Scenarios.Engines.{plain_env}
use eavesdrop.Scenarios.Answers.{leader_of, response_of}
use eavesdrop.Scenarios.Reports.{agreed_report}

abbrev arrives : Response → DecodedMsg
arrives x = record {
  from_id = x.from_id;
  topic = topic_reporter;
  data_of = report_res x.message;
  signature = x.sig;
}

abbrev got : Response → Orchestra → Orchestra
got x o = record o { engine = state_of (process_message plain_env (arrives x) o.engine) }

abbrev from_a : Response
from_a = response_of "a" 7 1

abbrev from_b : Response
from_b = response_of "b" 8 2

abbrev from_c : Response
from_c = response_of "c" 7 3

abbrev begun : Orchestra
begun = record { engine = leader_of 4; graces = 0 }

abbrev settled : Orchestra
settled = got from_c (got from_b (got from_a begun))

final_report-IsAttested_example :
    (agreed_report ≡ empty_report)
    ⊎ ((2 ≤ length agreed_report.signatories)
        × All (IsAttested plain_env) agreed_report.signatories)
unfolding process_message dispatch rpc_msg_prechecks get_common_fields_and_phase handle_report_res
    accept_report append_report set_phase signal_phase string_to_public_key verify
    assemble_final_report settle tally count_entry lookup assign fetch
final_report-IsAttested_example =
    final_report-IsAttested plain_env begun settled agreed_report refl refl
      (Reach.then
        (Reach.then (Reach.then Reach.here (Step.receive (arrives from_a)))
          (Step.receive (arrives from_b)))
        (Step.receive (arrives from_c)))
      refl
