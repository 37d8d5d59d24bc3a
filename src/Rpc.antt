-- ===== src/Rpc.antt =====
-- The messages that oracles exchange: rpc/message.go, rpc/rpc.go, rpc/reporter_rpc.go and
-- rpc/pacemaker_rpc.go. Integers of type uint64 are numbers; Go's `any` in `DecodedMsg.Data` is the
-- data type `Payload`.
pub mod Codec
pub mod Builder
use eavesdrop.Prelude.{ℕ, String, List, Bytes}
use eavesdrop.GoMap.{GoMap}
use eavesdrop.Crypto.{Signature}
use eavesdrop.Jobs.{JobInfo, JobObservationResponse, Value}

-- `JobReports`: job ID to reported value.
abbrev pub JobReports : Type 0
JobReports = GoMap String Value

pub record Signatories : Type 0 where
  pub sign : Signature
  pub id : String

pub record FinalReport : Type 0 where
  pub report : JobReports
  pub signatories : List Signatories

pub record StatusMsg : Type 0 where
  pub id : String
  pub network_id : String
  pub listen_addr : String

pub record NewEpochMesage : Type 0 where
  pub epoch_id : ℕ

pub record ObserveReq : Type 0 where
  pub epoch : ℕ
  pub round : ℕ
  pub leader : String
  pub jobs : List JobInfo

pub record ObserveResp : Type 0 where
  pub epoch : ℕ
  pub round : ℕ
  pub leader : String
  pub job_responses : List JobObservationResponse

pub record ReportReq : Type 0 where
  pub epoch : ℕ
  pub round : ℕ
  pub leader : String
  pub observations : Bytes

pub record ReportRes : Type 0 where
  pub epoch : ℕ
  pub round : ℕ
  pub leader : String
  pub reports : JobReports

pub record BroadcastObservationMap : Type 0 where
  pub epoch : ℕ
  pub round : ℕ
  pub leader : String
  pub observations : Bytes

pub record BroadcastFinalReport : Type 0 where
  pub epoch : ℕ
  pub round : ℕ
  pub leader : String
  pub final_report : FinalReport

pub record FinalEcho : Type 0 where
  pub epoch : ℕ
  pub round : ℕ
  pub leader : String

pub record ProgressRound : Type 0 where
  pub epoch : ℕ
  pub round : ℕ
  pub leader : String

-- A decoded message body, with a constructor for each type that a handler switches on.
pub data Payload : Type 0 where
  status_msg : StatusMsg → Payload
  new_epoch : NewEpochMesage → Payload
  change_leader : Payload
  observe_req : ObserveReq → Payload
  observe_resp : ObserveResp → Payload
  report_req : ReportReq → Payload
  report_res : ReportRes → Payload
  observation_map : BroadcastObservationMap → Payload
  final_report : BroadcastFinalReport → Payload
  final_echo : FinalEcho → Payload
  progress_round : ProgressRound → Payload

-- `DecodedMsg`; no code reads or sets its field `FromSock`.
pub record DecodedMsg : Type 0 where
  pub from_id : String
  pub topic : ℕ
  pub data_of : Payload
  pub signature : Signature
