-- ===== src/Jobs.antt =====
-- The jobs that the oracles observe: ocr/jobs/job.go, direct_req.go and job_observation.go.
pub mod DirectRequest
pub mod Reader
use eavesdrop.Prelude.{ℕ, String, Bool, List, Bytes}

-- A float64 as its bit pattern; arithmetic on floats is a parameter where the code uses it.
abbrev pub Float64 : Type 0
Float64 = ℕ

-- `DirectReqTask`, one step of a job.
pub record DirectReqTask : Type 0 where
  pub name : String
  pub type : String
  pub method : String
  pub url : String
  pub input : String
  pub path : String
  pub factor : Float64

-- `DirectReqReportGenParms`
pub record DirectReqReportGenParms : Type 0 where
  pub strategy : String
  pub result_type : String
  pub schema : String

-- `DirectRequestTemplateParams`
pub record DirectRequestTemplateParams : Type 0 where
  pub contract_address : Bytes
  pub evm_chain_id : ℕ
  pub chain_id : String
  pub external_job_id : String
  pub schema_version : ℕ
  pub name : String
  pub observation_source : List DirectReqTask
  pub reporting_strategy : DirectReqReportGenParms

-- The values that the code keeps in an `interface{}`: a JSON scalar, an object or array as its JSON
-- text, or a template.
pub data Value : Type 0 where
  nil_value : Value
  boolean : Bool → Value
  number : Float64 → Value
  text : String → Value
  composite : Bytes → Value
  template : DirectRequestTemplateParams → Value

-- `JobInfo`, sent by the leader with OBSERVE-REQ.
pub record JobInfo : Type 0 where
  pub job_id : String
  pub job_type : String
  pub template : Value
  pub timeout : ℕ

-- `JobObservationResponse`
pub record JobObservationResponse : Type 0 where
  pub job_id : String
  pub response : Bytes
