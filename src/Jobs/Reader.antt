-- ===== src/Jobs/Reader.antt =====
-- How job specs are read: ocr/jobs/job_reader.go. The file system, its readers and the TOML parser are
-- parameters; a reader is read once, to its end.
pub mod Specs
use eavesdrop.Prelude.{
  ℕ, String, Bool, false, Option, none, some, List, [], ◌∷◌, Bytes, ◌==◌, string_eq, if◌then◌else◌,
}
use eavesdrop.Jobs.{DirectRequestTemplateParams}
use eavesdrop.Jobs.DirectRequest.{DirectRequest, Attempt, succeeds, fails}

-- What the job reader calls of io, os, path/filepath and go-toml, and the text of an address; `none` is
-- an error.
pub record SpecLibrary : Type 1 where
  pub Reader : Type 0
  pub read_all : Reader → Option Bytes
  pub open_file : String → Option Reader
  -- The entries of a directory: their names, and whether they are directories.
  pub read_dir : String → Option (List (String × Bool))
  pub join : String → String → String
  -- toml.Unmarshal into a JobTypeToml and into DirectRequestTemplateParams
  pub toml_type : Bytes → Option String
  pub toml_params : Bytes → Option DirectRequestTemplateParams
  pub address_string : Bytes → String

-- `JobFormat`
pub data JobFormat : Type 0 where
  json_format yaml_format toml_format : JobFormat

-- The job that `Read` makes of the template.
unfoldable pub job_of : (Bytes → String) → DirectRequestTemplateParams → DirectRequest
job_of address_string params = record {
  job_id =
      if params.external_job_id == ""
      then address_string params.contract_address
      else params.external_job_id;
  job_type = "directrequest";
  params = params;
  results = [];
  timeout = 0;
  assembles = false;
}

module _ (lib : SpecLibrary) where
  -- `Read`, on the contents: a job, a nil job without an error, or an error.
  unfoldable pub read_spec : JobFormat → Bytes → String → Attempt (Option DirectRequest)
  unfolding job_of
  read_spec toml_format spec job_type =
      if job_type == "directrequest"
      then elim (lib.toml_params spec) [
        | none ↦ fails
        | some params ↦ succeeds (some (job_of lib.address_string params))
      ]
      else succeeds none
  read_spec _ spec job_type = succeeds none

  -- `Read`
  unfoldable pub read : JobFormat → lib.Reader → Attempt (Option DirectRequest)
  unfolding read_spec
  read format reader = elim (lib.read_all reader) [
    | none ↦ fails
    | some spec ↦ elim (lib.toml_type spec) [
      | none ↦ fails
      | some job_type ↦ read_spec format spec job_type
    ]
  ]

  -- `ReadJobSpec`
  unfoldable pub read_job_spec : String → String → Option lib.Reader
  read_job_spec from path = if from == "fs" then lib.open_file path else none

  -- The loop of `ReadJobsFromDir`.
  unfoldable pub open_files : String → List (String × Bool) → Option (List lib.Reader)
  open_files dir [] = some []
  open_files dir ((name, is_dir) ∷ files) =
      let rest = open_files dir files in
      if is_dir then rest else elim (lib.open_file (lib.join dir name)) [
        | none ↦ none
        | some reader ↦ elim rest [ none ↦ none | some readers ↦ some (reader ∷ readers) ]
      ]

  -- `ReadJobsFromDir`
  unfoldable pub read_jobs_from_dir : String → Option (List lib.Reader)
  unfolding open_files
  read_jobs_from_dir dir = elim (lib.read_dir dir) [
    | none ↦ none
    | some files ↦ open_files dir files
  ]
