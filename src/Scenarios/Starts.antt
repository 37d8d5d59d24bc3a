-- ===== src/Scenarios/Starts.antt =====
-- A leader that starts with one job, which it has read from a file.
use eavesdrop.Prelude.{true, false, some, List, [], ◌∷◌, Bytes, string_eq}
use eavesdrop.Jobs.DirectRequest.{DirectRequest}
use eavesdrop.Jobs.Reader.{SpecLibrary, job_of}
use eavesdrop.LeaderSelection.{ProtcolPeer}
use eavesdrop.Rpc.Codec.{message_new_epoch, topic_pacemaker}
use eavesdrop.Pacemaker.{Pacemaker}
use eavesdrop.Pacemaker.Startup.{JobSourceConfig, job_source_dir}
use eavesdrop.Reporter.{Env}
use eavesdrop.Scenarios.Engines.{plain_env}
use eavesdrop.Scenarios.Epochs.{pacemaker_of}
use eavesdrop.Scenarios.JobRuns.{plain_jobs, price_job}
use eavesdrop.Scenarios.Leaders.{peer_of}

-- A directory with one spec, which holds a price job.
abbrev pub plain_specs : SpecLibrary
plain_specs = record {
  Reader = Bytes;
  read_all = λ reader. some reader;
  open_file = λ path. some [];
  read_dir = λ dir. some (("price.toml", false) ∷ []);
  join = λ dir name. name;
  toml_type = λ spec. some "directrequest";
  toml_params = λ spec. some price_job.params;
  address_string = λ a. "";
}

abbrev read_job : DirectRequest
read_job = job_of (λ a. "") price_job.params

-- A context without time is done at once.
abbrev hasty_env : Env
hasty_env = record plain_env {
  jobs = record plain_jobs { json_template = λ v. some read_job.params };
  with_timeout = λ timeout i. true;
}

abbrev pub from_dir : JobSourceConfig
from_dir = record { source_type = job_source_dir; dir_path = "jobs"; api_url = "" }

abbrev pub peers_of_a : List ProtcolPeer
peers_of_a = peer_of "b" ∷ peer_of "c" ∷ []

abbrev node_a : Pacemaker
node_a = pacemaker_of "a"

abbrev epoch_bytes : Bytes
epoch_bytes = message_new_epoch ∷ topic_pacemaker ∷ []
