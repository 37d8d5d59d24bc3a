-- ===== src/Scenarios/JobRuns.antt =====
-- A job that fetches a price and reads it out of JSON, and the mean of what two nodes observed.
use eavesdrop.Prelude.{
  ◌+◌, String, true, false, Option, some, none, List, [], ◌∷◌, ◌≡◌, ◌≢◌, refl, Bytes, arith,
  string_eq,
}
use eavesdrop.GoMap.{lookup, assign, fetch}
use eavesdrop.Jobs.{Value, number, DirectReqTask, Float64, JobObservationResponse}
use eavesdrop.Jobs.DirectRequest.{
  JobLibrary, DirectRequest, Context, succeeds, new_direct_req, new_report_assembler, execute,
  run_tasks, run, result, mean_assemble,
}
use eavesdrop.Jobs.DirectRequest.Runs.{run-result}
use eavesdrop.Jobs.DirectRequest.Mean.{mean_assemble-mean}

abbrev number_of : Bytes → Option Float64
number_of (n ∷ []) = some n
number_of _ = none

-- Every page is a price of 7; a response of one byte is a number; floats add as numbers do.
abbrev pub plain_jobs : JobLibrary
plain_jobs = record {
  http_get = λ url. some "page";
  json_object = λ body. some (("price", number 7) ∷ []);
  json_number = number_of;
  json_template = λ v. none;
  parse_float = λ s. none;
  format_value = λ v. 7 ∷ [];
  zero_float = 0;
  add_float = λ a b. a + b;
  mul_float = λ a b. a;
  div_float = λ a b. a;
  float_of_int = λ n. n;
}

abbrev pub task_of : String → String → String → DirectReqTask
task_of name type input = record {
  name = name;
  type = type;
  method = "GET";
  url = "u";
  input = input;
  path = "price";
  factor = 1;
}

abbrev price_tasks : List DirectReqTask
price_tasks = task_of "fetch" "http" "" ∷ task_of "parse" "json" "fetch" ∷ []

abbrev pub price_job : DirectRequest
price_job = new_direct_req (record {
  contract_address = [];
  evm_chain_id = 1;
  chain_id = "1";
  external_job_id = "price";
  schema_version = 1;
  name = "price";
  observation_source = price_tasks;
  reporting_strategy = record { strategy = "mean"; result_type = "numeric"; schema = "" };
})

abbrev never_done : Context
never_done = λ _. false

abbrev done_at_once : Context
done_at_once = λ _. true

price_job_runs : (run plain_jobs never_done price_job).1 ≡ true
unfolding run run_tasks new_report_assembler new_direct_req execute lookup assign fetch
price_job_runs = refl

not_a_log : (task_of "parse" "json" "fetch").type ≢ "log"
not_a_log e = absurd (ground (arith, string_eq.beq_iff "json" "log"))

run-result_example :
    (v : Value) × (result plain_jobs (run plain_jobs never_done price_job).0
      ≡ succeeds (plain_jobs.format_value v))
unfolding new_direct_req
run-result_example =
    run-result plain_jobs never_done price_job (task_of "parse" "json" "fetch") refl not_a_log
      price_job_runs

abbrev observed : Bytes → JobObservationResponse
observed bytes = record { job_id = "price"; response = bytes }

mean_assemble-mean_example :
    mean_assemble plain_jobs price_job (observed (6 ∷ []) ∷ observed (8 ∷ []) ∷ [])
    ≡ succeeds (number 14)
unfolding new_direct_req
mean_assemble-mean_example =
    mean_assemble-mean plain_jobs price_job refl refl (observed (6 ∷ []) ∷ observed (8 ∷ []) ∷ [])
      (6 ∷ 8 ∷ []) refl (omega arith)
