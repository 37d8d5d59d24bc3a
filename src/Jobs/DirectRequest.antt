-- ===== src/Jobs/DirectRequest.antt =====
-- The direct-request job: `DirectRequest` of ocr/jobs/direct_req.go, `NewJobFromInfo` of
-- ocr/jobs/job.go and the mean assembler of ocr/jobs/report_assembler.go. HTTP, JSON, strconv, fmt and
-- float arithmetic are parameters. A method that changes the job returns the new job.
pub mod Runs
pub mod Mean
use eavesdrop.Prelude.{
  ℕ, suc, ◌+◌, String, Bool, true, false, Option, none, some, List, [], ◌∷◌, Bytes, ◌==◌, string_eq,
  nat_eq, get_last?, if◌then◌else◌,
}
use eavesdrop.GoMap.{GoMap, lookup, assign, fetch}
use eavesdrop.Jobs.{
  Float64, DirectReqTask, DirectRequestTemplateParams, Value, nil_value, number, text, boolean,
  composite, template, JobInfo, JobObservationResponse,
}

-- What the jobs call of other packages; `none` is an error.
pub record JobLibrary : Type 0 where
  -- http.Get and io.ReadAll
  pub http_get : String → Option String
  -- json.Unmarshal into a map[string]interface{}
  pub json_object : String → Option (GoMap String Value)
  -- json.Unmarshal into a float64
  pub json_number : Bytes → Option Float64
  -- json.Marshal of a template, then json.Unmarshal into DirectRequestTemplateParams
  pub json_template : Value → Option DirectRequestTemplateParams
  -- strconv.ParseFloat
  pub parse_float : String → Option Float64
  -- fmt.Sprintf("%v", …)
  pub format_value : Value → Bytes
  pub zero_float : Float64
  pub add_float : Float64 → Float64 → Float64
  pub mul_float : Float64 → Float64 → Float64
  pub div_float : Float64 → Float64 → Float64
  pub float_of_int : ℕ → Float64

-- `DirectRequest`. `assembles` says that the embedded `ReportAssembler`, nil at first, was set.
pub record DirectRequest : Type 0 where
  pub job_id : String
  pub job_type : String
  pub params : DirectRequestTemplateParams
  pub results : GoMap String Value
  pub timeout : ℕ
  pub assembles : Bool

-- A context, as the answers that `ctx.Done()` gives before each task: `true` if it is done.
abbrev pub Context : Type 0
Context = ℕ → Bool

-- A method call that returns an error, a value, or panics.
pub data Attempt {ℓ} (A : Type ℓ) : Type ℓ where
  succeeds : A → Attempt A
  fails : Attempt A
  panics : Attempt A

-- `NewDirectReq`
unfoldable pub new_direct_req : DirectRequestTemplateParams → DirectRequest
new_direct_req params = record {
  job_id = params.external_job_id;
  job_type = "directrequest";
  params = params;
  results = [];
  timeout = 0;
  assembles = false;
}

-- `NewReportAssembler`: only the strategy "mean" is known.
unfoldable pub new_report_assembler : String → Bool
new_report_assembler strategy = strategy == "mean"

module _ (lib : JobLibrary) where
  -- `NewJobFromInfo`
  unfoldable pub new_job_from_info : JobInfo → Option DirectRequest
  new_job_from_info info =
      if info.job_type == "directrequest"
      then elim (lib.json_template info.template) [
        | none ↦ none
        | some params ↦ some (record {
          job_id = info.job_id;
          job_type = "directrequest";
          params = params;
          results = [];
          timeout = info.timeout;
          assembles = false;
        })
      ]
      else none

  execute_http : DirectReqTask → GoMap String Value → Option (GoMap String Value)
  execute_http task results = elim (lib.http_get task.url) [
    | none ↦ none
    | some body ↦ some (assign task.name (text body) results)
  ]

  json_field : DirectReqTask → String → Option Value
  json_field task input = elim (lib.json_object input) [
    | none ↦ none
    | some parsed ↦ lookup task.path parsed
  ]

  -- The JSON input of a task: a string, or no input.
  string_of : Value → Option String
  string_of (text s) = some s
  string_of _ = none

  execute_json : DirectReqTask → GoMap String Value → Option (GoMap String Value)
  unfolding json_field string_of
  execute_json task results = elim (string_of (fetch nil_value task.input results)) [
    | none ↦ none
    | some input ↦ elim (json_field task input) [
      | none ↦ none
      | some value ↦ some (assign task.name value results)
    ]
  ]

  -- The number that a math task reads: a float64, or a string that parses as one.
  float_of : Value → Option Float64
  float_of (number x) = some x
  float_of (text s) = lib.parse_float s
  float_of _ = none

  execute_math : DirectReqTask → GoMap String Value → Option (GoMap String Value)
  unfolding float_of
  execute_math task results = elim (float_of (fetch nil_value task.input results)) [
    | none ↦ none
    | some x ↦ some (assign task.name (number (lib.mul_float x task.factor)) results)
  ]

  -- `Execute`, on the results so far; `none` is an error.
  unfoldable pub execute : DirectReqTask → GoMap String Value → Option (GoMap String Value)
  unfolding execute_http execute_json execute_math
  execute task results =
      if task.type == "http"
      then execute_http task results
      else if task.type == "json"
      then execute_json task results
      else if task.type == "math"
      then execute_math task results
      else if task.type == "log"
      then some results
      else none

  -- The loop of `Run`, from the `i`-th task: the results, and whether every task was executed.
  unfoldable pub run_tasks :
      Context → ℕ → List DirectReqTask → GoMap String Value → GoMap String Value × Bool
  run_tasks ctx i [] results = (results, true)
  run_tasks ctx i (task ∷ tasks) results =
      if ctx i then (results, false) else elim (execute task results) [
        | none ↦ (results, false)
        | some results' ↦ run_tasks ctx (suc i) tasks results'
      ]

  -- `Run`: the job with what it has computed, and whether it returned without an error.
  unfoldable pub run : Context → DirectRequest → DirectRequest × Bool
  run ctx job =
      let (results, finished) = run_tasks ctx 0 job.params.observation_source job.results in
      let ran = record job { results = results } in
      if finished
      then if new_report_assembler job.params.reporting_strategy.strategy
        then (record ran { assembles = true }, true)
        else (ran, false)
      else (ran, false)

  -- `Result`: the text of what the last task left; a job without tasks panics.
  unfoldable pub result : DirectRequest → Attempt Bytes
  result job = elim (get_last? job.params.observation_source) [
    | none ↦ panics
    | some final_task ↦ elim (lookup final_task.name job.results) [
      | none ↦ fails
      | some value ↦ succeeds (lib.format_value value)
    ]
  ]

  -- The loop of `MeanValueAssembler.Assemble`: `sum` and `count`, or an error.
  unfoldable pub sum_responses : List JobObservationResponse → Float64 → ℕ → Option (Float64 × ℕ)
  sum_responses [] sum count = some (sum, count)
  sum_responses (res ∷ obs) sum count = elim (lib.json_number res.response) [
    | none ↦ none
    | some val ↦ sum_responses obs (lib.add_float sum val) (count + 1)
  ]

  mean_of : Option (Float64 × ℕ) → Attempt Value
  mean_of none = fails
  mean_of (some (sum, count)) =
      if count == 0 then fails else succeeds (number (lib.div_float sum (lib.float_of_int count)))

  -- `MeanValueAssembler.Assemble` of a job.
  unfoldable pub mean_assemble : DirectRequest → List JobObservationResponse → Attempt Value
  unfolding mean_of
  mean_assemble job obs =
      if job.job_type == "directrequest"
      then if job.params.reporting_strategy.result_type == "numeric"
        then mean_of (sum_responses obs lib.zero_float 0)
        else fails
      else fails

  -- `job.Assemble`: the embedded assembler is nil until `Run` has set it, and a nil job panics too.
  unfoldable pub assemble : Option DirectRequest → List JobObservationResponse → Attempt Value
  assemble none obs = panics
  assemble (some job) obs = if job.assembles then mean_assemble job obs else panics
