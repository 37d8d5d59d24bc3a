-- ===== src/Jobs/DirectRequest/Runs.antt =====
-- What a run of a job guarantees.
use eavesdrop.Prelude.{
  ℕ, suc, ◌≡◌, ◌≢◌, refl, String, true, false, some, List, [], ◌∷◌, ◌==◌, string_eq, nat_eq,
  get_last?, arith, Bool-cases, Option-cases, inl, inr, beq_refl, subst,
}
use eavesdrop.GoMap.{GoMap, lookup, assign, fetch}
use eavesdrop.GoMap.Entries.{lookup-assign}
use eavesdrop.Jobs.{DirectReqTask, Value, nil_value, number, text}
use eavesdrop.Jobs.DirectRequest.{
  JobLibrary, execute_http, execute_json, execute_math, json_field, string_of, float_of,
  DirectRequest, Context, succeeds, execute, run_tasks, run, result,
}

abbrev Written : String → GoMap String Value → Type 0
Written name results = (v : Value) × (lookup name results ≡ some v)

writes :
    (name : String) (v : Value) (m results : GoMap String Value)
    → assign name v m ≡ results
    → Written name results
writes name v m results e = (v, rw (← e, lookup-assign name name v m, beq_refl name))

module _ (lib : JobLibrary) (task : DirectReqTask) (m results : GoMap String Value) where
  http-writes : execute_http lib task m ≡ some results → Written task.name results
  unfolding execute_http
  http-writes e = elim (Option-cases (lib.http_get task.url)) [
    | inl f ↦ absurd (ground arith)
    | inr (body, f) ↦ writes task.name (text body) m results (ground arith)
  ]

  json-writes : execute_json lib task m ≡ some results → Written task.name results
  unfolding execute_json
  json-writes e = elim (Option-cases (string_of lib (fetch nil_value task.input m))) [
    | inl f ↦ absurd (ground arith)
    | inr (input, f) ↦ elim (Option-cases (json_field lib task input)) [
      | inl g ↦ absurd (ground arith)
      | inr (value, g) ↦ writes task.name value m results (ground arith)
    ]
  ]

  math-writes : execute_math lib task m ≡ some results → Written task.name results
  unfolding execute_math
  math-writes e = elim (Option-cases (float_of lib (fetch nil_value task.input m))) [
    | inl f ↦ absurd (ground arith)
    | inr (x, f) ↦ writes task.name (number (lib.mul_float x task.factor)) m results (ground arith)
  ]

  -- A task other than "log" leaves a value under its name.
  execute-writes : task.type ≢ "log" → execute lib task m ≡ some results → Written task.name results
  unfolding execute
  execute-writes logs e = elim (Bool-cases (task.type == "http")) [
    | inl http ↦ http-writes (ground arith)
    | inr not_http ↦ elim (Bool-cases (task.type == "json")) [
      | inl json ↦ json-writes (ground arith)
      | inr not_json ↦ elim (Bool-cases (task.type == "math")) [
        | inl math ↦ math-writes (ground arith)
        | inr not_math ↦ absurd (ground (arith, string_eq.beq_iff task.type "log"))
      ]
    ]
  ]

pub get_last-some :
    (x : DirectReqTask) (xs : List DirectReqTask)
    → (y : DirectReqTask) × (get_last? (x ∷ xs) ≡ some y)
get_last-some x [] = (x, refl)
get_last-some x (y ∷ xs) = let (z, e) = get_last-some y xs in (z, ground arith)

module _ (lib : JobLibrary) where
  run_tasks-last :
      (ctx : Context) (i : ℕ) (tasks : List DirectReqTask) (m results : GoMap String Value)
      (last : DirectReqTask)
      → get_last? tasks ≡ some last
      → last.type ≢ "log"
      → run_tasks lib ctx i tasks m ≡ (results, true)
      → Written last.name results
  unfolding run_tasks
  run_tasks-last ctx i [] m results last e logs r = absurd (cc)
  run_tasks-last ctx i (task ∷ []) m results last e logs r =
      elim (Option-cases (execute lib task m)) [
        | inl f ↦ absurd (ground arith)
        | inr (m', f) ↦
            let same : task ≡ last = ground arith in
            subst (λ (t : DirectReqTask). Written t.name results) same
              (execute-writes lib task m results (rw same logs) (ground arith))
      ]
  run_tasks-last ctx i (task ∷ next ∷ tasks) m results last e logs r =
      elim (Option-cases (execute lib task m)) [
        | inl f ↦ absurd (ground arith)
        | inr (m', f) ↦
            run_tasks-last ctx (suc i) (next ∷ tasks) m' results last
              (ground (arith, get_last-some next tasks)) logs (ground arith)
      ]

  -- If a run of a job returns without an error, and its last task is not a log task, then `Result`
  -- succeeds, with the text of some value.
  pub run-result :
      (ctx : Context) (job : DirectRequest) (last : DirectReqTask)
      → get_last? job.params.observation_source ≡ some last
      → last.type ≢ "log"
      → (run lib ctx job).1 ≡ true
      → (v : Value) × (result lib (run lib ctx job).0 ≡ succeeds (lib.format_value v))
  unfolding run result
  run-result ctx job last e logs r =
      let (v, found) =
        run_tasks-last ctx 0 job.params.observation_source job.results (run lib ctx job).0.results
          last e logs (ground arith) in
      (v, ground arith)

  -- A job with at least one task, run in a context that is done at the start, fails and is left
  -- unchanged.
  pub run_at_once_cancelled :
      (ctx : Context) (job : DirectRequest) (task : DirectReqTask) (tasks : List DirectReqTask)
      → ctx 0 ≡ true
      → job.params.observation_source ≡ task ∷ tasks
      → (run lib ctx job ≡ (job, false))
  unfolding run run_tasks
  run_at_once_cancelled ctx job task tasks now e = ground arith
