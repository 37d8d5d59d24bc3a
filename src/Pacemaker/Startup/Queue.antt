-- ===== src/Pacemaker/Startup/Queue.antt =====
-- What the job listeners put in the queue of the pacemaker.
use eavesdrop.Prelude.{
  ◌≡◌, ◌⊎◌, refl, ap, sym, subst, arith, ◌∙◌, String, nat_eq, none, some, get_last?, List, [], ◌∷◌,
  ◌++◌, string_eq, inl, inr, Option-cases, All,
}
use mathlib.Core.List.{append_assoc, append-nil}
use eavesdrop.GoMap.{assign, lookup}
use eavesdrop.Go.{next, ◌>>◌}
use eavesdrop.Jobs.{DirectReqTask}
use eavesdrop.Jobs.DirectRequest.Runs.{get_last-some}
use eavesdrop.Jobs.DirectRequest.{JobLibrary, DirectRequest, succeeds, fails, panics, result}
use eavesdrop.Jobs.Reader.{SpecLibrary, toml_format, read}
use eavesdrop.Reporter.Lifecycle.{event_item}
use eavesdrop.Reporter.Events.{queue_of}
use eavesdrop.Pacemaker.{Pacemaker}
use eavesdrop.Pacemaker.Startup.{listen, register_job, launch_all}

queue_of-append :
    (es : List (String × String)) (id event : String)
    → queue_of es ++ event_item id event ∷ [] ≡ queue_of (es ++ (id, event) ∷ [])
queue_of-append [] id event = refl
queue_of-append ((job, other) ∷ es) id event =
    ap (λ q. event_item job other ∷ q) (queue_of-append es id event)

module _ (jobs : JobLibrary) (specs : SpecLibrary) where
  -- A spec that cannot be read, or that holds a job with tasks.
  abbrev pub IsProper : specs.Reader → Type 0
  IsProper reader =
      (read specs toml_format reader ≡ fails)
      ⊎ ((job : DirectRequest) × (task : DirectReqTask) × (tasks : List DirectReqTask) × (read specs
              toml_format reader
            ≡ succeeds (some job))
          × (job.params.observation_source ≡ task ∷ tasks))

  listen-some :
      (job : DirectRequest) (task : DirectReqTask) (tasks : List DirectReqTask)
      → job.params.observation_source ≡ task ∷ tasks
      → listen jobs job ≡ some (event_item job.job_id "dummy_event")
  unfolding listen result
  listen-some job task tasks e =
      let (last, f) = get_last-some task tasks in
      let final_task : get_last? job.params.observation_source ≡ some last = ap get_last? e ∙ f in
      elim (Option-cases (lookup last.name job.results)) [
        | inl g ↦ rw (listen, result, final_task, g) refl
        | inr (v, g) ↦ rw (listen, result, final_task, g) refl
      ]

  -- The events of a directory: one for each spec that can be read, in order.
  abbrev pub spec_events : List specs.Reader → List (String × String)
  spec_events [] = []
  spec_events (reader ∷ readers) = elim (read specs toml_format reader) [
    | fails ↦ spec_events readers
    | succeeds job ↦ elim job [
      | none ↦ spec_events readers
      | some job ↦ (job.job_id, "dummy_event") ∷ spec_events readers
    ]
    | panics ↦ spec_events readers
  ]

  spec_events-unread :
      (reader : specs.Reader) (readers : List specs.Reader)
      → read specs toml_format reader ≡ fails
      → spec_events (reader ∷ readers) ≡ spec_events readers
  spec_events-unread reader readers e = ground (arith, e)

  spec_events-read :
      (reader : specs.Reader) (readers : List specs.Reader) (job : DirectRequest)
      → read specs toml_format reader ≡ succeeds (some job)
      → spec_events (reader ∷ readers) ≡ (job.job_id, "dummy_event") ∷ spec_events readers
  spec_events-read reader readers job e = ground (arith, e)

  -- Only the registry and the queue change, and the queue gets these events.
  abbrev pub Launched : List (String × String) → Pacemaker → Pacemaker → Type 0
  Launched es p q =
      (q.rec_events ≡ queue_of es)
      × (q.reporter ≡ p.reporter)
      × (q.stats ≡ p.stats)
      × (q.ocr_id ≡ p.ocr_id)
      × (q.msg_service ≡ p.msg_service)

  registered :
      (job : DirectRequest) (task : DirectReqTask) (tasks : List DirectReqTask) (p : Pacemaker)
      (es : List (String × String))
      → job.params.observation_source ≡ task ∷ tasks
      → p.rec_events ≡ queue_of es
      → (q : Pacemaker) × (register_job jobs specs (some job) p ≡ next tt q)
        × Launched (es ++ (job.job_id, "dummy_event") ∷ []) p q
  unfolding register_job
  registered job task tasks p es e held = (
    record p {
      job_registry = assign job.job_id job p.job_registry;
      rec_events = p.rec_events ++ event_item job.job_id "dummy_event" ∷ [];
    },
    rw (listen-some job task tasks e) refl,
    (
      ap (λ q. q ++ event_item job.job_id "dummy_event" ∷ []) held
          ∙ queue_of-append es job.job_id "dummy_event",
      refl,
      refl,
      refl,
      refl,
    ),
  )

  pub launched :
      (readers : List specs.Reader) (p : Pacemaker) (es : List (String × String))
      → All IsProper readers
      → p.rec_events ≡ queue_of es
      → (q : Pacemaker) × (launch_all jobs specs readers p ≡ next tt q)
        × Launched (es ++ spec_events readers) p q
  unfolding launch_all
  launched [] p es proper held =
      (p, refl, (held ∙ ap queue_of (sym (append-nil es)), refl, refl, refl, refl))
  launched (reader ∷ readers) p es (inl unread, proper) held =
      let (q, done, events) = launched readers p es proper held in
      (
        q,
        rw (launch_all, unread) done,
        subst (λ more. Launched (es ++ more) p q) (sym (spec_events-unread reader readers unread))
            events,
      )
  launched (reader ∷ readers) p es (inr (job, task, tasks, e, f), proper) held =
      let (u, begun, (now, same_reporter, same_stats, same_id, same_service)) =
        registered job task tasks p es f held in
      let (q, done, (later, reporter, stats, id, service)) =
        launched readers u (es ++ (job.job_id, "dummy_event") ∷ []) proper now in
      (
        q,
        rw (launch_all, e, begun, ◌>>◌) done,
        (
          later
              ∙ ap queue_of (
                  append_assoc es ((job.job_id, "dummy_event") ∷ []) (spec_events readers)
                  ∙ ap (λ more. es ++ more) (sym (spec_events-read reader readers job e))),
          reporter ∙ same_reporter,
          stats ∙ same_stats,
          id ∙ same_id,
          service ∙ same_service,
        ),
      )
