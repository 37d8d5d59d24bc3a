-- ===== src/Pacemaker/Startup.antt =====
-- How the pacemaker starts: `Start`, `launchJobListeners` and `waitForEvents` of ocr/pacemaker.go, and
-- `Listen` of ocr/jobs/direct_req.go. A listener's goroutine runs to its end where it is started, and
-- what it sends is received. `Start` without the goroutine that it begins with, which is
-- `Pacemaker.Loop`.
pub mod Queue
pub mod Engines
pub mod Idle
pub mod Keeps
use eavesdrop.Prelude.{
  ℕ, String, Bool, true, false, Option, none, some, List, [], ◌∷◌, ◌++◌, Bytes, ◌==◌, string_eq,
  if◌then◌else◌, ltb, length,
}
use eavesdrop.GoMap.{assign}
use eavesdrop.Go.{Flow, next, exit, Body, ◌>>=◌, ◌>>◌, pure, gets, modify, or_else, panic, block}
use eavesdrop.Crypto.{PrivateKey}
use eavesdrop.Jobs.DirectRequest.{
  JobLibrary, DirectRequest, Attempt, succeeds, fails, panics, result,
}
use eavesdrop.Jobs.Reader.{SpecLibrary, toml_format, read, read_jobs_from_dir}
use eavesdrop.LeaderSelection.{HashLibrary, ProtcolPeer, exponential_backoff}
use eavesdrop.Reporter.Lifecycle.{QueueItem, event_item, init_reporter, start_engine}
use eavesdrop.Pacemaker.{Pacemaker, on_reporter, init_ticker_time, max_backoff, send_new_epoch_msg}

-- `JobSourceType`
pub data JobSourceType : Type 0 where
  job_source_dir job_source_db job_source_network : JobSourceType

-- `JobSourceConfig`
pub record JobSourceConfig : Type 0 where
  pub source_type : JobSourceType
  pub dir_path : String
  pub api_url : String

-- `Listen`: one event, whatever the result; none is a panic of `Result`.
unfoldable pub listen : JobLibrary → DirectRequest → Option QueueItem
listen lib job = elim (result lib job) [
  | succeeds _ ↦ some (event_item job.job_id "dummy_event")
  | fails ↦ some (event_item job.job_id "dummy_event")
  | panics ↦ none
]

module _ (jobs : JobLibrary) (specs : SpecLibrary) where
  -- A job that was read: its registration and its listener. A nil job has no ID, and panics.
  unfoldable pub register_job : Option DirectRequest → Body Pacemaker (Unit {0})
  unfolding listen
  register_job none = panic
  register_job (some job) = do
    modify (λ p. record p { job_registry = assign job.job_id job p.job_registry })
    event ← or_else (listen jobs job) panic
    modify (λ p. record p { rec_events = p.rec_events ++ event ∷ [] })

  -- The loop of `launchJobListeners` over the readers.
  unfoldable pub launch_all : List specs.Reader → Body Pacemaker (Unit {0})
  unfolding register_job
  launch_all [] = pure tt
  launch_all (reader ∷ readers) = elim (read specs toml_format reader) [
    | fails ↦ launch_all readers
    | succeeds job ↦ (do register_job job; launch_all readers)
    | panics ↦ panic
  ]

  -- `launchJobListeners`
  unfoldable pub launch_job_listeners : JobSourceConfig → Body Pacemaker (Unit {0})
  unfolding launch_all
  launch_job_listeners config = elim config.source_type [
    | job_source_dir ↦ elim (read_jobs_from_dir specs config.dir_path) [
      | none ↦ pure tt
      | some readers ↦ launch_all readers
    ]
    | job_source_db ↦ pure tt
    | job_source_network ↦ pure tt
  ]

  -- `waitForEvents`, for the queue as it is at each poll before the deadline.
  unfoldable pub wait_for_events : List (List QueueItem) → Bool
  wait_for_events [] = false
  wait_for_events (queue ∷ later) = if ltb 0 (length queue) then true else wait_for_events later

  -- The leader's part of `Start`.
  unfoldable pub start_listening :
      JobSourceConfig → List (List QueueItem) → Body Pacemaker (Unit {0})
  unfolding launch_job_listeners wait_for_events
  start_listening config polls = do
    launch_job_listeners config
    if wait_for_events polls then pure tt else send_new_epoch_msg

  -- `Start`, with the peers in each round of the backoff, and the queue at each poll.
  unfoldable pub start_pacemaker :
      HashLibrary
      → Bytes
      → List (List ProtcolPeer)
      → JobSourceConfig
      → List (List QueueItem)
      → PrivateKey
      → (String → Bool)
      → Body Pacemaker (Unit {0})
  unfolding start_listening on_reporter
  start_pacemaker lib secret_key rounds config polls signer service = do
    p ← gets (λ p. p)
    found ←
        or_else
          (exponential_backoff lib p.stats.e secret_key max_backoff init_ticker_time p.ocr_id
            rounds)
          block
    let is_leader = found.0.server_id == p.ocr_id
    if is_leader then start_listening config polls else pure tt
    on_reporter (
        init_reporter is_leader p.stats.e found.0.server_id p.ocr_id
          (record { n = p.stats.n; f = p.stats.f }) signer service)
    q ← gets (λ q. q)
    on_reporter (start_engine q.rec_events q.job_registry)
