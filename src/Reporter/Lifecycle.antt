-- ===== src/Reporter/Lifecycle.antt =====
-- How the engine is set up and started: `initReporter` and `Start` of ocr/reporter.go.
use eavesdrop.Prelude.{
  ℕ, zero, suc, ◌-◌, ◌/◌, String, Bool, true, false, Option, none, some, List, [], ◌∷◌, ◌++◌,
  nat_eq, if◌then◌else◌, length,
}
use eavesdrop.GoMap.{GoMap, assign, fetch}
use eavesdrop.Crypto.{PrivateKey}
use eavesdrop.Go.{
  Exit, next, exit, returned, panicked, blocked, nil_channel, idle, listened, finish, Body, ◌>>◌,
  pure,
}
use eavesdrop.Timer.{zero_timer}
use eavesdrop.Jobs.DirectRequest.{DirectRequest}
use eavesdrop.Reporter.{Engine, PacemakerGlobals, phase_nil, phase_observe, init_round, max_rounds}
use eavesdrop.Reporter.Steps.{signal_phase}
use eavesdrop.Consensus.{Report}

-- `&ReportingEngine{}`, the zero value of every field; `new(sync.Mutex)` is unlocked.
unfoldable pub zero_engine : Engine
zero_engine = record {
  cur_round = 0;
  is_leader = false;
  epoch = 0;
  leader = "";
  leader_state = record {
    observations = [];
    final_report = none;
    reports = [];
    final_report_attestation = 0;
    timer_round_timeout = none;
    timer_grace = none;
    phase = phase_nil;
    phase_ch = nil_channel;
  };
  msg_service = none;
  server_id = "";
  quit_ch = nil_channel;
  cache = record {
    observe_n = 0;
    report_n = 0;
    jobs = [];
    job_reports = [];
    follower_observations = [];
    c_final_report = record { report = []; signatories = [] };
  };
  globals = record { n = 0; f = 0 };
  signer = record { d = 0; public = record { x = 0; y = 0 } };
  job_registry = none;
  job_schedule = [];
  locked = false;
  ready = false;
  outbox = [];
  signals = [];
  progressing = 0;
}

-- What `recEvents` holds: events, as the pacemaker adds them, or jobs, as `Start` expects them.
pub data QueueItem : Type 0 where
  event_item : String → String → QueueItem
  job_item : DirectRequest → QueueItem

-- The inner loop of `Start` for one round: `n` calls of `recEvents.Next().(jobs.Job)`, which panic on
-- anything but a job.
unfoldable pub next_jobs : ℕ → List QueueItem → Option (List DirectRequest × List QueueItem)
next_jobs zero queue = some ([], queue)
next_jobs (suc n) [] = none
next_jobs (suc n) (event_item _ _ ∷ queue) = none
next_jobs (suc n) (job_item job ∷ queue) = elim (next_jobs n queue) [
  | none ↦ none
  | some (jobs, rest) ↦ some (job ∷ jobs, rest)
]

-- `re.jobSchedule[i] = append(re.jobSchedule[i], job)` for each job of the round.
unfoldable pub add_jobs :
    ℕ → List DirectRequest → GoMap ℕ (List DirectRequest) → GoMap ℕ (List DirectRequest)
add_jobs i [] schedule = schedule
add_jobs i (job ∷ jobs) schedule =
    add_jobs i jobs (assign i (fetch [] i schedule ++ job ∷ []) schedule)

-- The outer loop, from round `i`, with the number of rounds left.
unfoldable pub schedule_rounds :
    ℕ
    → ℕ
    → ℕ
    → List QueueItem
    → GoMap ℕ (List DirectRequest)
    → Option (GoMap ℕ (List DirectRequest) × List QueueItem)
schedule_rounds zero i per_round queue schedule = some (schedule, queue)
schedule_rounds (suc left) i per_round queue schedule = elim (next_jobs per_round queue) [
  | none ↦ none
  | some (jobs, rest) ↦ schedule_rounds left (suc i) per_round rest (add_jobs i jobs schedule)
]

-- `for j := 1; j < jobs_per_round; j++` makes one round less than `jobs_per_round`.
unfoldable pub schedule_jobs :
    List QueueItem → Option (GoMap ℕ (List DirectRequest) × List QueueItem)
schedule_jobs queue = schedule_rounds max_rounds 0 (length queue / max_rounds - 1) queue []

-- The report that `make([]Report, 1)` puts at the front of the list.
abbrev pub zero_report : Report
zero_report = record { from = ""; reports = []; sig = record { r = none; s = none } }

-- `initReporter`: it takes the mutex, and waits for ever where it is held.
unfoldable pub init_reporter :
    Bool
    → ℕ
    → String
    → String
    → PacemakerGlobals
    → PrivateKey
    → (String → Bool)
    → Engine
    → Exit Engine
init_reporter is_leader epoch leader server_id globals signer service re =
    if re.locked
    then blocked re
    else returned none (record re {
      epoch = epoch;
      server_id = server_id;
      leader = leader;
      job_schedule = [];
      signer = signer;
      job_registry = some [];
      leader_state = record {
        observations = [];
        final_report = none;
        reports = zero_report ∷ [];
        final_report_attestation = 0;
        timer_round_timeout = some zero_timer;
        timer_grace = some zero_timer;
        phase = if is_leader then phase_observe else phase_nil;
        phase_ch = idle;
      };
      cur_round = init_round;
      is_leader = is_leader;
      globals = globals;
      ready = false;
      cache = record {
        observe_n = 0;
        report_n = 0;
        jobs = [];
        job_reports = [];
        follower_observations = [];
        c_final_report = record { report = []; signatories = [] };
      };
      msg_service = some service;
    })

-- `NewReportingEngine`
unfoldable pub new_reporting_engine :
    Bool → ℕ → String → String → PacemakerGlobals → PrivateKey → (String → Bool) → Engine
unfolding zero_engine
new_reporting_engine is_leader epoch leader server_id globals signer service = record zero_engine {
  epoch = epoch;
  server_id = server_id;
  leader = leader;
  signer = signer;
  job_registry = some [];
  leader_state = record (zero_engine.leader_state) {
    reports = zero_report ∷ [];
    timer_round_timeout = some zero_timer;
    timer_grace = some zero_timer;
    phase = if is_leader then phase_observe else phase_nil;
    phase_ch = idle;
  };
  cur_round = init_round;
  is_leader = is_leader;
  globals = globals;
  msg_service = some service;
}

-- The leader's part of `Start`: schedule, let the orchestrator receive, and announce the first phase.
unfoldable pub start_leading : List QueueItem → Body Engine (Unit {0})
unfolding signal_phase
start_leading queue re = elim (schedule_jobs queue) [
  | none ↦ exit (panicked re)
  | some (schedule, _) ↦ signal_phase phase_observe (record re {
    job_schedule = schedule;
    leader_state = record (re.leader_state) { phase_ch = listened };
  })
]

-- `re.mu.Lock(); re.ready = true; re.mu.Unlock()`
unfoldable pub make_ready : Body Engine (Unit {0})
make_ready re = if re.locked then exit (blocked re) else next tt (record re { ready = true })

-- `Start`
unfoldable pub start_engine : List QueueItem → GoMap String DirectRequest → Engine → Exit Engine
unfolding start_leading make_ready
start_engine queue registry re =
    let begun = record re { job_registry = some registry } in
    finish ((do if begun.is_leader then start_leading queue else pure tt; make_ready) begun)
