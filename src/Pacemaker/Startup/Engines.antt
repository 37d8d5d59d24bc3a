-- ===== src/Pacemaker/Startup/Engines.antt =====
-- How the engine is initialised and started on a queue of events, and what the pacemaker sees of it.
use eavesdrop.Prelude.{
  ℕ, ◌<◌, ◌≤◌, ◌≡◌, refl, ap, String, Bool, nat_eq, true, false, none, some, map, List, [], ◌∷◌,
  ◌++◌, string_eq, arith, inl, inr, Bool-cases, length, ltb,
}
use eavesdrop.GoMap.{fetch, lookup, GoMap}
use eavesdrop.Go.{Exit, returned, panicked, listened, next, exit, finish}
use eavesdrop.Crypto.{PrivateKey}
use eavesdrop.Jobs.DirectRequest.{DirectRequest}
use eavesdrop.Reporter.{Engine, PacemakerGlobals, phase_observe}
use eavesdrop.Go.States.{state_of}
use eavesdrop.Reporter.Steps.{signal_phase}
use eavesdrop.Reporter.Lifecycle.{
  init_reporter, new_reporting_engine, zero_engine, start_leading, make_ready, start_engine,
}
use eavesdrop.Reporter.Events.{queue_of, schedule_jobs-queue_of}
use eavesdrop.Reporter.Phases.{job_info, get_job_infos}
use eavesdrop.Pacemaker.{Pacemaker, on_reporter}

-- The engine as `initReporter` leaves it.
module _ (is_leader : Bool) (epoch : ℕ) (leader id : String) (globals : PacemakerGlobals)
    (signer : PrivateKey) (service : String → Bool) (re : Engine) (free : re.locked ≡ false) where
  pub initialized :
      (fresh : Engine) × (init_reporter is_leader epoch leader id globals signer service re
        ≡ returned none fresh)
      × (fresh.locked ≡ false)
      × (fresh.is_leader ≡ is_leader)
      × (fresh.job_schedule ≡ [])
  unfolding init_reporter
  initialized =
      let fresh = state_of (init_reporter is_leader epoch leader id globals signer service re) in
      (
        fresh,
        ground (arith, free),
        ground (arith, free),
        ground (arith, free),
        ground (arith, free),
      )

-- `initReporter` makes of the pacemaker's engine what `NewReportingEngine` makes.
init_reporter-new_reporting_engine :
    (is_leader : Bool) (epoch : ℕ) (leader id : String) (globals : PacemakerGlobals)
    (signer : PrivateKey) (service : String → Bool)
    → init_reporter is_leader epoch leader id globals signer service zero_engine
      ≡ returned none (new_reporting_engine is_leader epoch leader id globals signer service)
unfolding init_reporter new_reporting_engine zero_engine
init_reporter-new_reporting_engine is_leader epoch leader id globals signer service = refl

-- The end of `Start`.
made_ready :
    (re : Engine)
    → re.locked ≡ false
    → finish (make_ready re) ≡ returned none (record re { ready = true })
unfolding make_ready
made_ready re free = rw free refl

module _ (re : Engine) (registry : GoMap String DirectRequest) (es : List (String × String))
    (free : re.locked ≡ false) where
  pub started_few :
      re.job_schedule ≡ []
      → length es < 20
      → (re' : Engine) × (start_engine (queue_of es) registry re ≡ returned none re')
        × (re'.ready ≡ true)
        × (re'.is_leader ≡ re.is_leader)
        × (re'.job_schedule ≡ [])
  unfolding start_engine start_leading signal_phase make_ready
  started_few none_yet few =
      let scheduled = schedule_jobs-queue_of es in
      let fits : ltb (length es) 20 ≡ true = ground (arith, few) in
      elim (Bool-cases re.is_leader) [
        | inl lead ↦ (
          record re {
            job_registry = some registry;
            job_schedule = [];
            leader_state = record (re.leader_state) { phase_ch = listened };
            signals = re.signals ++ phase_observe ∷ [];
            ready = true;
          },
          rw (lead, start_leading, scheduled, fits, free) refl,
          refl,
          refl,
          refl,
        )
        | inr follow ↦ (
          record re { job_registry = some registry; ready = true },
          rw (follow, free) refl,
          refl,
          refl,
          none_yet,
        )
      ]

  pub started_many :
      re.is_leader ≡ true
      → 20 ≤ length es
      → start_engine (queue_of es) registry re
        ≡ panicked (record re { job_registry = some registry })
  unfolding start_engine start_leading signal_phase
  started_many lead many =
      let scheduled = schedule_jobs-queue_of es in
      let over : ltb (length es) 20 ≡ false = ground (arith, many) in
      rw (lead, start_leading, scheduled, over) refl

pub idle_infos : (re : Engine) → re.job_schedule ≡ [] → get_job_infos re ≡ []
unfolding get_job_infos fetch lookup
idle_infos re e = ap (λ schedule. map job_info (fetch [] re.cur_round schedule)) e

-- What a call of the engine means to the pacemaker.
pub returned_lem :
    (call : Engine → Exit Engine) (q : Pacemaker) (re re' : Engine)
    → call re ≡ returned none re'
    → on_reporter call (record q { reporter = re }) ≡ next tt (record q { reporter = re' })
unfolding on_reporter
returned_lem call q re re' e = rw (on_reporter, e) refl

pub panicked_lem :
    (call : Engine → Exit Engine) (q : Pacemaker) (re re' : Engine)
    → call re ≡ panicked re'
    → on_reporter call (record q { reporter = re }) ≡ exit (panicked (record q { reporter = re' }))
unfolding on_reporter
panicked_lem call q re re' e = rw (on_reporter, e) refl
