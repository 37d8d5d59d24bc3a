-- ===== src/Pacemaker/Startup/Keeps.antt =====
-- What the start of the pacemaker leaves as it is, however it ends.
use eavesdrop.Prelude.{
  ℕ, ◌≤◌, ◌≡◌, refl, subst, sym, String, Bool, true, false, Option, none, some, List, [], ◌∷◌,
  Bytes, ◌==◌, string_eq, if◌then◌else◌, arith, Bool-cases, Option-cases, inl, inr,
}
use eavesdrop.Go.{Exit, panicked, exit, Body, ◌>>=◌, ◌>>◌, pure, gets}
use eavesdrop.Go.States.{reached, reached->>, state_of}
use eavesdrop.Crypto.{PrivateKey}
use eavesdrop.GoMap.{GoMap}
use eavesdrop.Jobs.DirectRequest.{JobLibrary, DirectRequest, Attempt, succeeds, fails, panics}
use eavesdrop.Jobs.Reader.{SpecLibrary, toml_format, read, read_jobs_from_dir}
use eavesdrop.LeaderSelection.{HashLibrary, ProtcolPeer, exponential_backoff}
use eavesdrop.Reporter.{Engine, PacemakerGlobals, phase_observe}
use eavesdrop.Reporter.Steps.{signal_phase}
use eavesdrop.Reporter.Rounds.{IsStuck, signal-All}
use eavesdrop.Reporter.Lifecycle.{QueueItem, init_reporter, start_engine, start_leading, make_ready}
use eavesdrop.Pacemaker.{Pacemaker, on_reporter, send_new_epoch_msg, max_backoff, init_ticker_time}
use eavesdrop.Pacemaker.Startup.{
  JobSourceConfig, register_job, launch_all, launch_job_listeners, start_listening, start_pacemaker,
}

-- The engine and the counters of epochs are the same.
abbrev pub Keeps : Pacemaker → Pacemaker → Type 0
Keeps p q = (q.reporter ≡ p.reporter) × (q.stats ≡ p.stats) × (q.timers ≡ p.timers)

module _ (jobs : JobLibrary) (specs : SpecLibrary) (p : Pacemaker) where
  register_job-Keeps :
      (job : Option DirectRequest) (q : Pacemaker)
      → Keeps p q
      → Keeps p (reached (register_job jobs specs job q))
  unfolding register_job
  register_job-Keeps none q k = k
  register_job-Keeps (some job) q k = ground arith

  launch_all-Keeps :
      (readers : List specs.Reader) (q : Pacemaker)
      → Keeps p q
      → Keeps p (reached (launch_all jobs specs readers q))
  unfolding launch_all
  launch_all-Keeps [] q k = k
  launch_all-Keeps (reader ∷ readers) q k =
      go (λ t h. launch_all-Keeps readers t h) (read specs toml_format reader)
    where
      go :
          ((t : Pacemaker) → Keeps p t → Keeps p (reached (launch_all jobs specs readers t)))
          → (attempt : Attempt (Option DirectRequest))
          → Keeps p (
              reached (
                elim attempt as (λ _. Body Pacemaker (Unit {0})) [
                  | fails ↦ launch_all jobs specs readers
                  | succeeds job ↦ register_job jobs specs job >> launch_all jobs specs readers
                  | panics ↦ λ s. exit (panicked s)
                ]
                  q))
      go rest fails = rest q k
      go rest panics = k
      go rest (succeeds job) =
          reached->> (Keeps p) (register_job jobs specs job) (launch_all jobs specs readers) q
            (register_job-Keeps job q k) rest

  launch_job_listeners-Keeps :
      (config : JobSourceConfig) → Keeps p (reached (launch_job_listeners jobs specs config p))
  unfolding launch_job_listeners
  launch_job_listeners-Keeps config =
      elim (Option-cases (read_jobs_from_dir specs config.dir_path)) [
        | inl unread ↦ ground arith
        | inr (readers, found) ↦ ground (arith, launch_all-Keeps readers p (refl, refl, refl))
      ]

  pub start_listening-Keeps :
      (config : JobSourceConfig) (polls : List (List QueueItem))
      → Keeps p (reached (start_listening jobs specs config polls p))
  unfolding start_listening send_new_epoch_msg
  start_listening-Keeps config polls =
      reached->> {A = Unit {0}} (Keeps p) (launch_job_listeners jobs specs config) _ p
        (launch_job_listeners-Keeps config) (λ t h. ground (arith, h))

-- An engine of the first round, or of none yet.
abbrev pub IsNew : ℕ → Engine → Type 0
IsNew epoch re = (r : ℕ) × (r ≤ 1) × IsStuck epoch r re

module _ (epoch : ℕ) (re : Engine) (new : IsNew epoch re) where
  init_reporter-IsNew :
      (is_leader : Bool) (leader id : String) (globals : PacemakerGlobals) (signer : PrivateKey)
      (service : String → Bool)
      → IsNew epoch (state_of (init_reporter is_leader epoch leader id globals signer service re))
  unfolding init_reporter
  init_reporter-IsNew is_leader leader id globals signer service = elim (Bool-cases re.locked) [
    | inl held ↦ (new.0, new.1, ground (arith, new.2))
    | inr free ↦ (1, omega arith, ground (arith, new.2))
  ]

  start_engine-IsNew :
      (queue : List QueueItem) (registry : GoMap String DirectRequest)
      → IsNew epoch (state_of (start_engine queue registry re))
  unfolding start_engine start_leading make_ready signal_phase
  start_engine-IsNew queue registry = (
    new.0,
    new.1,
    ground (arith, new.2, signal-All re.signals phase_observe (λ e. cc) new.2.no_signal),
  )

-- A call of the engine changes the engine only.
pub on_reporter-reached :
    (call : Engine → Exit Engine) (p : Pacemaker)
    → reached (on_reporter call p) ≡ record p { reporter = state_of (call p.reporter) }
unfolding on_reporter
on_reporter-reached call p = ground arith

module _ (jobs : JobLibrary) (specs : SpecLibrary) (lib : HashLibrary) (secret_key : Bytes)
    (rounds : List (List ProtcolPeer)) (config : JobSourceConfig) (polls : List (List QueueItem))
    (signer : PrivateKey) (service : String → Bool) (p : Pacemaker)
    (new : IsNew p.stats.e p.reporter) where
  abbrev IsKept : Pacemaker → Type 0
  IsKept q = (q.stats ≡ p.stats) × (q.timers ≡ p.timers) × IsNew p.stats.e q.reporter

  listening-IsKept :
      (is_leader : Bool)
      → IsKept
          (reached ((if is_leader then start_listening jobs specs config polls else pure tt) p))
  listening-IsKept true =
      let (same, counters, timers) = start_listening-Keeps jobs specs p config polls in
      (counters, timers, subst (IsNew p.stats.e) (sym same) new)
  listening-IsKept false = (refl, refl, new)

  on_reporter-IsKept :
      (call : Engine → Exit Engine) (q : Pacemaker)
      → IsKept q
      → IsNew p.stats.e (state_of (call q.reporter))
      → IsKept (reached (on_reporter call q))
  on_reporter-IsKept call q kept h =
      subst IsKept (sym (on_reporter-reached call q)) (kept.0, kept.1, h)

  -- What `Start` does once it has found the leader.
  elected-IsKept :
      (is_leader : Bool) (leader : String)
      → IsKept (
          reached (
            ((if is_leader then start_listening jobs specs config polls else pure tt)
                >> (on_reporter (
                      init_reporter is_leader p.stats.e leader p.ocr_id
                        (record { n = p.stats.n; f = p.stats.f })
                        signer
                        service)
                    >> (gets (λ q. q) >>= λ q.
                        on_reporter (start_engine q.rec_events q.job_registry))))
              p))
  elected-IsKept is_leader leader =
      let init =
        init_reporter is_leader p.stats.e leader p.ocr_id (record { n = p.stats.n; f = p.stats.f })
          signer service in
      reached->> {A = Unit {0}} {B = Unit {0}} IsKept
        (if is_leader then start_listening jobs specs config polls else pure tt)
        (on_reporter init >> started) p (listening-IsKept is_leader)
        (λ t h.
          reached->> {A = Unit {0}} {B = Unit {0}} IsKept (on_reporter init) started t
            (on_reporter-IsKept init t h (
              init_reporter-IsNew p.stats.e t.reporter h.2 is_leader leader p.ocr_id
                (record { n = p.stats.n; f = p.stats.f }) signer service))
            started-IsKept)
    where
      started : Body Pacemaker (Unit {0})
      started = gets (λ q. q) >>= λ q. on_reporter (start_engine q.rec_events q.job_registry)

      started-IsKept : (u : Pacemaker) → IsKept u → IsKept (reached (started u))
      started-IsKept u k =
          on_reporter-IsKept (start_engine u.rec_events u.job_registry) u k
            (start_engine-IsNew p.stats.e u.reporter k.2 u.rec_events u.job_registry)

  -- The counters stay, and the engine is one of the first round or of none yet.
  pub start_pacemaker-IsNew :
      let q =
        reached (start_pacemaker jobs specs lib secret_key rounds config polls signer service p) in
      (q.stats ≡ p.stats) × (q.timers ≡ p.timers) × IsNew p.stats.e q.reporter
  unfolding start_pacemaker
  start_pacemaker-IsNew =
      elim (Option-cases (
        exponential_backoff lib p.stats.e secret_key max_backoff init_ticker_time p.ocr_id
          rounds)) [
            | inl none_found ↦ ground (arith, new)
            | inr (found, e) ↦
                rw (e) (elected-IsKept (found.0.server_id == p.ocr_id) found.0.server_id)
          ]
