-- ===== src/Reporter/Transmission.antt =====
-- The transmitters: ocr/transmitter.go, and the loop of `handleTransmit` of ocr/leader.go that runs them.
-- The channel of statuses has room for one status of each job. What `Transmit` writes is only a log line.
use eavesdrop.Prelude.{
  ℕ, ◌+◌, ◌≡◌, String, Bool, true, List, [], ◌∷◌, ◌++◌, length, length-append, arith,
}
use eavesdrop.GoMap.{GoMap, fetch}
use eavesdrop.Jobs.{Value, nil_value}
use eavesdrop.Jobs.DirectRequest.{DirectRequest}
use eavesdrop.Prelude.{string_eq}
use eavesdrop.Reporter.{Engine}

-- `Transmitter`
pub record Transmitter : Type 0 where
  pub epoch : ℕ
  pub round : ℕ
  pub leader : String
  pub job : DirectRequest

-- `NewTransmitter`
unfoldable pub new_transmitter : ℕ → ℕ → String → DirectRequest → Transmitter
new_transmitter e r l j = record { epoch = e; round = r; leader = l; job = j }

-- `Transmit`, with the statuses that the channel holds.
unfoldable pub transmit : Transmitter → Value → List Bool → List Bool
transmit t report statuses = statuses ++ true ∷ []

-- The second loop of `handleTransmit`, its goroutines one after the other.
unfoldable pub transmit_all :
    Engine → GoMap String Value → List DirectRequest → List Bool → List Bool
unfolding new_transmitter transmit
transmit_all re report [] statuses = statuses
transmit_all re report (job ∷ jobs) statuses = transmit_all re report jobs (
    transmit (new_transmitter re.epoch re.cur_round re.leader job)
      (fetch nil_value job.job_id report) statuses)

-- The channel never holds more statuses than there are jobs.
length-transmit_all :
    (re : Engine) (report : GoMap String Value) (jobs : List DirectRequest) (statuses : List Bool)
    → length (transmit_all re report jobs statuses) ≡ length statuses + length jobs
unfolding transmit_all transmit
length-transmit_all re report [] statuses = omega arith
length-transmit_all re report (job ∷ jobs) statuses = omega (
  arith,
  length-transmit_all re report jobs (statuses ++ true ∷ []),
  length-append statuses (true ∷ []),
)
