-- ===== src/Reporter.antt =====
-- The reporting engine: its state and its environment. ocr/reporter.go, `LeaderState` of ocr/leader.go,
-- and ocr/observation_map.go, whose sync.Map is a map ranged over in any order. What the engine hands to
-- the network is kept in `outbox`, what it sends on its phase channel in `signals`, and how many
-- goroutines it has started for `progressToNextRound` in `progressing`.
pub mod Steps
pub mod Sending
pub mod Follower
pub mod Finals
pub mod Leader
pub mod Process
pub mod Phases
pub mod Transmission
pub mod Rounds
pub mod AnyOrder
pub mod Orchestra
pub mod Standstill
pub mod Gate
pub mod Attestation
pub mod Validators
pub mod Lifecycle
pub mod Reports
pub mod Events
pub mod Observations
pub mod Exchange
pub mod Settling
pub mod Untouched
pub mod Attested
pub mod Authentic
pub mod Registry
use eavesdrop.Prelude.{ℕ, String, Bool, Option, List, Bytes}
use eavesdrop.GoMap.{GoMap, MapOrder}
use eavesdrop.Crypto.{CryptoLibrary, PrivateKey}
use eavesdrop.Jobs.{JobObservationResponse}
use eavesdrop.Jobs.DirectRequest.{DirectRequest, JobLibrary, Context}
use eavesdrop.Rpc.{JobReports, FinalReport}
use eavesdrop.Rpc.Codec.{Codec}
use eavesdrop.Consensus.{Report, Hashing}
use eavesdrop.Go.{Channel}
use eavesdrop.Timer.{Timer}

pub data LeaderPhase : Type 0 where
  phase_nil phase_observe phase_grace phase_report phase_final phase_transmit : LeaderPhase

-- What one peer observed: job ID to responses.
abbrev pub PeerObservations : Type 0
PeerObservations = GoMap String (List JobObservationResponse)

-- `ObservationSafeMap`: peer ID to its observations.
abbrev pub ObservationMap : Type 0
ObservationMap = GoMap String PeerObservations

-- `LeaderState`; a timer is none where the pointer is nil.
pub record LeaderState : Type 0 where
  pub observations : ObservationMap
  pub final_report : Option FinalReport
  pub reports : List Report
  pub final_report_attestation : ℕ
  pub timer_round_timeout : Option Timer
  pub timer_grace : Option Timer
  pub phase : LeaderPhase
  pub phase_ch : Channel

-- `CacheLayer`
pub record CacheLayer : Type 0 where
  pub observe_n : ℕ
  pub report_n : ℕ
  pub jobs : List DirectRequest
  pub job_reports : JobReports
  pub follower_observations : ObservationMap
  pub c_final_report : FinalReport

-- `PacemakerGlobals`
pub record PacemakerGlobals : Type 0 where
  pub n : ℕ
  pub f : ℕ

-- A message handed to the messaging layer.
pub data Sent : Type 0 where
  broadcast : Bytes → Sent
  send_to : String → Bytes → Sent

-- `ReportingEngine`. `msg_service` is the messaging layer's `IsPeer`, and none where it is nil;
-- `job_registry` is none where the pointer is nil; `locked` is the mutex.
pub record Engine : Type 0 where
  pub cur_round : ℕ
  pub is_leader : Bool
  pub epoch : ℕ
  pub leader : String
  pub leader_state : LeaderState
  pub msg_service : Option (String → Bool)
  pub server_id : String
  pub quit_ch : Channel
  pub cache : CacheLayer
  pub globals : PacemakerGlobals
  pub signer : PrivateKey
  pub job_registry : Option (GoMap String DirectRequest)
  pub job_schedule : GoMap ℕ (List DirectRequest)
  pub locked : Bool
  pub ready : Bool
  pub outbox : List Sent
  pub signals : List LeaderPhase
  pub progressing : ℕ

abbrev pub max_rounds : ℕ
max_rounds = 10

abbrev pub init_round : ℕ
init_round = 1

-- What the engine calls of other packages, and what Go leaves open.
pub record Env : Type 1 where
  pub crypto : CryptoLibrary
  pub hashing : Hashing
  pub jobs : JobLibrary
  pub codec : Codec
  pub order : MapOrder
  -- encoding/json on the map of maps inside an ObservationSafeMap
  pub marshal_observations : ObservationMap → Option Bytes
  pub unmarshal_observations : Bytes → Option ObservationMap
  -- context.WithTimeout
  pub with_timeout : ℕ → Context
