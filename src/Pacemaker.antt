-- ===== src/Pacemaker.antt =====
-- The pacemaker's epochs: ocr/pacemaker.go. uint64 arithmetic wraps, and is written out. What
-- `SendNewEpochMsg` broadcasts is kept in `announced`; its goroutine is run where it is started, and its
-- panic ends that step. The messages that `upateOCRState` sends on the OCR channel are left out.
-- The conversion of an epoch from uint64 to int is part of the parameter `format_int`.
pub mod Epochs
pub mod Startup
pub mod Loop
use eavesdrop.Prelude.{
  ℕ, ◌+◌, ◌-◌, ◌*◌, ◌%◌, ◌^◌, String, Bool, ◌==◌, string_eq, Option, none, some, List, [], ◌∷◌,
  ◌++◌, Bytes, ltb, if◌then◌else◌,
}
use eavesdrop.GoMap.{GoMap}
use eavesdrop.Jobs.DirectRequest.{DirectRequest}
use eavesdrop.Go.{
  Channel, nil_channel, Exit, returned, panicked, blocked, Flow, next, exit, Body, ◌>>=◌, ◌>>◌,
  pure, gets, modify, or_else, panic, block, finish,
}
use eavesdrop.Rpc.{Payload, new_epoch, NewEpochMesage}
use eavesdrop.Rpc.Codec.{Codec}
use eavesdrop.Rpc.Builder.{new_epoch_bytes}
use eavesdrop.LeaderSelection.{HashLibrary, ProtcolPeer, Peer, exponential_backoff}
use eavesdrop.Reporter.{Engine}
use eavesdrop.Reporter.Steps.{stop_engine}
use eavesdrop.Reporter.Lifecycle.{QueueItem, start_engine, zero_engine}

-- `EpochStats`
pub record EpochStats : Type 0 where
  pub f : ℕ
  pub n : ℕ
  pub ne : ℕ
  pub e : ℕ
  pub n_e0 : ℕ
  pub new_e : ℕ

-- `TimerResend` and `TimerProgress`: the channels that their `Subscribe` gives.
pub record PacemakerTimers : Type 0 where
  pub resend_ch : Channel
  pub progress_ch : Channel

-- Those of `&Timer{}`
abbrev pub zero_timers : PacemakerTimers
zero_timers = record { resend_ch = nil_channel; progress_ch = nil_channel }

-- `Pacemaker`: what the handling of epochs reads and writes. `ocr_id` is the ID of the OCR context;
-- `msg_service` is the codec of the messaging layer, none where that is nil.
pub record Pacemaker : Type 0 where
  pub stats : EpochStats
  pub ocr_id : String
  pub reporter : Engine
  pub rec_events : List QueueItem
  pub job_registry : GoMap String DirectRequest
  pub msg_service : Option Codec
  pub announced : List Bytes
  pub timers : PacemakerTimers

abbrev pub word : ℕ
word = 2 ^ 64

-- `a - b` on uint64.
abbrev pub sub_word : ℕ → ℕ → ℕ
sub_word a b = (a + (word - b % word)) % word

-- 500ms and 10s, in nanoseconds.
abbrev pub init_ticker_time : ℕ
init_ticker_time = 500000000

abbrev pub max_backoff : ℕ
max_backoff = 10000000000

-- `NewPaceMaker`
unfoldable pub new_pacemaker : Pacemaker
unfolding zero_engine
new_pacemaker = record {
  stats = record { f = 0; n = 0; ne = 0; e = 0; n_e0 = 0; new_e = 0 };
  ocr_id = "";
  reporter = zero_engine;
  rec_events = [];
  job_registry = [];
  msg_service = none;
  announced = [];
  timers = zero_timers;
}

-- `SetOCRContext`, with the counts and the ID of the context.
unfoldable pub set_ocr_context : ℕ → ℕ → String → Pacemaker → Pacemaker
set_ocr_context faulty_count peer_count id p = record p {
  ocr_id = id;
  stats = record (p.stats) { f = faulty_count; n = peer_count };
}

-- `AttachMsgLayer`, with the codec of the layer.
unfoldable pub attach_msg_layer : Codec → Pacemaker → Pacemaker
attach_msg_layer codec p = record p { msg_service = some codec }

-- The bytes that `SendNewEpochMsg` makes; none is a panic, on a nil messaging layer or where the message
-- cannot be encoded.
unfoldable pub epoch_message : Pacemaker → Option Bytes
epoch_message p = elim p.msg_service [ none ↦ none | some codec ↦ new_epoch_bytes codec p.stats.e ]

-- `SendNewEpochMsg`
unfoldable pub send_new_epoch_msg : Body Pacemaker (Unit {0})
unfolding epoch_message
send_new_epoch_msg = do
  p ← gets (λ p. p)
  msg ← or_else (epoch_message p) panic
  modify (λ p. record p { announced = p.announced ++ msg ∷ [] })

-- A call of the reporting engine.
unfoldable pub on_reporter : (Engine → Exit Engine) → Body Pacemaker (Unit {0})
on_reporter call p = elim (call p.reporter) [
  | returned _ re ↦ next tt (record p { reporter = re })
  | panicked re ↦ exit (panicked (record p { reporter = re }))
  | blocked re ↦ exit (blocked (record p { reporter = re }))
]

-- The first two assignments of `processNewEpochMsg`.
unfoldable pub record_epoch : ℕ → Pacemaker → Pacemaker
record_epoch e0 p = record p {
  stats = record (p.stats) { ne = e0; n_e0 = (p.stats.n_e0 + 1) % word };
}

-- `newEpoch := uint64(f + 1 - ne)`
unfoldable pub aim_epoch : Pacemaker → Pacemaker
aim_epoch p = record p {
  stats = record (p.stats) { new_e = sub_word ((p.stats.f + 1) % word) p.stats.ne };
}

-- The new epoch of `switchToNewEpoch`.
unfoldable pub next_epoch : Pacemaker → Pacemaker
next_epoch p = record p {
  stats = record (p.stats) {
    e = sub_word ((2 * p.stats.f + 1) % word) p.stats.ne;
    n_e0 = 0;
    new_e = 0;
  };
}

module _ (lib : HashLibrary) (secret_key : Bytes) where
  -- `switchToNewEpoch`, with the peers as they are in each round of the backoff. The reporter is never
  -- nil. `leader.ID` is the network ID of the peer that the leader embeds, and panics without one.
  unfoldable pub switch_to_new_epoch : List (List ProtcolPeer) → Body Pacemaker (Unit {0})
  unfolding next_epoch on_reporter
  switch_to_new_epoch rounds = do
    modify next_epoch
    p ← gets (λ p. p)
    found ←
        or_else
          (exponential_backoff lib p.stats.e secret_key max_backoff init_ticker_time p.ocr_id
            rounds)
          block
    peer ← or_else (found.0.peer) panic
    on_reporter (λ re. finish (stop_engine re))
    on_reporter (start_engine (if peer.id == p.ocr_id then p.rec_events else []) p.job_registry)

  -- `processNewEpochMsg`
  unfoldable pub process_new_epoch_msg :
      List (List ProtcolPeer) → NewEpochMesage → Body Pacemaker (Unit {0})
  unfolding record_epoch aim_epoch send_new_epoch_msg switch_to_new_epoch
  process_new_epoch_msg rounds msg = do
    p ← gets (λ p. p)
    let f = p.stats.f
    if ltb p.stats.e msg.epoch_id
        then (do
          modify (record_epoch msg.epoch_id)
          q ← gets (λ p. p)
          if ltb f q.stats.n_e0
              then (do modify aim_epoch; send_new_epoch_msg)
              else if ltb ((2 * f) % word) q.stats.n_e0
              then switch_to_new_epoch rounds
              else pure tt)
        else pure tt

  -- `ProcessMessage`; `false` is its error for a message of another type. A leader change is decoded to a
  -- pointer, which its case does not match.
  unfoldable pub process_pacemaker_message : List (List ProtcolPeer) → Payload → Body Pacemaker Bool
  unfolding process_new_epoch_msg
  process_pacemaker_message rounds (new_epoch msg) = do
    process_new_epoch_msg rounds msg
    pure Bool.true
  process_pacemaker_message rounds _ = pure Bool.false
