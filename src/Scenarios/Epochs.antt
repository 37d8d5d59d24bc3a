-- ===== src/Scenarios/Epochs.antt =====
-- A pacemaker in epoch 3 that hears of higher epochs.
use eavesdrop.Prelude.{true, some, ℕ, String, List, [], ◌∷◌, ◌≡◌, refl, arith}
use eavesdrop.Go.{next, nil_channel}
use eavesdrop.Rpc.{NewEpochMesage}
use eavesdrop.Pacemaker.{zero_timers, Pacemaker, switch_to_new_epoch}
use eavesdrop.Pacemaker.Epochs.{
  process_all, Stays, EndsIn, process_all_keeps_epoch, switch_never_returns,
}
use eavesdrop.Scenarios.Leaders.{plain_hmac, peers_of_b}
use eavesdrop.Scenarios.Engines.{engine_at}
use eavesdrop.Scenarios.Messages.{known, codec_of}

abbrev pub pacemaker_of : String → Pacemaker
pacemaker_of id = record {
  stats = record { f = 1; n = 4; ne = 0; e = 3; n_e0 = 0; new_e = 0 };
  ocr_id = id;
  reporter = record (engine_at true) { quit_ch = nil_channel };
  rec_events = [];
  job_registry = [];
  msg_service = some (codec_of known);
  announced = [];
  timers = zero_timers;
}

abbrev epoch : ℕ → NewEpochMesage
epoch e = record { epoch_id = e }

-- Enough messages for an announcement, and more than 2f + 1 of them.
abbrev heard : List NewEpochMesage
heard = epoch 5 ∷ epoch 3 ∷ epoch 4 ∷ epoch 6 ∷ epoch 7 ∷ []

process_all_keeps_epoch_example :
    (p' : Pacemaker) × EndsIn plain_hmac []
      (peers_of_b ∷ [])
      (pacemaker_of "b")
      (process_all plain_hmac [] (peers_of_b ∷ []) heard (pacemaker_of "b"))
      p'
    × Stays plain_hmac [] (peers_of_b ∷ []) (pacemaker_of "b") p'
process_all_keeps_epoch_example =
    process_all_keeps_epoch plain_hmac [] (peers_of_b ∷ []) heard (pacemaker_of "b") (omega arith)

switch_never_returns_example : ¬ (
    (s : Pacemaker) × (switch_to_new_epoch plain_hmac [] (peers_of_b ∷ []) (pacemaker_of "b")
      ≡ next tt s))
switch_never_returns_example =
    switch_never_returns plain_hmac [] (peers_of_b ∷ []) (pacemaker_of "b") refl
