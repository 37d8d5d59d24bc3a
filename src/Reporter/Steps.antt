-- ===== src/Reporter/Steps.antt =====
-- The steps that the message handlers share: sending, signing, signalling a phase, stopping.
-- ocr/reporter.go.
use eavesdrop.Prelude.{
  ◌+◌, String, Bool, false, ◌&&◌, Option, none, some, [], ◌∷◌, ◌++◌, Bytes, ◌==◌, string_eq,
  if◌then◌else◌,
}
use eavesdrop.Crypto.{Signature, string_to_public_key, sign, verify}
use eavesdrop.Go.{
  GoError, panicked, blocked, next, exit, Body, ◌>>=◌, ◌>>◌, pure, panic, gets, modify, or_else,
  Channel, nil_channel, idle, listened, closed, close_channel,
}
use eavesdrop.Rpc.{final_echo}
use eavesdrop.Rpc.Codec.{
  RpcMessageBuilder, rpc_bytes, unsigned, set_signature, topic_reporter, message_final_echo,
}
use eavesdrop.Timer.{Timer, stop}
use eavesdrop.Reporter.{Engine, Env, broadcast, send_to, LeaderPhase, phase_observe}

-- `re.msgService.BroadcastMsg`; a nil service panics.
unfoldable pub broadcast_msg : Bytes → Body Engine (Unit {0})
broadcast_msg msg re = elim re.msg_service [
  | none ↦ exit (panicked re)
  | some _ ↦ next tt (record re { outbox = re.outbox ++ broadcast msg ∷ [] })
]

-- `re.msgService.SendMsg`, whose error the engine drops.
unfoldable pub send_msg : String → Bytes → Body Engine (Unit {0})
send_msg id msg re = elim re.msg_service [
  | none ↦ exit (panicked re)
  | some _ ↦ next tt (record re { outbox = re.outbox ++ send_to id msg ∷ [] })
]

-- `re.msgService.IsPeer`
unfoldable pub is_peer : String → Body Engine Bool
is_peer id re = elim re.msg_service [ none ↦ exit (panicked re) | some known ↦ next (known id) re ]

-- `re.LeaderState.phaseCh <- phase`: the channel is unbuffered, so without a receiver it waits.
unfoldable pub signal_phase : LeaderPhase → Body Engine (Unit {0})
signal_phase phase re = elim re.leader_state.phase_ch [
  | nil_channel ↦ exit (blocked re)
  | idle ↦ exit (blocked re)
  | listened ↦ next tt (record re { signals = re.signals ++ phase ∷ [] })
  | closed ↦ exit (panicked re)
]

unfoldable pub set_phase : LeaderPhase → Engine → Engine
set_phase phase re = record re { leader_state = record (re.leader_state) { phase = phase } }

-- `if timer != nil { timer.Stop() }`
stop_timer : Option Timer → Option (Option Timer)
stop_timer none = some none
stop_timer (some t) = elim (stop t) [ none ↦ none | some t' ↦ some (some t') ]

-- `close` in a function body.
close_in : (Engine → Channel) → (Channel → Engine → Engine) → Body Engine (Unit {0})
close_in get put re = elim (close_channel (get re)) [
  | none ↦ exit (panicked re)
  | some ch ↦ next tt (put ch re)
]

put_quit : Channel → Engine → Engine
put_quit ch re = record re { quit_ch = ch }

put_phase : Channel → Engine → Engine
put_phase ch re = record re { leader_state = record (re.leader_state) { phase_ch = ch } }

stop_timers : Body Engine (Unit {0})
unfolding stop_timer
stop_timers re = elim (stop_timer re.leader_state.timer_round_timeout) [
  | none ↦ exit (panicked re)
  | some round ↦ elim (stop_timer re.leader_state.timer_grace) [
    | none ↦ exit (panicked re)
    | some grace ↦ next tt (record re {
      leader_state = record (re.leader_state) { timer_round_timeout = round; timer_grace = grace };
    })
  ]
]

-- `cleanupFunc`; where the quit channel is closed already it is left alone.
unfoldable pub cleanup_func : Body Engine (Unit {0})
unfolding close_in put_quit put_phase stop_timers
cleanup_func = do
  ch ← gets (λ re. re.quit_ch)
  elim ch [ closed ↦ pure tt | _ ↦ close_in (λ re. re.quit_ch) put_quit ]
  leading ← gets (λ re. re.is_leader)
  if leading then close_in (λ re. re.leader_state.phase_ch) put_phase else pure tt
  stop_timers
  modify λ re. record re {
    job_schedule = [];
    job_registry = none;
    cache = record (re.cache) { observe_n = 0; report_n = 0 };
    msg_service = none;
  }

-- `Stop`
unfoldable pub stop_engine : Body Engine (Unit {0})
unfolding cleanup_func
stop_engine = do close_in (λ re. re.quit_ch) put_quit; cleanup_func

module _ (env : Env) where
  -- `SignMessage`: on an error it dereferences a nil signature.
  unfoldable pub sign_message : Bytes → Body Engine Signature
  sign_message msg re = elim (sign env.crypto re.signer msg) [
    | none ↦ exit (panicked re)
    | some sig ↦ next sig re
  ]

  -- `VerifySignature`: `some true` or an error; none is a panic inside Verify.
  unfoldable pub verify_signature : Bytes → String → Signature → Option Bool
  verify_signature msg from_id sig = elim (string_to_public_key env.crypto from_id) [
    | none ↦ some false
    | some pk ↦ verify env.crypto sig msg pk
  ]

  -- A panicking verification ends the handler.
  unfoldable pub checked : Option Bool → Body Engine Bool
  checked v = or_else v panic

  -- `VerifySigAndPeer`; `isPeer` is declared and never set to true.
  unfoldable pub verify_sig_and_peer : Bytes → String → Signature → Body Engine Bool
  unfolding is_peer checked
  verify_sig_and_peer msg from_id sig = elim (string_to_public_key env.crypto from_id) [
    | none ↦ pure false
    | some pk ↦ do
      if_signed ← checked (verify env.crypto sig msg pk)
      known ← is_peer from_id
      let is_peer_var = if known then false else false
      pure (if_signed && is_peer_var)
  ]

  -- Build a message for the reporter topic, signed; a codec error panics.
  unfoldable pub built : RpcMessageBuilder → Body Engine Bytes
  built b = or_else (rpc_bytes env.codec b) panic

  -- `sendFinalReportEcho`; the error is handed back as a value.
  unfoldable pub send_final_report_echo : Body Engine (Option GoError)
  unfolding sign_message send_msg
  send_final_report_echo = do
    re ← gets (λ re. re)
    let echo = final_echo (record { epoch = re.epoch; round = re.cur_round; leader = re.leader })
    elim (env.codec.encode echo) [
      | none ↦ pure (some GoError.encode_failed)
      | some msg_bytes ↦ do
        sig ← sign_message msg_bytes
        elim (rpc_bytes env.codec
            (set_signature sig (unsigned re.server_id message_final_echo topic_reporter echo))) [
              | none ↦ pure (some GoError.encode_failed)
              | some rpc_msg ↦ do send_msg re.leader rpc_msg; pure none
            ]
    ]

-- `progressToNextRound`, the body of the goroutine.
unfoldable pub progress_to_next_round : Engine → Engine
progress_to_next_round re =
    let reset =
      if re.server_id == re.leader
      then record re {
        leader_state = record {
          observations = [];
          final_report = some (record { report = []; signatories = [] });
          reports = record { from = ""; reports = []; sig = record { r = none; s = none } } ∷ [];
          final_report_attestation = 0;
          timer_round_timeout = none;
          timer_grace = none;
          phase = phase_observe;
          phase_ch = idle;
        };
      }
      else record re {
        cache = record {
          observe_n = 0;
          report_n = 0;
          jobs = [];
          job_reports = [];
          follower_observations = [];
          c_final_report = record { report = []; signatories = [] };
        };
      } in
    record reset { cur_round = re.cur_round + 1 }
