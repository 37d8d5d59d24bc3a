-- ===== src/Reporter/Orchestra.antt =====
-- The engine among its goroutines: `orchestrateLeadership` of ocr/reporter.go, which starts a handler
-- for each phase it receives, the callback of `handleGrace`, and the goroutines of
-- `progressToNextRound`. Each of them runs to its end before another one, in any order.
use eavesdrop.Prelude.{ℕ, suc, ◌+◌, ◌≡◌, List, ◌∷◌}
use eavesdrop.Go.{finish}
use eavesdrop.Go.States.{state_of}
use eavesdrop.Rpc.{DecodedMsg}
use eavesdrop.Reporter.{
  Engine, Env, LeaderPhase, phase_nil, phase_observe, phase_grace, phase_report, phase_final,
  phase_transmit,
}
use eavesdrop.Reporter.Steps.{progress_to_next_round}
use eavesdrop.Reporter.Process.{process_message}
use eavesdrop.Reporter.Phases.{
  handle_observe, handle_report, handle_final, handle_transmit, end_grace,
}

-- The engine, and how many callbacks of `handleGrace` are still to come.
pub record Orchestra : Type 0 where
  pub engine : Engine
  pub graces : ℕ

-- The goroutine that `orchestrateLeadership` starts for a phase; `handleGrace` only sets its timer.
unfoldable pub handle_phase : Env → LeaderPhase → Orchestra → Orchestra
handle_phase env phase_observe o = record o {
  engine = state_of (finish (handle_observe env o.engine));
}
handle_phase env phase_grace o = record o { graces = o.graces + 1 }
handle_phase env phase_report o = record o {
  engine = state_of (finish (handle_report env o.engine));
}
handle_phase env phase_final o = record o { engine = state_of (finish (handle_final env o.engine)) }
handle_phase env phase_transmit o = record o {
  engine = state_of (finish (handle_transmit env o.engine));
}
handle_phase env phase_nil o = o

-- What may happen next: a message arrives, the loop receives a phase, a grace period ends, or a
-- goroutine moves the engine to the next round.
pub data Step (env : Env) (o : Orchestra) : Orchestra → Type 0 where
  receive :
      (msg : DecodedMsg)
      → Step env o (record o { engine = state_of (process_message env msg o.engine) })
  start_phase :
      (phase : LeaderPhase) (later : List LeaderPhase)
      → o.engine.signals ≡ phase ∷ later
      → Step env o
          (handle_phase env phase (record o { engine = record (o.engine) { signals = later } }))
  grace_over :
      (left : ℕ)
      → o.graces ≡ suc left
      → Step env o (record { engine = state_of (finish (end_grace o.engine)); graces = left })
  progress :
      (left : ℕ)
      → o.engine.progressing ≡ suc left
      → Step env o
          (record o { engine = progress_to_next_round (record (o.engine) { progressing = left }) })

pub data Reach (env : Env) (o : Orchestra) : Orchestra → Type 0 where
  here : Reach env o o
  then : {t u : Orchestra} → Reach env o t → Step env t u → Reach env o u
