-- ===== src/Reporter/Standstill.antt =====
-- An engine never leaves its round.
use eavesdrop.Prelude.{ℕ, ◌≡◌, ◌≢◌, refl, sym, subst, ◌∷◌, arith, All}
use eavesdrop.Go.{Flow, finish}
use eavesdrop.Go.States.{state_of, reached, state_of-finish}
use eavesdrop.Reporter.{
  Engine, Env, LeaderPhase, phase_nil, phase_observe, phase_grace, phase_report, phase_final,
  phase_transmit,
}
use eavesdrop.Reporter.Phases.{handle_observe, handle_report, handle_final, end_grace}
use eavesdrop.Reporter.Orchestra.{Orchestra, handle_phase, Step, Reach}
use eavesdrop.Reporter.Rounds.{
  IsStuck, process_message-IsStuck, handle_observe-IsStuck, handle_report-IsStuck,
  handle_final-IsStuck, end_grace-IsStuck,
}

module _ (env : Env) (epoch r : ℕ) where
  ended :
      (flow : Flow Engine (Unit {0}))
      → IsStuck epoch r (reached flow)
      → IsStuck epoch r (state_of (finish flow))
  ended flow h = subst (IsStuck epoch r) (sym (state_of-finish flow)) h

  handle_phase-IsStuck :
      (p : LeaderPhase) (o : Orchestra)
      → p ≢ phase_transmit
      → IsStuck epoch r o.engine
      → IsStuck epoch r (handle_phase env p o).engine
  unfolding handle_phase
  handle_phase-IsStuck phase_nil o ne h = h
  handle_phase-IsStuck phase_observe o ne h =
      ended (handle_observe env o.engine) (handle_observe-IsStuck env epoch r o.engine h)
  handle_phase-IsStuck phase_grace o ne h = h
  handle_phase-IsStuck phase_report o ne h =
      ended (handle_report env o.engine) (handle_report-IsStuck env epoch r o.engine h)
  handle_phase-IsStuck phase_final o ne h =
      ended (handle_final env o.engine) (handle_final-IsStuck env epoch r o.engine h)
  handle_phase-IsStuck phase_transmit o ne h = absurd (ne refl)

  pub Step-IsStuck :
      {o u : Orchestra} → Step env o u → IsStuck epoch r o.engine → IsStuck epoch r u.engine
  Step-IsStuck {o} (Step.receive msg) h = process_message-IsStuck env epoch r o.engine h msg
  Step-IsStuck {o} (Step.start_phase phase later e) h =
      let signalled : All (λ p. p ≢ phase_transmit) (phase ∷ later) =
        subst (All (λ p. p ≢ phase_transmit)) e h.no_signal in
      handle_phase-IsStuck phase (record o { engine = record (o.engine) { signals = later } })
        signalled.0
        (record {
          in_epoch = h.in_epoch;
          in_round = h.in_round;
          no_transmit = h.no_transmit;
          no_signal = signalled.1;
          no_progress = h.no_progress;
        })
  Step-IsStuck {o} (Step.grace_over left e) h =
      ended (end_grace o.engine) (end_grace-IsStuck env epoch r o.engine h)
  Step-IsStuck {o} (Step.progress left e) h = absurd (omega (arith, h.no_progress))

  Reach-IsStuck :
      {o u : Orchestra} → Reach env o u → IsStuck epoch r o.engine → IsStuck epoch r u.engine
  Reach-IsStuck Reach.here h = h
  Reach-IsStuck (Reach.then steps step) h = Step-IsStuck step (Reach-IsStuck steps h)

-- An engine that has no round change under way, and neither is in the transmit phase nor has signalled
-- it, stays in its round for ever: whatever messages arrive, whatever goroutines of the leader run and
-- whatever grace periods end, in any order, the epoch and the round are the same, the phase is never
-- transmit, and no round change starts.
pub round_never_changes :
    (env : Env) (o u : Orchestra)
    → o.engine.progressing ≡ 0
    → o.engine.leader_state.phase ≢ phase_transmit
    → All (λ p. p ≢ phase_transmit) o.engine.signals
    → Reach env o u
    → (u.engine.epoch ≡ o.engine.epoch)
      × (u.engine.cur_round ≡ o.engine.cur_round)
      × (u.engine.leader_state.phase ≢ phase_transmit)
      × (u.engine.progressing ≡ 0)
round_never_changes env o u idle not_yet unsignalled steps =
    let h = Reach-IsStuck env o.engine.epoch o.engine.cur_round steps (record {
      in_epoch = refl;
      in_round = refl;
      no_transmit = not_yet;
      no_signal = unsignalled;
      no_progress = idle;
    }) in
    (h.in_epoch, h.in_round, h.no_transmit, h.no_progress)
