-- ===== src/Ocr/Lasting.antt =====
-- A node's epoch and round, whatever happens to it.
use eavesdrop.Prelude.{
  ℕ, ◌<◌, ◌≤◌, ◌^◌, ◌≡◌, ◌≢◌, refl, ap, ◌∙◌, subst, sym, List, [], ◌∷◌, nat_eq, arith,
}
use eavesdrop.Go.{nil_channel}
use eavesdrop.Go.States.{reached}
use eavesdrop.Reporter.{phase_transmit}
use eavesdrop.Reporter.Lifecycle.{zero_engine}
use eavesdrop.Reporter.Standstill.{Step-IsStuck}
use eavesdrop.Pacemaker.{Pacemaker, new_pacemaker, set_ocr_context, attach_msg_layer}
use eavesdrop.Pacemaker.Startup.Keeps.{IsNew, start_pacemaker-IsNew}
use eavesdrop.Ocr.{Ocr, faulty_count, new_ocr, count_peers, start, register_handler, set_state}
use eavesdrop.Pacemaker.Loop as Loop
use eavesdrop.Ocr.World.{World, Node, new_node, start_ocr_pacemaker, Step, Reach}
use eavesdrop.Transport.{LibP2pTransport}
use eavesdrop.Ocr.Young.{IsYoung, on_server-pacemaker, stop-pacemaker, receive-IsYoung}

module _ (w : World) where
  start-IsYoung :
      ((n : ℕ) → faulty_count w.float32 n < 2 ^ 63)
      → (counts : List ℕ) (o : Ocr w.st) → o.server.peer_count_chan ≡ counts
      → IsYoung o.pacemaker
      → IsYoung (reached (start w.st w.float32 o)).pacemaker
  unfolding start count_peers register_handler set_ocr_context attach_msg_layer
  start-IsYoung small [] o e young = ground (arith, young)
  start-IsYoung small (n ∷ counts) o e young = ground (arith, young, small n)

  started-IsYoung :
      (p q : Pacemaker)
      → IsYoung p
      → q.stats ≡ p.stats
      → q.timers ≡ p.timers
      → IsNew p.stats.e q.reporter
      → IsYoung q
  started-IsYoung p q young same timers new = (
    rw (same) young.0,
    rw (same) young.1,
    timers ∙ young.2,
    subst (λ e. IsNew e q.reporter) young.0 new,
  )

  -- The timers never tick.
  run_pacemaker-IsYoung : (p q : Pacemaker) → Loop.Step p q → IsYoung p → IsYoung q
  unfolding Loop.add_event
  run_pacemaker-IsYoung p q (Loop.Step.receive_event event) young = young
  run_pacemaker-IsYoung p q (Loop.Step.resend ticks) young =
      absurd (ticks (ap (λ t. t.resend_ch) young.2))
  run_pacemaker-IsYoung p q (Loop.Step.no_progress ticks) young = young

  Step-IsYoung :
      ((n : ℕ) → faulty_count w.float32 n < 2 ^ 63)
      → {n t : Node w} → Step w n t
      → IsYoung n.ocr.pacemaker
      → IsYoung t.ocr.pacemaker
  unfolding start_ocr_pacemaker set_state
  Step-IsYoung small {n} (Step.receive_bytes rounds bytes) young =
      receive-IsYoung w rounds n.ocr young bytes _ refl
  Step-IsYoung small {n} (Step.find_peer peer) young =
      subst IsYoung (sym (on_server-pacemaker w _ n.ocr)) young
  Step-IsYoung small {n} (Step.resume_peer peer e room) young =
      subst IsYoung (sym (on_server-pacemaker w _ n.ocr)) young
  Step-IsYoung small {n} (Step.handle_announcement info later e) young =
      subst IsYoung (sym (on_server-pacemaker w _ _)) young
  Step-IsYoung small {n} Step.start_node young = start-IsYoung small _ n.ocr refl young
  Step-IsYoung small {n} (Step.start_node_pacemaker rounds config polls signer service) young =
      let (same, timers, new) =
        start_pacemaker-IsNew w.jobs w.specs w.lib w.secret_key rounds config polls signer service
          n.ocr.pacemaker (rw (young.0) young.3) in
      started-IsYoung n.ocr.pacemaker
        (start_ocr_pacemaker w rounds config polls signer service n.ocr).pacemaker young same timers
        new
  Step-IsYoung small {n} (Step.run_pacemaker p step) young =
      run_pacemaker-IsYoung n.ocr.pacemaker p step young
  Step-IsYoung small {n} Step.stop_node young = subst IsYoung (sym (stop-pacemaker w n.ocr)) young
  Step-IsYoung small {n} (Step.read_state state) young = young
  Step-IsYoung small {n} (Step.run_engine u step) young =
      let (e, f, timers, (r, le, stuck)) = young in
      (e, f, timers, (r, le, Step-IsStuck w.env 0 r step stuck))

  Reach-IsYoung :
      ((n : ℕ) → faulty_count w.float32 n < 2 ^ 63)
      → {n t : Node w} → Reach w n t
      → IsYoung n.ocr.pacemaker
      → IsYoung t.ocr.pacemaker
  Reach-IsYoung small Reach.here young = young
  Reach-IsYoung small (Reach.then steps step) young =
      Step-IsYoung small step (Reach-IsYoung small steps young)

  new_node-IsYoung :
      (transporter : LibP2pTransport w.st.Host) → IsYoung (new_node w transporter).ocr.pacemaker
  unfolding new_node new_ocr new_pacemaker zero_engine
  new_node-IsYoung transporter = (
    refl,
    omega arith,
    refl,
    (
      0,
      omega arith,
      record {
        in_epoch = refl;
        in_round = refl;
        no_transmit = λ e. cc;
        no_signal = tt;
        no_progress = refl;
      },
    ),
  )

-- If the number of faulty nodes that a node reckons with is below 2 ^ 63 whatever the number of peers,
-- then a new node, after any bytes that arrive, peers it finds, announcements it handles, starts and
-- stops of the node, starts of its pacemaker, states it is set to, and goroutines of its pacemaker and
-- its reporting engine, in any order, has its pacemaker and its engine in epoch 0, its engine in round 0
-- or 1 and not in the transmit phase, no round change under way, and a nil channel in the timer that
-- would send NEW-EPOCH again.
pub node_never_moves_on :
    (w : World) (transporter : LibP2pTransport w.st.Host) (n : Node w)
    → ((k : ℕ) → faulty_count w.float32 k < 2 ^ 63)
    → Reach w (new_node w transporter) n
    → (n.ocr.pacemaker.stats.e ≡ 0)
      × (n.ocr.pacemaker.reporter.epoch ≡ 0)
      × (n.ocr.pacemaker.reporter.cur_round ≤ 1)
      × (n.ocr.pacemaker.reporter.leader_state.phase ≢ phase_transmit)
      × (n.ocr.pacemaker.reporter.progressing ≡ 0)
      × (n.ocr.pacemaker.timers.resend_ch ≡ nil_channel)
node_never_moves_on w transporter n small steps =
    let (e, _, timers, (r, le, h)) = Reach-IsYoung w small steps (new_node-IsYoung w transporter) in
    (e, h.in_epoch, rw (h.in_round) le, h.no_transmit, h.no_progress, ap (λ t. t.resend_ch) timers)
