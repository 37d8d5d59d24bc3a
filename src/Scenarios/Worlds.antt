-- ===== src/Scenarios/Worlds.antt =====
-- A node that finds a peer, starts, and starts its pacemaker.
use eavesdrop.Prelude.{ℕ, ◌%◌, ◌^◌, ◌<◌, ◌≤◌, ◌≡◌, ◌≢◌, string_eq, true, [], ◌∷◌, arith}
use eavesdrop.Go.{nil_channel}
use eavesdrop.Go.States.{reached}
use eavesdrop.Reporter.{phase_transmit}
use eavesdrop.Server.{handle_new_peer}
use eavesdrop.Ocr.{on_server, start, faulty_count}
use eavesdrop.Ocr.World.{World, Node, new_node, start_ocr_pacemaker, Step, Reach}
use eavesdrop.Ocr.Lasting.{node_never_moves_on}
use eavesdrop.Scenarios.Engines.{plain_env}
use eavesdrop.Scenarios.JobRuns.{plain_jobs}
use eavesdrop.Scenarios.Leaders.{plain_hmac}
use eavesdrop.Scenarios.Messages.{known, codec_of}
use eavesdrop.Scenarios.Nodes.{setting_of, node_a}
use eavesdrop.Scenarios.Starts.{plain_specs, from_dir, peers_of_a}
use eavesdrop.Scenarios.Streams.{plain_transport}
use eavesdrop.Scenarios.Engines.{engine_at}

abbrev plain_world : World
plain_world = record {
  st = setting_of (codec_of known);
  env = plain_env;
  lib = plain_hmac;
  secret_key = [];
  specs = plain_specs;
  jobs = plain_jobs;
  float32 = λ n. n % 2 ^ 63;
}

abbrev fresh : Node plain_world
fresh = new_node plain_world plain_transport

-- With its peer, as it starts, and once the pacemaker has started.
abbrev found : Node plain_world
found = record fresh {
  ocr = reached (on_server plain_world.st (handle_new_peer plain_world.st node_a) fresh.ocr);
}

abbrev begun : Node plain_world
begun = record found { ocr = reached (start plain_world.st plain_world.float32 found.ocr) }

abbrev running : Node plain_world
running = record begun {
  ocr =
      start_ocr_pacemaker plain_world (peers_of_a ∷ []) from_dir [] (engine_at true).signer
        (λ id. true) begun.ocr;
}

small_count : (k : ℕ) → faulty_count (λ n. n % 2 ^ 63) k < 2 ^ 63
unfolding faulty_count
small_count k = omega arith

node_never_moves_on_example :
    (running.ocr.pacemaker.stats.e ≡ 0)
    × (running.ocr.pacemaker.reporter.epoch ≡ 0)
    × (running.ocr.pacemaker.reporter.cur_round ≤ 1)
    × (running.ocr.pacemaker.reporter.leader_state.phase ≢ phase_transmit)
    × (running.ocr.pacemaker.reporter.progressing ≡ 0)
    × (running.ocr.pacemaker.timers.resend_ch ≡ nil_channel)
node_never_moves_on_example = node_never_moves_on plain_world plain_transport running small_count (
    Reach.then (Reach.then (Reach.then Reach.here (Step.find_peer node_a)) Step.start_node) (
      Step.start_node_pacemaker (peers_of_a ∷ []) from_dir [] (engine_at true).signer (λ id. true)))
