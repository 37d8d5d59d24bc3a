-- ===== src/Ocr/World.antt =====
-- A node among its goroutines, from `NewOCR` on: ocr/ocr.go, `Start` of ocr/server.go and of
-- ocr/pacemaker.go, and `orchestrateLeadership` of ocr/reporter.go. Each goroutine runs to its end, or to
-- where it waits for ever, before another one, in any order and any number of times.
use eavesdrop.Prelude.{ℕ, ◌≡◌, ◌<◌, some, length, String, Bool, List, ◌∷◌, Bytes}
use eavesdrop.Go.States.{reached}
use eavesdrop.Crypto.{PrivateKey}
use eavesdrop.Jobs.DirectRequest.{JobLibrary}
use eavesdrop.Jobs.Reader.{SpecLibrary}
use eavesdrop.LeaderSelection.{HashLibrary, Peer, ProtcolPeer}
use eavesdrop.Transport.{LibP2pTransport}
use eavesdrop.Pacemaker.{Pacemaker}
use eavesdrop.Pacemaker.Loop as Loop
use eavesdrop.Pacemaker.Startup.{JobSourceConfig, start_pacemaker}
use eavesdrop.Reporter.{Env}
use eavesdrop.Reporter.Lifecycle.{QueueItem}
use eavesdrop.Reporter.Orchestra.{Orchestra}
use eavesdrop.Reporter.Orchestra as Orchestra
use eavesdrop.Server.{
  Setting, InternalPeerServerInfoMsg, new_server, handle_new_peer, register_info, resume_new_peer,
  channel_size,
}
use eavesdrop.Ocr.{Ocr, OcrState, new_ocr, start, set_state, on_server, receive, stop}

-- What a node runs with: its host and its libraries.
pub record World : Type 1 where
  pub st : Setting
  pub env : Env
  pub lib : HashLibrary
  pub secret_key : Bytes
  pub specs : SpecLibrary
  pub jobs : JobLibrary
  pub float32 : ℕ → ℕ

-- The node, and how many callbacks of `handleGrace` are still to come.
pub record Node (w : World) : Type 0 where
  pub ocr : Ocr w.st
  pub graces : ℕ

-- `NewOCR` over a new server.
unfoldable pub new_node : (w : World) → LibP2pTransport w.st.Host → Node w
new_node w transporter = record { ocr = new_ocr w.st (new_server w.st transporter); graces = 0 }

-- `go o.Pacemaker.Start()`
unfoldable pub start_ocr_pacemaker :
    (w : World)
    → List (List ProtcolPeer)
    → JobSourceConfig
    → List (List QueueItem)
    → PrivateKey
    → (String → Bool)
    → Ocr w.st
    → Ocr w.st
start_ocr_pacemaker w rounds config polls signer service o = record o {
  pacemaker = reached (
      start_pacemaker w.jobs w.specs w.lib w.secret_key rounds config polls signer service
        o.pacemaker);
}

-- The engine of the node among its goroutines.
abbrev pub orchestra : {w : World} → Node w → Orchestra
orchestra n = record { engine = n.ocr.pacemaker.reporter; graces = n.graces }

abbrev pub with_orchestra : {w : World} → Node w → Orchestra → Node w
with_orchestra n u = record {
  ocr = record (n.ocr) { pacemaker = record (n.ocr.pacemaker) { reporter = u.engine } };
  graces = u.graces;
}

-- What may happen next: bytes arrive, a peer is found, its handler goes on
-- where it waited, an announcement is handled, the node starts or stops, its
-- pacemaker starts, the pacemaker's loop or a goroutine of the engine runs, or the node's state is set.
pub data Step (w : World) (n : Node w) : Node w → Type 0 where
  receive_bytes :
      (rounds : List (List ProtcolPeer)) (bytes : Bytes)
      → Step w n
          (record n { ocr = reached (receive w.st w.env w.lib w.secret_key rounds bytes n.ocr) })
  resume_peer :
      (peer : Peer)
      → n.ocr.server.waiting ≡ some peer
      → length n.ocr.server.peer_count_chan < channel_size
      → Step w n (record n { ocr = reached (on_server w.st (resume_new_peer w.st peer) n.ocr) })
  find_peer :
      (peer : Peer)
      → Step w n (record n { ocr = reached (on_server w.st (handle_new_peer w.st peer) n.ocr) })
  handle_announcement :
      (info : InternalPeerServerInfoMsg) (later : List InternalPeerServerInfoMsg)
      → n.ocr.server.comms ≡ info ∷ later
      → Step w n (record n {
        ocr = reached (
            on_server w.st
              (register_info w.st info)
              (record (n.ocr) { server = record (n.ocr.server) { comms = later } }));
      })
  start_node : Step w n (record n { ocr = reached (start w.st w.float32 n.ocr) })
  start_node_pacemaker :
      (rounds : List (List ProtcolPeer)) (config : JobSourceConfig) (polls : List (List QueueItem))
      (signer : PrivateKey) (service : String → Bool)
      → Step w n (record n { ocr = start_ocr_pacemaker w rounds config polls signer service n.ocr })
  run_pacemaker :
      (p : Pacemaker)
      → Loop.Step n.ocr.pacemaker p
      → Step w n (record n { ocr = record (n.ocr) { pacemaker = p } })
  stop_node : Step w n (record n { ocr = reached (stop w.st n.ocr) })
  read_state : (state : OcrState) → Step w n (record n { ocr = set_state w.st state n.ocr })
  run_engine :
      (u : Orchestra) → Orchestra.Step w.env (orchestra n) u → Step w n (with_orchestra n u)

pub data Reach (w : World) (n : Node w) : Node w → Type 0 where
  here : Reach w n n
  then : {t u : Node w} → Reach w n t → Step w t u → Reach w n u
