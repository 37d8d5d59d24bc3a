-- ===== src/Ocr.antt =====
-- A node: ocr/ocr.go, with the routing of `ServerRPCProcessor` of ocr/server_rpc_processor.go and the
-- server's loop over received messages of ocr/server.go. float32 is a parameter. Errors are logged only.
pub mod Faults
pub mod Lost
pub mod Routing
pub mod Early
pub mod World
pub mod Young
pub mod Lasting
pub mod Exchange
use eavesdrop.Prelude.{
  ℕ, ◌+◌, ◌-◌, ◌/◌, String, Bool, Option, none, some, List, [], ◌∷◌, Bytes, ◌==◌, nat_eq,
  if◌then◌else◌,
}
use eavesdrop.GoMap.{GoMap, lookup, assign}
use eavesdrop.Go.{
  Exit, returned, panicked, blocked, Flow, next, exit, Body, ◌>>=◌, ◌>>◌, pure, gets, modify,
}
use eavesdrop.LeaderSelection.{HashLibrary, ProtcolPeer}
use eavesdrop.Rpc.{DecodedMsg}
use eavesdrop.Rpc.Codec.{
  RpcMessage, default_rpc_decoder, topic_server, topic_pacemaker, topic_reporter,
}
use eavesdrop.Server.{Setting, Server, process_server_message, stop as stop_server}
use eavesdrop.Reporter.{Engine, Env}
use eavesdrop.Reporter.Process.{process_message}
use eavesdrop.Pacemaker.{
  Pacemaker, process_pacemaker_message, new_pacemaker, set_ocr_context, attach_msg_layer,
}

-- `OCRCtx`
pub record OcrCtx : Type 0 where
  pub peer_count : ℕ
  pub faulty_count : ℕ
  pub id : String

-- `OCRState`
pub data OcrState : Type 0 where
  prepare following leading report_gen transmit : OcrState

-- The processors that are registered with the server.
pub data Handler : Type 0 where
  pacemaker_handler reporter_handler : Handler

-- `OCR`. `ready` says that `peerCountInit` is closed.
pub record Ocr (st : Setting) : Type 0 where
  pub ctx : OcrCtx
  pub server : Server st
  pub pacemaker : Pacemaker
  pub state : OcrState
  pub handlers : GoMap ℕ Handler

-- The number of faulty nodes that `Start` computes. `float32` is the conversion, as a whole number:
-- the division before it is one of ints, and the result of math.Ceil is the number itself.
unfoldable pub faulty_count : (ℕ → ℕ) → ℕ → ℕ
faulty_count float32 peer_count = float32 ((peer_count - 1) / 3)

module _ (st : Setting) where
  -- `NewOCR`
  unfoldable pub new_ocr : Server st → Ocr st
  unfolding new_pacemaker
  new_ocr server = record {
    ctx = record { peer_count = 0; faulty_count = 0; id = "" };
    server = server;
    pacemaker = new_pacemaker;
    state = prepare;
    handlers = [];
  }

  -- The goroutine of `Start` that waits for the number of peers.
  unfoldable pub count_peers : (ℕ → ℕ) → Body (Ocr st) (Unit {0})
  unfolding faulty_count
  count_peers float32 o = elim o.server.peer_count_chan [
    | [] ↦ exit (blocked o)
    | peer_count ∷ later ↦ next tt (record o {
      server = record (o.server) { peer_count_chan = later };
      ctx = record (o.ctx) {
        peer_count = peer_count;
        faulty_count = faulty_count float32 peer_count;
      };
    })
  ]

  -- `RegisterHandler`
  unfoldable pub register_handler : ℕ → Handler → Ocr st → Ocr st
  register_handler topic handler o = record o { handlers = assign topic handler o.handlers }

  -- `Start`, up to the start of the pacemaker.
  unfoldable pub start : (ℕ → ℕ) → Body (Ocr st) (Unit {0})
  unfolding count_peers register_handler
  start float32 = do
    modify (λ o. record o { ctx = record (o.ctx) { id = st.id } })
    modify (λ o. record o { pacemaker = attach_msg_layer st.codec o.pacemaker })
    modify (register_handler topic_pacemaker pacemaker_handler)
    modify (register_handler topic_reporter reporter_handler)
    count_peers float32
    modify λ o. record o {
      pacemaker = set_ocr_context o.ctx.faulty_count o.ctx.peer_count o.ctx.id o.pacemaker;
    }

  -- `readLoop`, for a message that carries a state.
  unfoldable pub set_state : OcrState → Ocr st → Ocr st
  set_state state o = record o { state = state }

  unfoldable pub on_server : Body (Server st) (Unit {0}) → Body (Ocr st) (Unit {0})
  on_server call o = elim (call o.server) [
    | next _ s ↦ next tt (record o { server = s })
    | exit e ↦ elim e [
      | returned err s ↦ next tt (record o { server = s })
      | panicked s ↦ exit (panicked (record o { server = s }))
      | blocked s ↦ exit (blocked (record o { server = s }))
    ]
  ]

  -- `Stop`
  unfoldable pub stop : Body (Ocr st) (Unit {0})
  unfolding on_server
  stop = on_server (stop_server st)

  unfoldable pub on_reporter : (Engine → Exit Engine) → Body (Ocr st) (Unit {0})
  on_reporter call o = elim (call o.pacemaker.reporter) [
    | returned _ re ↦ next tt (record o { pacemaker = record (o.pacemaker) { reporter = re } })
    | panicked re ↦
        exit (panicked (record o { pacemaker = record (o.pacemaker) { reporter = re } }))
    | blocked re ↦ exit (blocked (record o { pacemaker = record (o.pacemaker) { reporter = re } }))
  ]

  unfoldable pub on_pacemaker : Body Pacemaker Bool → Body (Ocr st) (Unit {0})
  on_pacemaker call o = elim (call o.pacemaker) [
    | next _ p ↦ next tt (record o { pacemaker = p })
    | exit e ↦ elim e [
      | returned err p ↦ next tt (record o { pacemaker = p })
      | panicked p ↦ exit (panicked (record o { pacemaker = p }))
      | blocked p ↦ exit (blocked (record o { pacemaker = p }))
    ]
  ]

  -- What a node's handlers take from outside: the engine's environment, and what a switch to a new
  -- epoch elects its leader with.
  module _ (env : Env) (lib : HashLibrary) (secret_key : Bytes)
      (rounds : List (List ProtcolPeer)) where
    unfoldable pub call_handler : Handler → DecodedMsg → Body (Ocr st) (Unit {0})
    unfolding on_reporter on_pacemaker
    call_handler reporter_handler msg = on_reporter (process_message env msg)
    call_handler pacemaker_handler msg =
        on_pacemaker (process_pacemaker_message lib secret_key rounds msg.data_of)

    -- `ServerRPCProcessor.ProcessMessage`
    unfoldable pub route : DecodedMsg → Body (Ocr st) (Unit {0})
    unfolding on_server call_handler
    route msg o =
        if msg.topic == topic_server
        then on_server (process_server_message st msg.data_of) o
        else elim (lookup msg.topic o.handlers) [
          | none ↦ next tt o
          | some handler ↦ call_handler handler msg o
        ]

    -- The server's loop over `ConsumeMsgs`, for one message.
    unfoldable pub deliver : RpcMessage → Body (Ocr st) (Unit {0})
    unfolding route
    deliver rpc_msg o = elim (default_rpc_decoder st.codec rpc_msg) [
      | none ↦ next tt o
      | some msg ↦ route msg o
    ]

    -- One read of the transport's `readLoop` that holds a whole message, and its delivery.
    unfoldable pub receive : Bytes → Body (Ocr st) (Unit {0})
    unfolding deliver
    receive bytes o = elim (st.codec.decode_rpc bytes) [
      | none ↦ next tt o
      | some rpc_msg ↦ deliver rpc_msg o
    ]
