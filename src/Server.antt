-- ===== src/Server.antt =====
-- The server: ocr/server.go, and `ServerRPCProcessor` of ocr/server_rpc_processor.go up to its handlers.
-- The AVL tree of peers is a parameter; it holds pointers, so a change of a peer is a change in the tree.
-- A channel is what was not received from it yet.
pub mod Locks
pub mod Directory
pub mod Loops
pub mod Consistency
pub mod Members
use eavesdrop.Prelude.{
  ℕ, ◌+◌, ◌≡◌, String, Bool, true, false, Option, none, some, List, [], ◌∷◌, ◌++◌, Bytes, ◌==◌,
  nat_eq, string_eq, if◌then◌else◌, ltb, length,
}
use eavesdrop.GoMap.{GoMap, lookup, fetch, assign}
use eavesdrop.Go.{
  Channel, listened, close_channel, GoError, Exit, blocked, panicked, Flow, next, exit, Body, ◌>>=◌,
  ◌>>◌, pure, gets, modify,
}
use eavesdrop.LeaderSelection.{Peer, ProtcolPeer}
use eavesdrop.Rpc.{Payload, status_msg, StatusMsg}
use eavesdrop.Rpc.Codec.{Codec, rpc_bytes, unsigned, message_status, topic_server}
use eavesdrop.Transport.{HostLibrary, LibP2pTransport}
use eavesdrop.Transport as Transport

-- What the server calls of the AVL tree: New, Get, Put and Size.
pub record AvlLibrary : Type 1 where
  pub Tree : Type 0
  pub new : Tree
  pub get : String → Tree → Option ProtcolPeer
  pub put : String → ProtcolPeer → Tree → Tree
  pub size : Tree → ℕ

-- `InternalPeerServerInfoMsg`
pub record InternalPeerServerInfoMsg : Type 0 where
  pub network_id : String
  pub listen_addr : String
  pub server_id : String

-- What stays the same around a server: its libraries, its codec, and what its host says of itself.
pub record Setting : Type 1 where
  pub Host : Type 0
  pub host_library : HostLibrary Host
  pub avl : AvlLibrary
  pub codec : Codec
  pub id : String
  pub network_id : String
  pub addr : String

-- `Server`. `locked` says that `peerLock` is held while no goroutine runs: for ever, or by the one that
-- waits to send the count of peers, after it has stored the peer `waiting`.
pub record Server (st : Setting) : Type 0 where
  pub locked : Bool
  pub waiting : Option Peer
  pub peers : st.avl.Tree
  pub app_id_to_peer_id : GoMap String String
  pub peer_count_chan : List ℕ
  pub comms : List InternalPeerServerInfoMsg
  pub quit_ch : Channel
  pub transporter : LibP2pTransport st.Host

-- The capacity of `peerCountChan` and of `commsChWithServer`.
abbrev pub channel_size : ℕ
channel_size = 1000

module _ (st : Setting) where
  -- `NewServer`, over a transport.
  unfoldable pub new_server : LibP2pTransport st.Host → Server st
  new_server transporter = record {
    locked = false;
    waiting = none;
    peers = st.avl.new;
    app_id_to_peer_id = [];
    peer_count_chan = [];
    comms = [];
    quit_ch = listened;
    transporter = transporter;
  }

  -- `s.peerLock.Lock()`, or `RLock`
  unfoldable pub lock : Body (Server st) (Unit {0})
  lock s = if s.locked then exit (blocked s) else next tt s

  -- A goroutine that waits inside the lock keeps it, until there is room in the channel.
  unfoldable pub wait_locked : {A : Type 0} → Peer → Body (Server st) A
  wait_locked peer s = exit (blocked (record s { locked = true; waiting = some peer }))

  -- `sendHandshakeMsgToPeerNode`; `false` is its error.
  unfoldable pub send_handshake : String → Body (Server st) Bool
  send_handshake peer_id s =
      let status =
        status_msg (record { id = st.id; network_id = st.network_id; listen_addr = st.addr }) in
      elim (rpc_bytes st.codec (unsigned st.id message_status topic_server status)) [
        | none ↦ next false s
        | some rpc_msg ↦
            let (sent, transporter) =
              Transport.send_msg st.host_library peer_id rpc_msg s.transporter in
            next sent (record s { transporter = transporter })
      ]

  -- `s.peerCountChan <- s.peers.Size()`, after the peer was stored.
  unfoldable pub send_peer_count : Peer → Body (Server st) (Unit {0})
  unfolding wait_locked
  send_peer_count peer s =
      if ltb (length s.peer_count_chan) channel_size
      then next tt (record s { peer_count_chan = s.peer_count_chan ++ st.avl.size s.peers ∷ [] })
      else wait_locked peer s

  -- `handleNewPeer`
  unfoldable pub handle_new_peer : Peer → Body (Server st) (Unit {0})
  unfolding send_peer_count
  handle_new_peer peer = do
    lock
    modify λ s. record s {
      peers = st.avl.put peer.id (record { server_id = ""; peer = some peer }) s.peers;
    }
    send_peer_count peer
    sent ← send_handshake peer.id
    pure tt

  -- What is left of `handleNewPeer` for a peer whose handler waited, once there is room.
  unfoldable pub resume_new_peer : Peer → Body (Server st) (Unit {0})
  unfolding send_peer_count
  resume_new_peer peer = do
    modify (λ s. record s { locked = false; waiting = none })
    send_peer_count peer
    sent ← send_handshake peer.id
    pure tt

  -- The new entries of both maps.
  unfoldable pub store_info : InternalPeerServerInfoMsg → ProtcolPeer → Server st → Server st
  store_info info peer s = record s {
    app_id_to_peer_id = assign info.server_id info.network_id s.app_id_to_peer_id;
    peers = st.avl.put info.network_id (record peer { server_id = info.server_id }) s.peers;
  }

  -- The body of the loop over `commsChWithServer`. Where the peer is not known it goes on with the lock.
  unfoldable pub register_info : InternalPeerServerInfoMsg → Body (Server st) (Unit {0})
  unfolding store_info
  register_info info = do
    lock
    s ← gets (λ s. s)
    elim (st.avl.get info.network_id s.peers) [
      | none ↦ modify (λ s. record s { locked = true })
      | some peer ↦ modify (store_info info peer)
    ]

  -- `SendMsg`; `false` is its error.
  unfoldable pub send_msg : String → Bytes → Body (Server st) Bool
  send_msg id rpc_msg s =
      let peer_id = fetch "" id s.app_id_to_peer_id in
      if peer_id == ""
      then next false s
      else let (sent, transporter) =
          Transport.send_msg st.host_library peer_id rpc_msg s.transporter in
        next sent (record s { transporter = transporter })

  -- `BroadcastMsg`
  unfoldable pub broadcast_msg : Bytes → Body (Server st) (Unit {0})
  broadcast_msg rpc_msg =
      modify
        (λ s. record s { transporter = Transport.broadcast st.host_library rpc_msg s.transporter })

  -- `IsPeer`
  unfoldable pub is_peer : String → Body (Server st) Bool
  is_peer id = do
    lock
    s ← gets (λ s. s)
    pure (elim (lookup id s.app_id_to_peer_id) [ none ↦ false | some _ ↦ true ])

  -- `Stop`
  unfoldable pub stop : Body (Server st) (Unit {0})
  unfolding close_channel
  stop s = elim (close_channel s.quit_ch) [
    | none ↦ exit (panicked s)
    | some ch ↦ next tt (record s { quit_ch = ch })
  ]

  -- `GetPeerCount`
  unfoldable pub get_peer_count : Server st → ℕ
  get_peer_count s = st.avl.size s.peers

  -- The case of `ServerRPCProcessor.ProcessMessage` for the server's own topic.
  unfoldable pub process_server_message : Payload → Body (Server st) (Unit {0})
  process_server_message (status_msg m) s =
      if ltb (length s.comms) channel_size
      then next tt (record s {
        comms =
            s.comms
            ++ record { network_id = m.network_id; listen_addr = m.listen_addr; server_id = m.id }
              ∷ [];
      })
      else exit (blocked s)
  process_server_message _ s = next tt s
