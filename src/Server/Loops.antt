-- ===== src/Server/Loops.antt =====
-- The goroutines of the server, each of which runs to its end, or to where it waits for ever, before another
-- one, in any order: `Start` of ocr/server.go and what calls the server.
use eavesdrop.Prelude.{ℕ, ◌≡◌, ◌<◌, some, length, String, List, ◌∷◌, Bytes}
use eavesdrop.Go.States.{reached}
use eavesdrop.LeaderSelection.{Peer}
use eavesdrop.Rpc.{Payload}
use eavesdrop.Server.{
  Setting, Server, InternalPeerServerInfoMsg, handle_new_peer, register_info, is_peer, send_msg,
  resume_new_peer, channel_size, broadcast_msg, process_server_message, stop,
}

-- What may happen next to a server: a handler of a new peer that waited for room goes on, a peer is found, an announcement or a count of peers is received from
-- its channel, a message of its own topic arrives, or a caller sends or asks.
pub data Step (st : Setting) (s : Server st) : Server st → Type 0 where
  resume :
      (peer : Peer)
      → s.waiting ≡ some peer
      → length s.peer_count_chan < channel_size
      → Step st s (reached (resume_new_peer st peer s))
  find_peer : (peer : Peer) → Step st s (reached (handle_new_peer st peer s))
  register :
      (info : InternalPeerServerInfoMsg) (later : List InternalPeerServerInfoMsg)
      → s.comms ≡ info ∷ later
      → Step st s (reached (register_info st info (record s { comms = later })))
  count_peers :
      (count : ℕ) (later : List ℕ)
      → s.peer_count_chan ≡ count ∷ later
      → Step st s (record s { peer_count_chan = later })
  message : (payload : Payload) → Step st s (reached (process_server_message st payload s))
  send : (id : String) (msg : Bytes) → Step st s (reached (send_msg st id msg s))
  send_all : (msg : Bytes) → Step st s (reached (broadcast_msg st msg s))
  shut : Step st s (reached (stop st s))
  ask : (id : String) → Step st s (reached (is_peer st id s))

pub data Reach (st : Setting) (s : Server st) : Server st → Type 0 where
  here : Reach st s s
  then : {t u : Server st} → Reach st s t → Step st t u → Reach st s u
