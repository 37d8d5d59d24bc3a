-- ===== src/Transport.antt =====
-- The libp2p transport: network/libp2p_transport.go, and `NewPeer` of network/peer.go. The libp2p host,
-- with its streams, and the JSON codec are parameters. A peer.ID is its string of bytes. The mutexes
-- are held around single map and channel operations only, and are left out.
pub mod Streams
pub mod Chunks
use Prim.Native.Nat.{min}
use eavesdrop.Prelude.{
  ℕ, ◌+◌, ◌*◌, ◌%◌, String, Bool, true, false, Option, none, some, List, [], ◌∷◌, ◌++◌, Bytes, ◌==◌,
  string_eq, if◌then◌else◌, take, drop, foldl, codes,
}
use eavesdrop.GoMap.{GoMap, lookup, assign}
use eavesdrop.LeaderSelection.{Peer}
use eavesdrop.Rpc.Codec.{Codec, RpcMessage}

-- What the transport calls of libp2p: peer.Decode and ID.String, Network().Peers(), NewStream, Write,
-- ClosePeer and Connect, which answer out of the host's state and may change it.
pub record HostLibrary (Host : Type 0) : Type 0 where
  pub decode_id : String → Option String
  pub id_string : String → String
  pub connected : Host → List String
  pub new_stream : String → Host → Option ℕ × Host
  pub write : ℕ → Bytes → Host → Bool × Host
  pub close_peer : String → Host → Bool × Host
  pub connect : String → Host → Bool × Host

-- `LibP2pTransport`. A stream is a number. The channels hold what was not received yet.
pub record LibP2pTransport (Host : Type 0) : Type 0 where
  pub host : Host
  pub streams : GoMap String ℕ
  pub msg_ch : List RpcMessage
  pub peer_ch : List Peer

-- `NewPeer`
unfoldable pub new_peer : String → String → Peer
new_peer id addr = record { id = id; addr = addr }

-- The size of the buffer of `readLoop`.
abbrev pub buffer_size : ℕ
buffer_size = 4096

-- `s.Read(buf)`, when `n` bytes have arrived: what is read, and what is left of the bytes to come.
unfoldable pub read : ℕ → Bytes → Bytes × Bytes
read n coming = (take (min n buffer_size) coming, drop (min n buffer_size) coming)

-- `readLoop`, for the numbers of bytes that have arrived at each read: the messages put on `msgCh`.
unfoldable pub read_loop : Codec → List ℕ → Bytes → List RpcMessage
unfolding read
read_loop codec [] coming = []
read_loop codec (n ∷ ns) coming =
    let rest = read_loop codec ns (read n coming).1 in
    elim (codec.decode_rpc (read n coming).0) [ none ↦ rest | some msg ↦ msg ∷ rest ]

-- The first eight bytes of a hash as a big-endian number.
unfoldable pub big_endian : Bytes → ℕ
big_endian bs = foldl (λ n b. n * 256 + b) 0 (take 8 bs)

-- `getPeerDelay`, in nanoseconds.
unfoldable pub get_peer_delay : (Bytes → Bytes) → String → ℕ
unfolding big_endian
get_peer_delay sum256 id = (big_endian (sum256 (codes id)) % 2000) * 1000000

module _ {Host : Type 0} (lib : HostLibrary Host) where
  -- `NewLibp2pTransport`, with the host that `Start` gives it.
  unfoldable pub new_libp2p_transport : Host → LibP2pTransport Host
  new_libp2p_transport host = record { host = host; streams = []; msg_ch = []; peer_ch = [] }

  -- `Stop`: an error is logged only.
  unfoldable pub stop : LibP2pTransport Host → LibP2pTransport Host
  stop lt = record lt {
    host = foldl (λ h peer. (lib.close_peer peer h).1) lt.host (lib.connected lt.host);
  }

  -- The stream to a peer: the cached one, or a new one that is cached; none is an error.
  unfoldable pub stream_to : String → LibP2pTransport Host → Option ℕ × LibP2pTransport Host
  stream_to id lt = elim (lookup id lt.streams) [
    | some stream ↦ (some stream, lt)
    | none ↦
        let (opened, host) = lib.new_stream id lt.host in
        elim opened [
          | none ↦ (none, record lt { host = host })
          | some stream ↦
              (some stream, record lt { host = host; streams = assign id stream lt.streams })
        ]
  ]

  -- `SendMsg`; `false` is an error.
  unfoldable pub send_msg : String → Bytes → LibP2pTransport Host → Bool × LibP2pTransport Host
  unfolding stream_to
  send_msg id msg lt = elim (lib.decode_id id) [
    | none ↦ (false, lt)
    | some peer_id ↦
        let (stream, opened) = stream_to peer_id lt in
        elim stream [
          | none ↦ (false, opened)
          | some st ↦
              let (written, host) = lib.write st msg opened.host in
              (written, record opened { host = host })
        ]
  ]

  -- `Broadcast`
  unfoldable pub broadcast : Bytes → LibP2pTransport Host → LibP2pTransport Host
  unfolding send_msg
  broadcast msg lt =
      foldl (λ t peer. (send_msg (lib.id_string peer) msg t).1) lt (lib.connected lt.host)

  -- `HandlePeerFound`, behind its delay, with the addresses of the peer; none is a panic.
  unfoldable pub handle_peer_found :
      String → List String → LibP2pTransport Host → Option (LibP2pTransport Host)
  unfolding new_peer
  handle_peer_found id addrs lt =
      let (connected, host) = lib.connect id lt.host in
      if connected
      then elim addrs [
        | [] ↦ none
        | addr ∷ _ ↦ some (record lt {
          host = host;
          peer_ch = lt.peer_ch ++ new_peer (lib.id_string id) addr ∷ [];
        })
      ]
      else some (record lt { host = host })
