-- ===== src/Scenarios/Nodes.antt =====
-- A node whose peers are kept in a list.
use eavesdrop.Prelude.{
  ℕ, ◌+◌, ◌*◌, ◌≤◌, ◌<◌, ◌≡◌, refl, string_eq, String, true, false, none, some, List, [], ◌∷◌,
  length, arith,
}
use eavesdrop.GoMap.{GoMap, lookup, assign}
use eavesdrop.GoMap.Entries.{lookup-assign}
use eavesdrop.Go.{listened, next, exit, blocked}
use eavesdrop.LeaderSelection.{Peer, ProtcolPeer}
use eavesdrop.Rpc.Codec.{Codec}
use eavesdrop.Transport as Transport
use eavesdrop.Server.{
  AvlLibrary, InternalPeerServerInfoMsg, Setting, Server, new_server, handle_new_peer,
  register_info, is_peer, send_msg,
}
use eavesdrop.Server.Locks.{unknown_peer_locks}
use eavesdrop.Server.Directory.{AvlLaws, announced, register_all, directory_refines}
use eavesdrop.Ocr.{Ocr, new_ocr, faulty_count, start}
use eavesdrop.Ocr.Faults.{handle_all, faulty_count_bounds, first_peer_decides}
use eavesdrop.Scenarios.Messages.{known, codec_of}
use eavesdrop.Scenarios.Streams.{plain_host, plain_transport}

abbrev list_avl : AvlLibrary
list_avl = record {
  Tree = GoMap String ProtcolPeer;
  new = [];
  get = λ k t. lookup k t;
  put = λ k p t. assign k p t;
  size = λ t. length t;
}

pub list_avl_laws : AvlLaws list_avl
list_avl_laws = record { get_put = λ k j p t. lookup-assign k j p t }

abbrev pub setting_of : Codec → Setting
setting_of codec = record {
  Host = ℕ;
  host_library = plain_host;
  avl = list_avl;
  codec = codec;
  id = "b";
  network_id = "net-b";
  addr = "here";
}

abbrev pub plain_setting : Setting
plain_setting = setting_of (codec_of known)

abbrev pub node_a : Peer
node_a = record { id = "net-a"; addr = "there" }

abbrev node_c : Peer
node_c = record { id = "net-c"; addr = "elsewhere" }

abbrev pub info_of : String → String → InternalPeerServerInfoMsg
info_of id network_id = record { network_id = network_id; listen_addr = ""; server_id = id }

-- A server that has found the node "net-a".
abbrev server_with_a : Server plain_setting
server_with_a = record {
  locked = false;
  waiting = none;
  peers = ("net-a", record { server_id = ""; peer = some node_a }) ∷ [];
  app_id_to_peer_id = [];
  peer_count_chan = [];
  comms = [];
  quit_ch = listened;
  transporter = plain_transport;
}

no_net_c : lookup "net-c" server_with_a.peers ≡ none
unfolding lookup
no_net_c = refl

net_a_known :
    lookup "net-a" server_with_a.peers ≡ some (record { server_id = ""; peer = some node_a })
unfolding lookup
net_a_known = refl

unknown_peer_locks_example :
    (stuck : Server plain_setting) × (register_info plain_setting
        (info_of "c" "net-c")
        server_with_a
      ≡ next tt stuck)
    × (register_info plain_setting (info_of "a" "net-a") stuck ≡ exit (blocked stuck))
    × (handle_new_peer plain_setting node_c stuck ≡ exit (blocked stuck))
    × (is_peer plain_setting "a" stuck ≡ exit (blocked stuck))
unknown_peer_locks_example =
    unknown_peer_locks plain_setting server_with_a (info_of "c" "net-c") (info_of "a" "net-a")
      node_c "a" refl no_net_c

abbrev infos : List InternalPeerServerInfoMsg
infos = info_of "a" "net-a" ∷ []

announced_a : announced "a" infos (lookup "a" server_with_a.app_id_to_peer_id) ≡ some "net-a"
unfolding lookup
announced_a = refl

directory_refines_example :
    (t : Server plain_setting) × (register_all plain_setting list_avl_laws infos server_with_a
      ≡ next tt t)
    × (is_peer plain_setting "a" t ≡ next true t)
    × (send_msg plain_setting "a" (7 ∷ []) t ≡ (
        let (sent, transporter) = Transport.send_msg plain_host "net-a" (7 ∷ []) plain_transport in
        next sent (record t { transporter = transporter })))
directory_refines_example =
    directory_refines plain_setting list_avl_laws infos server_with_a "a" "net-a" (7 ∷ []) refl
      ((record { server_id = ""; peer = some node_a }, net_a_known), tt) announced_a
      (ground (arith, string_eq.beq_iff "net-a" ""))

faulty_count_bounds_example :
    (3 * faulty_count (λ i. i) 7 + 1 ≤ 7) × (7 < 3 * (faulty_count (λ i. i) 7 + 1) + 1)
faulty_count_bounds_example =
    faulty_count_bounds (λ i. i) 7 (λ i small. refl) (omega arith) (omega arith)

one_peer : (k : String) (q : ProtcolPeer) → length (assign k q []) ≡ 1
unfolding assign
one_peer k q = refl

first_peer_decides_example :
    (s : Server plain_setting) × (o : Ocr plain_setting) × (handle_all plain_setting
        (node_a ∷ node_c ∷ [])
        (new_server plain_setting plain_transport)
      ≡ next tt s)
    × (start plain_setting (λ i. i) (new_ocr plain_setting s) ≡ next tt o)
    × (o.pacemaker.stats.n ≡ 1)
    × (o.pacemaker.stats.f ≡ 0)
first_peer_decides_example =
    first_peer_decides plain_setting (λ i. i) node_a (node_c ∷ []) plain_transport (λ i small. refl)
      one_peer (omega arith)
