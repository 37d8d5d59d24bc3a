-- ===== src/Scenarios/Members.antt =====
-- A server that finds a peer and is told its server ID.
use eavesdrop.Prelude.{◌≡◌, ◌≤◌, refl, String, some, [], length, string_eq}
use eavesdrop.GoMap.{lookup, assign}
use eavesdrop.Go.States.{reached}
use eavesdrop.LeaderSelection.{ProtcolPeer}
use eavesdrop.Rpc.{status_msg}
use eavesdrop.Rpc.Codec.{rpc_bytes, unsigned}
use eavesdrop.Server.{
  Server, channel_size, new_server, lock, handle_new_peer, send_peer_count, process_server_message,
  register_info, store_info, is_peer, send_handshake,
}
use eavesdrop.Server.Loops.{Step, Reach}
use eavesdrop.Server.Members.{accepted_are_peers}
use eavesdrop.Scenarios.Nodes.{plain_setting, node_a, info_of, list_avl_laws}
use eavesdrop.Scenarios.Streams.{plain_transport}

abbrev found : Server plain_setting
found = reached (handle_new_peer plain_setting node_a (new_server plain_setting plain_transport))

abbrev told : Server plain_setting
told = reached (
    process_server_message plain_setting
      (status_msg (record { id = "a"; network_id = "net-a"; listen_addr = "" })) found)

abbrev registered : Server plain_setting
registered =
    reached (register_info plain_setting (info_of "a" "net-a") (record told { comms = [] }))

accepted_are_peers_example :
    (length registered.comms ≤ channel_size)
    × (length registered.peer_count_chan ≤ channel_size)
    × ((network_id : String) × (peer : ProtcolPeer) × (lookup "a" registered.app_id_to_peer_id
          ≡ some network_id)
        × (plain_setting.avl.get network_id registered.peers ≡ some peer))
unfolding is_peer lock register_info store_info lookup assign handle_new_peer send_peer_count
    new_server process_server_message send_handshake rpc_bytes unsigned
accepted_are_peers_example =
    accepted_are_peers plain_setting list_avl_laws plain_transport registered registered "a"
      (Reach.then
        (Reach.then (Reach.then Reach.here (Step.find_peer node_a))
          (Step.message (status_msg (record { id = "a"; network_id = "net-a"; listen_addr = "" }))))
        (Step.register (info_of "a" "net-a") [] refl))
      refl
