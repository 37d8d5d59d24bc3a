-- ===== src/Server/Members.antt =====
-- The goroutines of the server, in any order: what the directory of server IDs and the channels hold.
use eavesdrop.Prelude.{
  ◌≤◌, ◌≡◌, ap, refl, ◌∙◌, String, true, false, string_eq, some, arith, inl, inr, Option-cases,
  Bool-cases, length, sym, subst,
}
use eavesdrop.GoMap.{lookup}
use eavesdrop.Go.{next, close_channel}
use eavesdrop.Go.States.{reached}
use eavesdrop.LeaderSelection.{ProtcolPeer}
use eavesdrop.Transport.{LibP2pTransport}
use eavesdrop.Server.{
  Setting, Server, new_server, is_peer, stop, send_msg, broadcast_msg, channel_size,
}
use eavesdrop.Server.Loops.{Step, Reach}
use eavesdrop.Server.Directory.{AvlLaws}
use eavesdrop.Server.Locks.{lock-free, lock-held}
use eavesdrop.Server.Consistency.{
  IsConsistent, resume_new_peer-IsConsistent, Agrees-IsConsistent, handle_new_peer-IsConsistent,
  register_info-IsConsistent, process_server_message-IsConsistent,
}

module _ (st : Setting) (laws : AvlLaws st.avl) where
  is_peer-same : (id : String) (s : Server st) → reached (is_peer st id s) ≡ s
  unfolding is_peer
  is_peer-same id s = elim (Bool-cases s.locked) [
    | inl held ↦ ap reached (lock-held st _ s held)
    | inr free ↦ ap reached (lock-free st _ s free)
  ]

  Step-IsConsistent :
      {s t : Server st} → Step st s t → IsConsistent st laws s → IsConsistent st laws t
  unfolding send_msg broadcast_msg stop close_channel
  Step-IsConsistent {s} (Step.find_peer peer) h = handle_new_peer-IsConsistent st laws peer s h
  Step-IsConsistent {s} (Step.resume peer e room) h = resume_new_peer-IsConsistent st laws peer s h
  Step-IsConsistent {s} (Step.register info later e) h =
      register_info-IsConsistent st laws info (record s { comms = later })
        (record {
          members = h.members;
          infos_fit = omega (arith, ap length e, h.infos_fit);
          counts_fit = h.counts_fit;
        })
  Step-IsConsistent {s} (Step.count_peers count later e) h = record {
    members = h.members;
    infos_fit = h.infos_fit;
    counts_fit = omega (arith, ap length e, h.counts_fit);
  }
  Step-IsConsistent {s} (Step.message payload) h =
      process_server_message-IsConsistent st laws payload s h
  Step-IsConsistent {s} (Step.send id msg) h =
      Agrees-IsConsistent st laws s (reached (send_msg st id msg s)) (ground arith) h
  Step-IsConsistent {s} (Step.send_all msg) h =
      Agrees-IsConsistent st laws s (reached (broadcast_msg st msg s)) (refl, refl, refl, refl) h
  Step-IsConsistent {s} Step.shut h =
      Agrees-IsConsistent st laws s (reached (stop st s)) (ground arith) h
  Step-IsConsistent {s} (Step.ask id) h = subst (IsConsistent st laws) (sym (is_peer-same id s)) h

  Reach-IsConsistent :
      {s t : Server st} → Reach st s t → IsConsistent st laws s → IsConsistent st laws t
  Reach-IsConsistent Reach.here h = h
  Reach-IsConsistent (Reach.then steps step) h = Step-IsConsistent step (Reach-IsConsistent steps h)

  new_server-IsConsistent :
      (transporter : LibP2pTransport st.Host) → IsConsistent st laws (new_server st transporter)
  unfolding new_server lookup
  new_server-IsConsistent transporter = record {
    members = λ id network_id held. absurd (cc);
    infos_fit = omega arith;
    counts_fit = omega arith;
  }

  accepted-held :
      (s t : Server st) (id : String)
      → is_peer st id s ≡ next true t
      → (network_id : String) × (lookup id s.app_id_to_peer_id ≡ some network_id)
  unfolding is_peer
  accepted-held s t id accepted = elim (Bool-cases s.locked) [
    | inl held ↦ absurd (cc (lock-held st _ s held, accepted))
    | inr free ↦ elim (Option-cases (lookup id s.app_id_to_peer_id)) [
      | inl missing ↦
          let refused : is_peer st id s ≡ next false s = lock-free st _ s free ∙ rw missing refl in
          absurd (cc (refused, accepted))
      | inr found ↦ found
    ]
  ]

  -- If Get and Put of the AVL tree do what they document, then on a server that was new, after any steps
  -- of its goroutines in any order, neither of its channels holds more than its capacity, and whoever
  -- IsPeer accepts has a network ID under which the tree holds a peer.
  pub accepted_are_peers :
      (transporter : LibP2pTransport st.Host) (s t : Server st) (id : String)
      → Reach st (new_server st transporter) s
      → is_peer st id s ≡ next true t
      → (length s.comms ≤ channel_size)
        × (length s.peer_count_chan ≤ channel_size)
        × ((network_id : String) × (peer : ProtcolPeer) × (lookup id s.app_id_to_peer_id
              ≡ some network_id)
            × (st.avl.get network_id s.peers ≡ some peer))
  accepted_are_peers transporter s t id steps accepted =
      let h = Reach-IsConsistent steps (new_server-IsConsistent transporter) in
      let (network_id, held) = accepted-held s t id accepted in
      let (peer, found) = h.members id network_id held in
      (h.infos_fit, h.counts_fit, (network_id, peer, held, found))
