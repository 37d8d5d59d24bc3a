-- ===== src/Server/Consistency.antt =====
-- What the directory of server IDs and the channels of a server hold, under each of its operations.
use eavesdrop.Prelude.{
  ℕ, ◌+◌, ◌≤◌, ◌≡◌, ap, refl, ◌∙◌, String, true, false, ◌==◌, string_eq, Option, none, some, [],
  ◌∷◌, arith, inl, inr, beq_cases, Bool-cases, length, length-append, ltb, sym, subst,
}
use eavesdrop.GoMap.{lookup}
use eavesdrop.GoMap.Entries.{lookup-assign}
use eavesdrop.Go.{Body, ◌>>◌, ◌>>=◌, modify, pure}
use eavesdrop.Go.States.{reached, reached->>}
use eavesdrop.LeaderSelection.{Peer, ProtcolPeer}
use eavesdrop.Rpc.{Payload, status_msg}
use eavesdrop.Server.{
  Setting, Server, InternalPeerServerInfoMsg, lock, handle_new_peer, register_info, store_info,
  process_server_message, channel_size, resume_new_peer, send_peer_count, send_handshake,
  wait_locked,
}
use eavesdrop.Server.Directory.{AvlLaws}

module _ (st : Setting) (laws : AvlLaws st.avl) where
  -- The network ID that a server ID stands for is a peer's, and no channel is above its capacity.
  pub record IsConsistent (s : Server st) : Type 0 where
    pub members :
        (id network_id : String)
        → lookup id s.app_id_to_peer_id ≡ some network_id
        → (p : ProtcolPeer) × (st.avl.get network_id s.peers ≡ some p)
    pub infos_fit : length s.comms ≤ channel_size
    pub counts_fit : length s.peer_count_chan ≤ channel_size

  put-member :
      (k j : String) (q : ProtcolPeer) (t : st.avl.Tree)
      → (p : ProtcolPeer) × (st.avl.get j t ≡ some p)
      → (p : ProtcolPeer) × (st.avl.get j (st.avl.put k q t) ≡ some p)
  put-member k j q t (p, e) = elim (beq_cases k j) [
    | inl (same, _) ↦ (q, rw (laws.get_put k j q t, same) refl)
    | inr differ ↦ (p, rw (laws.get_put k j q t, differ) e)
  ]

  -- The same directory and the same channels.
  abbrev Agrees : Server st → Server st → Type 0
  Agrees s t =
      (t.app_id_to_peer_id ≡ s.app_id_to_peer_id)
      × (t.peers ≡ s.peers)
      × (t.comms ≡ s.comms)
      × (t.peer_count_chan ≡ s.peer_count_chan)

  pub Agrees-IsConsistent : (s t : Server st) → Agrees s t → IsConsistent s → IsConsistent t
  Agrees-IsConsistent s t (same, peers, comms, counts) h = record {
    members = λ id network_id held.
        rw (peers) (h.members id network_id (sym (ap (lookup id) same) ∙ held));
    infos_fit = rw (comms) h.infos_fit;
    counts_fit = rw (counts) h.counts_fit;
  }

  lock-IsConsistent : (s : Server st) → IsConsistent s → IsConsistent (reached (lock st s))
  unfolding lock
  lock-IsConsistent s h = Agrees-IsConsistent s (reached (lock st s)) (ground arith) h

  put_peer-IsConsistent :
      (network_id : String) (q : ProtcolPeer) (s : Server st)
      → IsConsistent s
      → IsConsistent (record s { peers = st.avl.put network_id q s.peers })
  put_peer-IsConsistent k q s h = record {
    members =
        λ id network_id held. put-member k network_id q s.peers (h.members id network_id held);
    infos_fit = h.infos_fit;
    counts_fit = h.counts_fit;
  }

  ltb_le : (a b : ℕ) → ltb a b ≡ true → a + 1 ≤ b
  ltb_le a b e = ground arith

  send_peer_count-IsConsistent :
      (peer : Peer) (s : Server st)
      → IsConsistent s
      → IsConsistent (reached (send_peer_count st peer s))
  unfolding send_peer_count wait_locked
  send_peer_count-IsConsistent peer s h =
      elim (Bool-cases (ltb (length s.peer_count_chan) channel_size)) [
        | inl room ↦ rw (room) record {
          members = h.members;
          infos_fit = h.infos_fit;
          counts_fit =
              omega (
                arith,
                length-append s.peer_count_chan (st.avl.size s.peers ∷ []),
                ltb_le _ _ room,
              );
        }
        | inr full ↦
            rw (full)
              record { members = h.members; infos_fit = h.infos_fit; counts_fit = h.counts_fit }
      ]

  pub resume_new_peer-IsConsistent :
      (peer : Peer) (s : Server st)
      → IsConsistent s
      → IsConsistent (reached (resume_new_peer st peer s))
  unfolding resume_new_peer send_handshake
  resume_new_peer-IsConsistent peer s h =
      let t = record s { locked = false; waiting = none } in
      reached->> {A = Unit {0}} {B = Unit {0}} IsConsistent (send_peer_count st peer)
        (send_handshake st peer.id >>= λ sent. pure tt) t
        (send_peer_count-IsConsistent peer t (Agrees-IsConsistent s t (refl, refl, refl, refl) h))
        (λ u k.
          Agrees-IsConsistent u (reached ((send_handshake st peer.id >>= λ sent. pure tt) u))
            (ground arith) k)

  pub handle_new_peer-IsConsistent :
      (peer : Peer) (s : Server st)
      → IsConsistent s
      → IsConsistent (reached (handle_new_peer st peer s))
  unfolding handle_new_peer send_handshake
  handle_new_peer-IsConsistent peer s h =
      let q : ProtcolPeer = record { server_id = ""; peer = some peer } in
      reached->> {A = Unit {0}} {B = Unit {0}} IsConsistent (lock st)
        (modify (λ s. record s { peers = st.avl.put peer.id q s.peers })
          >> (send_peer_count st peer >> greeted))
        s (lock-IsConsistent s h)
        (λ t k.
          reached->> {A = Unit {0}} {B = Unit {0}} IsConsistent (send_peer_count st peer) greeted
            (record t { peers = st.avl.put peer.id q t.peers })
            (send_peer_count-IsConsistent peer _ (put_peer-IsConsistent peer.id q t k))
            greeted-IsConsistent)
    where
      greeted : Body (Server st) (Unit {0})
      greeted = send_handshake st peer.id >>= λ sent. pure tt

      greeted-IsConsistent : (t : Server st) → IsConsistent t → IsConsistent (reached (greeted t))
      greeted-IsConsistent t k = Agrees-IsConsistent t (reached (greeted t)) (ground arith) k

  store_info-IsConsistent :
      (info : InternalPeerServerInfoMsg) (peer : ProtcolPeer) (s : Server st)
      → IsConsistent s
      → IsConsistent (store_info st info peer s)
  unfolding store_info
  store_info-IsConsistent info peer s h = record {
    members = λ id network_id held. elim (beq_cases info.server_id id) [
      | inl (own, _) ↦
          let same : info.network_id ≡ network_id =
            cc (lookup-assign info.server_id id info.network_id s.app_id_to_peer_id, own, held) in
          (
            q,
            subst (λ k. st.avl.get k (st.avl.put info.network_id q s.peers) ≡ some q) same
                (rw (laws.get_put info.network_id info.network_id q s.peers, self) refl),
          )
      | inr other ↦ put-member info.network_id network_id q s.peers (
          h.members id network_id
            (ground (arith, lookup-assign info.server_id id info.network_id s.app_id_to_peer_id)))
    ];
    infos_fit = h.infos_fit;
    counts_fit = h.counts_fit;
  }
    where
      q : ProtcolPeer
      q = record peer { server_id = info.server_id }

      self : (info.network_id == info.network_id) ≡ true
      self = ground (arith, string_eq.beq_iff info.network_id info.network_id)

  pub register_info-IsConsistent :
      (info : InternalPeerServerInfoMsg) (s : Server st)
      → IsConsistent s
      → IsConsistent (reached (register_info st info s))
  unfolding register_info
  register_info-IsConsistent info s h =
      reached->> {A = Unit {0}} {B = Unit {0}} IsConsistent (lock st) _ s (lock-IsConsistent s h)
        (λ t k. known_or_not t k _ refl)
    where
      known_or_not :
          (t : Server st)
          → IsConsistent t
          → (found : Option ProtcolPeer) → st.avl.get info.network_id t.peers ≡ found
          → IsConsistent (
              reached (
                elim found as (λ _. Body (Server st) (Unit {0})) [
                  | none ↦ modify (λ s. record s { locked = true })
                  | some peer ↦ modify (store_info st info peer)
                ]
                  t))
      known_or_not t k none e =
          Agrees-IsConsistent t (record t { locked = true }) (refl, refl, refl, refl) k
      known_or_not t k (some peer) e = store_info-IsConsistent info peer t k

  pub process_server_message-IsConsistent :
      (payload : Payload) (s : Server st)
      → IsConsistent s
      → IsConsistent (reached (process_server_message st payload s))
  unfolding process_server_message
  process_server_message-IsConsistent (status_msg m) s h =
      elim (Bool-cases (ltb (length s.comms) channel_size)) [
        | inl room ↦ rw (room) record {
          members = h.members;
          infos_fit =
              let info : InternalPeerServerInfoMsg = record {
                network_id = m.network_id;
                listen_addr = m.listen_addr;
                server_id = m.id;
              } in
              omega (arith, length-append s.comms (info ∷ []), ltb_le _ _ room);
          counts_fit = h.counts_fit;
        }
        | inr full ↦ rw (full) h
      ]
  process_server_message-IsConsistent payload s h = h
