-- ===== src/Server/Directory.antt =====
-- The server as a directory: which network ID a server ID stands for.
use eavesdrop.Prelude.{
  ap, ◌≡◌, ◌≢◌, refl, ◌∙◌, String, Bool, true, false, ◌==◌, string_eq, Option, none, some, List, [],
  ◌∷◌, Bytes, All, if◌then◌else◌, arith, inl, inr, beq_cases,
}
use eavesdrop.GoMap.{lookup, fetch}
use eavesdrop.GoMap.Entries.{lookup-assign, fetch_of_lookup}
use eavesdrop.Go.{next, Body, ◌>>◌, pure}
use eavesdrop.LeaderSelection.{ProtcolPeer}
use eavesdrop.Transport as Transport
use eavesdrop.Server.{
  Setting, Server, AvlLibrary, InternalPeerServerInfoMsg, register_info, store_info, is_peer,
  send_msg,
}
use eavesdrop.Server.Locks.{lock-free}

-- What the AVL tree documents of Get and Put.
pub record AvlLaws (avl : AvlLibrary) : Type 0 where
  pub get_put :
      (k j : String) (p : ProtcolPeer) (t : avl.Tree)
      → avl.get j (avl.put k p t) ≡ (if k == j then some p else avl.get j t)

-- The network ID that was announced last for a server ID.
abbrev pub announced : String → List InternalPeerServerInfoMsg → Option String → Option String
announced id [] before = before
announced id (info ∷ infos) before =
    announced id infos (if info.server_id == id then some info.network_id else before)

abbrev pub is_some {ℓ} : {A : Type ℓ} → Option A → Bool
is_some none = false
is_some (some _) = true

module _ (st : Setting) (laws : AvlLaws st.avl) where
  -- The announcements one after the other.
  abbrev pub register_all : List InternalPeerServerInfoMsg → Body (Server st) (Unit {0})
  register_all [] = pure tt
  register_all (info ∷ infos) = do register_info st info; register_all infos

  -- The server knows the network ID.
  abbrev pub IsKnown : Server st → InternalPeerServerInfoMsg → Type 0
  IsKnown s info = (peer : ProtcolPeer) × (st.avl.get info.network_id s.peers ≡ some peer)

  register_info-known :
      (info : InternalPeerServerInfoMsg) (peer : ProtcolPeer) (s : Server st)
      → s.locked ≡ false
      → st.avl.get info.network_id s.peers ≡ some peer
      → register_info st info s ≡ next tt (store_info st info peer s)
  unfolding register_info
  register_info-known info peer s free e = lock-free st _ s free ∙ rw e refl

  store_info-IsKnown :
      (info : InternalPeerServerInfoMsg) (peer : ProtcolPeer) (s : Server st)
      (infos : List InternalPeerServerInfoMsg)
      → All (IsKnown s) infos
      → All (IsKnown (store_info st info peer s)) infos
  unfolding store_info
  store_info-IsKnown info peer s [] k = tt
  store_info-IsKnown info peer s (other ∷ infos) ((p, e), k) = (
    elim (beq_cases info.network_id other.network_id) [
      | inl (same, _) ↦ (
        record peer { server_id = info.server_id },
        rw
            (
              laws.get_put info.network_id other.network_id
                  (record peer { server_id = info.server_id }) s.peers,
              same,
            )
            refl,
      )
      | inr differ ↦ (
        p,
        rw
            (
              laws.get_put info.network_id other.network_id
                  (record peer { server_id = info.server_id }) s.peers,
              differ,
            )
            e,
      )
    ],
    store_info-IsKnown info peer s infos k,
  )

  -- The map after the announcements is what was announced.
  pub register_all-announced :
      (infos : List InternalPeerServerInfoMsg) (s : Server st)
      → s.locked ≡ false
      → All (IsKnown s) infos
      → (t : Server st) × (register_all infos s ≡ next tt t)
        × (t.locked ≡ false)
        × (t.transporter ≡ s.transporter)
        × ((id : String)
            → lookup id t.app_id_to_peer_id ≡ announced id infos (lookup id s.app_id_to_peer_id))
  unfolding store_info
  register_all-announced [] s free k = (s, refl, free, refl, λ id. refl)
  register_all-announced (info ∷ infos) s free ((peer, e), k) =
      let u = store_info st info peer s in
      let (t, done, unlocked, same, found) =
        register_all-announced infos u free (store_info-IsKnown info peer s infos k) in
      (
        t,
        step_lem info infos s u (register_info-known info peer s free e) ∙ done,
        unlocked,
        same,
        λ id.
            found id
            ∙ ap (announced id infos)
                (lookup-assign info.server_id id info.network_id s.app_id_to_peer_id),
      )
    where
      step_lem :
          (info : InternalPeerServerInfoMsg) (infos : List InternalPeerServerInfoMsg)
          (s u : Server st)
          → register_info st info s ≡ next tt u
          → register_all (info ∷ infos) s ≡ register_all infos u
      step_lem info infos s u e = rw (e, ◌>>◌) refl

  send_msg-found :
      (id network_id : String) (msg : Bytes) (t : Server st)
      → lookup id t.app_id_to_peer_id ≡ some network_id
      → network_id ≢ ""
      → send_msg st id msg t ≡ (
          let (sent, transporter) =
            Transport.send_msg st.host_library network_id msg t.transporter in
          next sent (record t { transporter = transporter }))
  unfolding send_msg
  send_msg-found id network_id msg t held nonempty =
      let target : fetch "" id t.app_id_to_peer_id ≡ network_id =
        fetch_of_lookup "" id t.app_id_to_peer_id held in
      let named : (network_id == "") ≡ false = ground (arith, string_eq.beq_iff network_id "") in
      rw (target, named) refl

  -- If Get and Put of the AVL tree do what they document, a free server that handles announcements of
  -- network IDs which are all among its peers is a directory: an ID whose network ID, announced last or
  -- else known before, is not empty is then a peer's, and a message to it goes to that network ID.
  pub directory_refines :
      (infos : List InternalPeerServerInfoMsg) (s : Server st) (id network_id : String)
      (msg : Bytes)
      → s.locked ≡ false
      → All (IsKnown s) infos
      → announced id infos (lookup id s.app_id_to_peer_id) ≡ some network_id
      → network_id ≢ ""
      → (t : Server st) × (register_all infos s ≡ next tt t)
        × (is_peer st id t ≡ next true t)
        × (send_msg st id msg t ≡ (
            let (sent, transporter) =
              Transport.send_msg st.host_library network_id msg s.transporter in
            next sent (record t { transporter = transporter })))
  unfolding is_peer
  directory_refines infos s id network_id msg free k e nonempty =
      let (t, done, unlocked, same, found) = register_all-announced infos s free k in
      let held = found id ∙ e in
      (
        t,
        done,
        lock-free st _ t unlocked ∙ rw held refl,
        send_msg-found id network_id msg t held nonempty
            ∙ ap
                (λ transport.
                  let (sent, transporter) =
                    Transport.send_msg st.host_library network_id msg transport in
                  next sent (record t { transporter = transporter }))
                same,
      )
