-- ===== src/Ocr/Faults.antt =====
-- How many faulty nodes a node reckons with.
use mathlib.Core.List.{append-nil, append_assoc}
use eavesdrop.Prelude.{
  String, Bool, ltb, inl, inr, Option-cases, sym, ap, some, length, length-append, ℕ, ◌+◌, ◌*◌, ◌-◌,
  ◌/◌, ◌^◌, ◌≤◌, ◌<◌, ◌≡◌, refl, ◌∙◌, List, [], ◌∷◌, ◌++◌, arith, true, false,
}
use eavesdrop.Go.{next, Body, ◌>>◌, ◌>>=◌, pure}
use eavesdrop.LeaderSelection.{Peer, ProtcolPeer}
use eavesdrop.Server.{Setting, Server, channel_size, send_handshake, handle_new_peer, new_server}
use eavesdrop.Server.Locks.{lock-free}
use eavesdrop.Rpc.{status_msg}
use eavesdrop.Rpc.Codec.{
  rpc_bytes, unsigned, message_status, topic_server, topic_pacemaker, topic_reporter,
}
use eavesdrop.Transport.{LibP2pTransport}
use eavesdrop.Transport as Transport
use eavesdrop.Ocr.{
  Ocr, new_ocr, faulty_count, count_peers, start, register_handler, pacemaker_handler,
  reporter_handler,
}
use eavesdrop.Pacemaker.{set_ocr_context, attach_msg_layer}

-- What IEEE 754 documents of float32: whole numbers up to 2 ^ 24 are exact.
abbrev pub IsExact : (ℕ → ℕ) → Type 0
IsExact float32 = (i : ℕ) → i ≤ 2 ^ 24 → float32 i ≡ i

-- If float32 is exact on whole numbers up to 2 ^ 24, then for n between 1 and that number the count f of
-- faulty nodes is the largest with 3f + 1 at most n.
pub faulty_count_bounds :
    (float32 : ℕ → ℕ) (n : ℕ)
    → IsExact float32
    → 1 ≤ n
    → n ≤ 2 ^ 24
    → (3 * faulty_count float32 n + 1 ≤ n) × (n < 3 * (faulty_count float32 n + 1) + 1)
unfolding faulty_count
faulty_count_bounds float32 n exact pos small =
    let e = exact ((n - 1) / 3) (omega arith) in (omega (arith, e), omega (arith, e))

module _ (st : Setting) where
  -- The peers that the transport finds, one after the other.
  abbrev pub handle_all : List Peer → Body (Server st) (Unit {0})
  handle_all [] = pure tt
  handle_all (p ∷ ps) = do handle_new_peer st p; handle_all ps

  -- A handshake changes the transport only.
  send_handshake-next :
      (id : String) (s : Server st)
      → (sent : Bool) × (transporter : LibP2pTransport st.Host) × (send_handshake st id s
          ≡ next sent (record s { transporter = transporter }))
  unfolding send_handshake
  send_handshake-next id s =
      elim (Option-cases (
        rpc_bytes st.codec (
          unsigned st.id message_status topic_server (
            status_msg
              (record { id = st.id; network_id = st.network_id; listen_addr = st.addr }))))) [
                | inl e ↦ (false, s.transporter, rw (e, send_handshake) refl)
                | inr (msg, e) ↦ (
                  (Transport.send_msg st.host_library id msg s.transporter).0,
                  (Transport.send_msg st.host_library id msg s.transporter).1,
                  rw (e, send_handshake) refl,
                )
              ]

  -- A free server counts a peer, if the channel has room.
  handle_new_peer-counts :
      (p : Peer) (s : Server st)
      → s.locked ≡ false
      → length s.peer_count_chan < channel_size
      → (t : Server st) × (handle_new_peer st p s ≡ next tt t)
        × (t.locked ≡ false)
        × (t.peer_count_chan
            ≡ s.peer_count_chan
              ++ st.avl.size (st.avl.put p.id (record { server_id = ""; peer = some p }) s.peers)
                ∷ [])
  unfolding handle_new_peer
  handle_new_peer-counts p s free room =
      let counted = record s {
        peers = st.avl.put p.id (record { server_id = ""; peer = some p }) s.peers;
        peer_count_chan =
            s.peer_count_chan
            ++ st.avl.size (st.avl.put p.id (record { server_id = ""; peer = some p }) s.peers)
              ∷ [];
      } in
      let fits : ltb (length s.peer_count_chan) channel_size ≡ true = ground arith in
      let (sent, transporter, shaken) = send_handshake-next p.id counted in
      (
        record counted { transporter = transporter },
        lock-free st _ s free ∙ rw (fits, ◌>>◌, shaken, ◌>>=◌) refl,
        free,
        refl,
      )

  step_lem :
      (p : Peer) (ps : List Peer) (s u : Server st)
      → handle_new_peer st p s ≡ next tt u
      → handle_all (p ∷ ps) s ≡ handle_all ps u
  step_lem p ps s u e = rw (e, ◌>>◌) refl

  -- The counts are queued behind those that are there.
  handle_all-counts :
      (ps : List Peer) (s : Server st)
      → s.locked ≡ false
      → length s.peer_count_chan + length ps ≤ channel_size
      → (t : Server st) × (counts : List ℕ) × (handle_all ps s ≡ next tt t)
        × (t.peer_count_chan ≡ s.peer_count_chan ++ counts)
  handle_all-counts [] s free room = (s, [], refl, sym (append-nil s.peer_count_chan))
  handle_all-counts (p ∷ ps) s free room =
      let (u, e, unlocked, queued) = handle_new_peer-counts p s free (omega arith) in
      let (t, counts, done, f) =
        handle_all-counts ps u unlocked
          (omega (arith, ap length queued, length-append s.peer_count_chan (_ ∷ []))) in
      (
        t,
        _ ∷ counts,
        step_lem p ps s u e ∙ done,
        f ∙ (ap (λ xs. xs ++ counts) queued ∙ append_assoc s.peer_count_chan (_ ∷ []) counts),
      )

  start-first :
      (float32 : ℕ → ℕ) (o : Ocr st) (n : ℕ) (later : List ℕ)
      → o.server.peer_count_chan ≡ n ∷ later
      → (o' : Ocr st) × (start st float32 o ≡ next tt o')
        × (o'.pacemaker.stats.n ≡ n)
        × (o'.pacemaker.stats.f ≡ faulty_count float32 n)
  unfolding start set_ocr_context count_peers register_handler
  start-first float32 o n later e =
      let begun = register_handler st topic_reporter reporter_handler (
        register_handler st topic_pacemaker pacemaker_handler (record o {
          ctx = record (o.ctx) { id = st.id };
          pacemaker = attach_msg_layer st.codec o.pacemaker;
        })) in
      let counted = record begun {
        server = record (o.server) { peer_count_chan = later };
        ctx = record (begun.ctx) { peer_count = n; faulty_count = faulty_count float32 n };
      } in
      let received : count_peers st float32 begun ≡ next tt counted = rw (e, count_peers) refl in
      (
        record counted {
          pacemaker = set_ocr_context (faulty_count float32 n) n st.id begun.pacemaker;
        },
        rw (received, ◌>>◌) refl,
        refl,
        refl,
      )

  -- If float32 is exact on whole numbers up to 2 ^ 24, and a tree with one peer has size 1, then a node
  -- whose new server has found any number of peers, at least one and at most 1000, before it starts,
  -- counts only the first: it reckons with one node and no faulty ones.
  pub first_peer_decides :
      (float32 : ℕ → ℕ) (p : Peer) (ps : List Peer) (transporter : LibP2pTransport st.Host)
      → IsExact float32
      → ((k : String) (q : ProtcolPeer) → st.avl.size (st.avl.put k q st.avl.new) ≡ 1)
      → length ps < channel_size
      → (s : Server st) × (o : Ocr st) × (handle_all (p ∷ ps) (new_server st transporter)
          ≡ next tt s)
        × (start st float32 (new_ocr st s) ≡ next tt o)
        × (o.pacemaker.stats.n ≡ 1)
        × (o.pacemaker.stats.f ≡ 0)
  unfolding new_server new_ocr faulty_count
  first_peer_decides float32 p ps transporter exact one few =
      let s0 = new_server st transporter in
      let (u, e, unlocked, queued) = handle_new_peer-counts p s0 refl (omega arith) in
      let (s, counts, done, f) =
        handle_all-counts ps u unlocked (omega (arith, ap length queued)) in
      let size_one = one p.id (record { server_id = ""; peer = some p }) in
      let chan = f ∙ (ap (λ xs. xs ++ counts) queued ∙ ap (λ n. n ∷ counts) size_one) in
      let (o, started, n, faults) = start-first float32 (new_ocr st s) 1 counts chan in
      (s, o, step_lem p ps s0 u e ∙ done, started, n, faults ∙ exact 0 (omega arith))
