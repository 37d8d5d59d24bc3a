-- ===== src/Server/Locks.antt =====
-- What becomes of the server's lock.
use eavesdrop.Prelude.{◌≡◌, refl, ◌∙◌, String, true, false, none}
use eavesdrop.Go.{next, exit, blocked, Body, ◌>>◌}
use eavesdrop.LeaderSelection.{Peer}
use eavesdrop.Server.{
  Setting, Server, InternalPeerServerInfoMsg, lock, handle_new_peer, register_info, is_peer,
}

-- A lock that is free, and one that is never released.
pub lock-free :
    (st : Setting) {B : Type 0} (k : Body (Server st) B) (s : Server st)
    → s.locked ≡ false
    → (lock st >> k) s ≡ k s
unfolding lock
lock-free st k s e = rw e refl

pub lock-held :
    (st : Setting) {B : Type 0} (k : Body (Server st) B) (s : Server st)
    → s.locked ≡ true
    → (lock st >> k) s ≡ exit (blocked s)
unfolding lock
lock-held st k s e = rw e refl

module _ (st : Setting) (s : Server st) where
  -- If a free server handles an announcement of a network ID that is not among its peers, it keeps its
  -- lock: the next announcement, the next new peer and the next question whether an ID is a peer's all
  -- wait for ever.
  pub unknown_peer_locks :
      (info later : InternalPeerServerInfoMsg) (peer : Peer) (id : String)
      → s.locked ≡ false
      → st.avl.get info.network_id s.peers ≡ none
      → (stuck : Server st) × (register_info st info s ≡ next tt stuck)
        × (register_info st later stuck ≡ exit (blocked stuck))
        × (handle_new_peer st peer stuck ≡ exit (blocked stuck))
        × (is_peer st id stuck ≡ exit (blocked stuck))
  unfolding register_info handle_new_peer is_peer
  unknown_peer_locks info later peer id free unknown =
      let stuck = record s { locked = true } in
      (
        stuck,
        lock-free st _ s free ∙ rw unknown refl,
        lock-held st _ stuck refl,
        lock-held st _ stuck refl,
        lock-held st _ stuck refl,
      )
