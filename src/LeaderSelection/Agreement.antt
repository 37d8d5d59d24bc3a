-- ===== src/LeaderSelection/Agreement.antt =====
-- Nodes that know the same IDs elect the same leader, in whatever order they hold their peers.
use eavesdrop.Prelude.{ℕ, String, ◌≡◌, some, List, ◌∷◌, Bytes, lt_bytes_antisymm, Memᴰ, All-mem}
use eavesdrop.LeaderSelection.{ProtcolPeer, HashLibrary, hash_peer, find_leader}
use eavesdrop.LeaderSelection.Minimum.{ids, find_leader-IsLeast}

module _ (lib : HashLibrary) (epoch : ℕ) (key : Bytes) where
  -- Two nodes that know the same set of IDs, themselves included and in any order, elect leaders with
  -- the same ID, if no two of these IDs have the same hash.
  pub leaders_agree :
      (self self' : String) (peers peers' : List ProtcolPeer) (leader leader' : ProtcolPeer)
      → ((id : String) → Memᴰ id (self ∷ ids peers) → Memᴰ id (self' ∷ ids peers'))
      → ((id : String) → Memᴰ id (self' ∷ ids peers') → Memᴰ id (self ∷ ids peers))
      → ((a b : String)
          → Memᴰ a (self ∷ ids peers)
          → Memᴰ b (self ∷ ids peers)
          → hash_peer lib epoch key a ≡ hash_peer lib epoch key b
          → a ≡ b)
      → find_leader lib epoch key self peers ≡ some leader
      → find_leader lib epoch key self' peers' ≡ some leader'
      → leader.server_id ≡ leader'.server_id
  leaders_agree self self' peers peers' leader leader' there back no_collision e e' =
      let (i, least) = find_leader-IsLeast lib epoch key self peers leader e in
      let (i', least') = find_leader-IsLeast lib epoch key self' peers' leader' e' in
      no_collision leader.server_id leader'.server_id i (back _ i') (
        lt_bytes_antisymm (hash_peer lib epoch key leader.server_id)
          (hash_peer lib epoch key leader'.server_id) (All-mem _ least' (there _ i))
          (All-mem _ least (back _ i')))
