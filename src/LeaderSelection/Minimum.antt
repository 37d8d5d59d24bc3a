-- ===== src/LeaderSelection/Minimum.antt =====
-- The leader has the least hash of the node itself and its peers.
use eavesdrop.Prelude.{
  ℕ, ◌<◌, String, false, ◌≡◌, refl, sym, subst, inl, inr, none, some, List, [], ◌∷◌, Bytes, length,
  foldl, lt_bytes, lt_bytes_asymm, not_below_trans, not_below_refl, Memᴰ, map, arith, Bool-cases,
  All,
}
use eavesdrop.LeaderSelection.{ProtcolPeer, HashLibrary, hash_peer, select_peer, find_leader}

abbrev pub ids : List ProtcolPeer → List String
ids = map (λ p. p.server_id)

module _ (lib : HashLibrary) (epoch : ℕ) (key : Bytes) where
  abbrev hash : String → Bytes
  hash = hash_peer lib epoch key

  -- No ID has a smaller hash than this one.
  abbrev pub IsLeast : String → List String → Type 0
  IsLeast id all = All (λ other. lt_bytes (hash other) (hash id) ≡ false) all

  IsLeast-trans :
      (a b : String) (all : List String)
      → lt_bytes (hash b) (hash a) ≡ false
      → IsLeast b all
      → IsLeast a all
  IsLeast-trans a b [] p h = tt
  IsLeast-trans a b (x ∷ all) p h =
      (not_below_trans (hash a) (hash b) (hash x) p h.0, IsLeast-trans a b all p h.1)

  mem_skip :
      {a b : String} (x : String) {all : List String} → Memᴰ a (b ∷ all) → Memᴰ a (b ∷ x ∷ all)
  mem_skip x (Memᴰ.head e) = Memᴰ.head e
  mem_skip x (Memᴰ.tail i) = Memᴰ.tail (Memᴰ.tail i)

  -- The fold from a peer that is selected already.
  fold-IsLeast :
      (p : ProtcolPeer) (peers : List ProtcolPeer)
      → let s =
          foldl
            (select_peer lib epoch key)
            (record { selected = some p; min_hash = hash p.server_id })
            peers in
        (q : ProtcolPeer) × (s.selected ≡ some q)
        × (s.min_hash ≡ hash q.server_id)
        × Memᴰ q.server_id (ids (p ∷ peers))
        × IsLeast q.server_id (ids (p ∷ peers))
  unfolding select_peer
  fold-IsLeast p [] = (p, refl, refl, Memᴰ.head refl, (not_below_refl (hash p.server_id), tt))
  fold-IsLeast p (r ∷ peers) = elim (Bool-cases (lt_bytes (hash r.server_id) (hash p.server_id))) [
    | inl less ↦
        let (q, e, m, i, least) = fold-IsLeast r peers in
        rw (less, foldl)
          (
            q,
            e,
            m,
            Memᴰ.tail i,
            (
              not_below_trans (hash q.server_id) (hash r.server_id) (hash p.server_id) least.0
                  (lt_bytes_asymm (hash r.server_id) (hash p.server_id) less),
              least,
            ),
          )
    | inr more ↦
        let (q, e, m, i, least) = fold-IsLeast p peers in
        rw (more, foldl)
          (
            q,
            e,
            m,
            mem_skip r.server_id i,
            (
              least.0,
              (
                not_below_trans (hash q.server_id) (hash p.server_id) (hash r.server_id) least.0
                    more,
                least.1,
              ),
            ),
          )
  ]

  -- The ID of the leader is that of the node itself or of one of its peers, and none of these IDs has a
  -- smaller hash.
  pub find_leader-IsLeast :
      (self : String) (peers : List ProtcolPeer) (leader : ProtcolPeer)
      → find_leader lib epoch key self peers ≡ some leader
      → Memᴰ leader.server_id (self ∷ ids peers) × IsLeast leader.server_id (self ∷ ids peers)
  unfolding find_leader select_peer
  find_leader-IsLeast self [] leader e = absurd (cc)
  find_leader-IsLeast self (p ∷ peers) leader e =
      let (q, chosen, least_hash, i, least) = fold-IsLeast p peers in
      elim (Bool-cases (lt_bytes (hash self) (hash q.server_id))) [
        | inl less ↦
            let own : leader.server_id ≡ self = ground arith in
            subst (λ id. Memᴰ id (self ∷ ids (p ∷ peers)) × IsLeast id (self ∷ ids (p ∷ peers)))
              (sym own)
              (
                Memᴰ.head refl,
                (
                  not_below_refl (hash self),
                  IsLeast-trans self q.server_id (ids (p ∷ peers))
                      (lt_bytes_asymm (hash self) (hash q.server_id) less) least,
                ),
              )
        | inr more ↦
            let theirs : leader.server_id ≡ q.server_id = ground arith in
            subst (λ id. Memᴰ id (self ∷ ids (p ∷ peers)) × IsLeast id (self ∷ ids (p ∷ peers)))
              (sym theirs) (Memᴰ.tail i, (more, least))
      ]

  -- A node that has at least one peer finds a leader.
  pub find_leader_exists :
      (self : String) (peers : List ProtcolPeer)
      → 0 < length peers
      → (leader : ProtcolPeer) × (find_leader lib epoch key self peers ≡ some leader)
  unfolding find_leader select_peer
  find_leader_exists self [] h = elim h [ ]
  find_leader_exists self (p ∷ peers) h =
      let (q, chosen, least_hash, i, least) = fold-IsLeast p peers in
      elim (Bool-cases (lt_bytes (hash self) (hash q.server_id))) [
        | inl less ↦ (record { server_id = self; peer = none }, ground arith)
        | inr more ↦ (q, ground arith)
      ]
