-- ===== src/LeaderSelection.antt =====
-- Who leads an epoch: `findLeader` and `hashPeer` of ocr/leader_selection.go, `ProtcolPeer` of
-- ocr/server.go, `Peer` of network/peer.go, and `exponentialBackoff` of ocr/pacemaker.go.
-- HMAC-SHA256, the hexadecimal coding and fmt are parameters. The AVL tree of peers, a third-party
-- type, is the list of its values in the order in which `Each` visits them.
pub mod Minimum
pub mod Agreement
pub mod Backoff
use eavesdrop.Prelude.{
  ℕ, ◌+◌, ◌*◌, String, Bool, true, ◌||◌, Option, none, some, List, [], ◌∷◌, ◌++◌, Bytes, ltb,
  if◌then◌else◌, length, foldl, codes, lt_bytes,
}

-- `network.Peer`
pub record Peer : Type 0 where
  pub id : String
  pub addr : String

-- `ProtcolPeer`; `none` is the nil pointer of the embedded peer.
pub record ProtcolPeer : Type 0 where
  pub server_id : String
  pub peer : Option Peer

-- hmac.New(sha256.New, key) after one Write of all bytes; hex.EncodeToString; fmt.Sprintf("%d", n).
pub record HashLibrary : Type 0 where
  pub hmac_sha256 : Bytes → Bytes → Bytes
  pub encode_to_string : Bytes → Bytes
  pub format_int : ℕ → Bytes

-- `selectedPeer` and `minHash`
pub record Selection : Type 0 where
  pub selected : Option ProtcolPeer
  pub min_hash : Bytes

abbrev is_nil : Option ProtcolPeer → Bool
is_nil none = true
is_nil (some _) = Bool.false

-- `backoff *= 2`, capped.
unfoldable pub next_backoff : ℕ → ℕ → ℕ
next_backoff max_backoff backoff =
    if ltb max_backoff (backoff * 2) then max_backoff else backoff * 2

module _ (lib : HashLibrary) where
  -- `hashPeer`
  unfoldable pub hash_peer : ℕ → Bytes → String → Bytes
  hash_peer epoch secret_key peer_id =
      lib.encode_to_string (lib.hmac_sha256 secret_key (codes peer_id ++ lib.format_int epoch))

module _ (lib : HashLibrary) (epoch : ℕ) (secret_key : Bytes) where
  -- The callback that `Each` calls for every peer.
  unfoldable pub select_peer : Selection → ProtcolPeer → Selection
  select_peer s peer =
      let peer_hash = hash_peer lib epoch secret_key peer.server_id in
      if is_nil s.selected || lt_bytes peer_hash s.min_hash
      then record { selected = some peer; min_hash = peer_hash }
      else s

  unfoldable pub closest_peer : List ProtcolPeer → Selection
  unfolding select_peer
  closest_peer peers = foldl select_peer (record { selected = none; min_hash = [] }) peers

  -- `findLeader`; `none` is nil.
  unfoldable pub find_leader : String → List ProtcolPeer → Option ProtcolPeer
  unfolding closest_peer
  find_leader self peers =
      let s = closest_peer peers in
      if ltb (length peers) 1
      then none
      else if lt_bytes (hash_peer lib epoch secret_key self) s.min_hash
      then some (record { server_id = self; peer = none })
      else s.selected

  -- `exponentialBackoff`: the list holds the peers as they are at each round of the loop. The result
  -- is the leader and the durations slept, or `none` if the list ends first.
  unfoldable pub exponential_backoff :
      ℕ → ℕ → String → List (List ProtcolPeer) → Option (ProtcolPeer × List ℕ)
  unfolding next_backoff
  exponential_backoff max_backoff backoff self [] = none
  exponential_backoff max_backoff backoff self (peers ∷ later) =
      let retry = exponential_backoff max_backoff (next_backoff max_backoff backoff) self later in
      elim (find_leader self peers) [
        | some leader ↦ some (leader, [])
        | none ↦ elim retry [ none ↦ none | some (leader, slept) ↦ some (leader, backoff ∷ slept) ]
      ]
