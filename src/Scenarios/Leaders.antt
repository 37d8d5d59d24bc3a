-- ===== src/Scenarios/Leaders.antt =====
-- Two nodes of a network of three, which elect a leader.
use eavesdrop.Prelude.{
  String, some, none, List, [], ◌∷◌, ◌++◌, ◌≡◌, refl, Bytes, Memᴰ, arith, sym, subst, ap, ◌∙◌, ◌==◌,
  nat_eq, if◌then◌else◌,
}
use eavesdrop.LeaderSelection.{
  ProtcolPeer, HashLibrary, hash_peer, find_leader, exponential_backoff,
}
use eavesdrop.LeaderSelection.Minimum.{ids, IsLeast, find_leader-IsLeast}
use eavesdrop.LeaderSelection.Agreement.{leaders_agree}
use eavesdrop.LeaderSelection.Backoff.{replicate, backoffs, backoff_doubles}

-- A keyed hash that keeps its data, and numbers as single bytes.
abbrev pub plain_hmac : HashLibrary
plain_hmac = record {
  hmac_sha256 = λ key data_bytes. data_bytes;
  encode_to_string = λ b. b;
  format_int = λ n. n ∷ [];
}

abbrev pub peer_of : String → ProtcolPeer
peer_of id = record { server_id = id; peer = none }

-- The peers as node "b" and as node "c" know them; node "a" leads.
abbrev pub peers_of_b : List ProtcolPeer
peers_of_b = peer_of "a" ∷ peer_of "c" ∷ []

abbrev peers_of_c : List ProtcolPeer
peers_of_c = peer_of "b" ∷ peer_of "a" ∷ []

leader_of_b : find_leader plain_hmac 5 [] "b" peers_of_b ≡ some (peer_of "a")
unfolding find_leader hash_peer
leader_of_b = refl

leader_of_c : find_leader plain_hmac 5 [] "c" peers_of_c ≡ some (peer_of "a")
unfolding find_leader hash_peer
leader_of_c = refl

find_leader-IsLeast_example :
    Memᴰ "a" ("b" ∷ ids peers_of_b) × IsLeast plain_hmac 5 [] "a" ("b" ∷ ids peers_of_b)
find_leader-IsLeast_example =
    find_leader-IsLeast plain_hmac 5 [] "b" peers_of_b (peer_of "a") leader_of_b

backoff_doubles_example :
    exponential_backoff plain_hmac 5 [] 300 2 "b" (replicate 3 [] ++ peers_of_b ∷ [])
    ≡ some (peer_of "a", backoffs 300 2 0 3)
backoff_doubles_example =
    backoff_doubles plain_hmac 5 [] 300 2 "b" (peer_of "a") peers_of_b [] leader_of_b 3
      (omega arith)

abbrev ids_of_b : List String
ids_of_b = "b" ∷ ids peers_of_b

abbrev ids_of_c : List String
ids_of_c = "c" ∷ ids peers_of_c

known_to_c : (id : String) → Memᴰ id ids_of_b → Memᴰ id ids_of_c
known_to_c id (Memᴰ.head e) = Memᴰ.tail (Memᴰ.head e)
known_to_c id (Memᴰ.tail (Memᴰ.head e)) = Memᴰ.tail (Memᴰ.tail (Memᴰ.head e))
known_to_c id (Memᴰ.tail (Memᴰ.tail (Memᴰ.head e))) = Memᴰ.head e
known_to_c id (Memᴰ.tail (Memᴰ.tail (Memᴰ.tail i))) = elim i [ ]

known_to_b : (id : String) → Memᴰ id ids_of_c → Memᴰ id ids_of_b
known_to_b id (Memᴰ.head e) = Memᴰ.tail (Memᴰ.tail (Memᴰ.head e))
known_to_b id (Memᴰ.tail (Memᴰ.head e)) = Memᴰ.head e
known_to_b id (Memᴰ.tail (Memᴰ.tail (Memᴰ.head e))) = Memᴰ.tail (Memᴰ.head e)
known_to_b id (Memᴰ.tail (Memᴰ.tail (Memᴰ.tail i))) = elim i [ ]

abbrev hash_of : String → Bytes
hash_of = hash_peer plain_hmac 5 []

-- The node that a hash belongs to, by its first byte.
abbrev owner : Bytes → String
owner [] = ""
owner (b ∷ _) = if b == 97 then "a" else if b == 98 then "b" else "c"

owner-hash_of : (id : String) → Memᴰ id ids_of_b → owner (hash_of id) ≡ id
unfolding hash_peer
owner-hash_of id (Memᴰ.head e) = subst (λ x. owner (hash_of x) ≡ x) (sym e) refl
owner-hash_of id (Memᴰ.tail (Memᴰ.head e)) = subst (λ x. owner (hash_of x) ≡ x) (sym e) refl
owner-hash_of id (Memᴰ.tail (Memᴰ.tail (Memᴰ.head e))) =
    subst (λ x. owner (hash_of x) ≡ x) (sym e) refl
owner-hash_of id (Memᴰ.tail (Memᴰ.tail (Memᴰ.tail i))) = elim i [ ]

hash_of_injective :
    (a b : String) → Memᴰ a ids_of_b → Memᴰ b ids_of_b → hash_of a ≡ hash_of b → a ≡ b
hash_of_injective a b i j e = sym (owner-hash_of a i) ∙ (ap owner e ∙ owner-hash_of b j)

leaders_agree_example : (peer_of "a").server_id ≡ (peer_of "a").server_id
leaders_agree_example =
    leaders_agree plain_hmac 5 [] "b" "c" peers_of_b peers_of_c (peer_of "a") (peer_of "a")
      known_to_c known_to_b hash_of_injective leader_of_b leader_of_c
