-- ===== src/LeaderSelection/Backoff.antt =====
-- How long `exponentialBackoff` sleeps before it finds a leader.
use native.Mathlib.Nat.{pow-suc, mul_assoc}
use Prim.Native.Nat.{min}
use eavesdrop.Prelude.{
  ℕ, suc, zero, ◌*◌, ◌^◌, ◌≤◌, String, ◌≡◌, some, List, [], ◌∷◌, ◌++◌, Bytes, arith,
}
use eavesdrop.LeaderSelection.{
  ProtcolPeer, HashLibrary, find_leader, next_backoff, exponential_backoff,
}

-- The sleeps of `n` rounds: the `i`-th lasts `initial * 2 ^ i`, at most `max_backoff`.
abbrev pub backoffs : ℕ → ℕ → ℕ → ℕ → List ℕ
backoffs max_backoff initial i zero = []
backoffs max_backoff initial i (suc n) =
    min (initial * 2 ^ i) max_backoff ∷ backoffs max_backoff initial (suc i) n

abbrev pub replicate {ℓ} : {A : Type ℓ} → ℕ → A → List A
replicate zero a = []
replicate (suc n) a = a ∷ replicate n a

next_backoff-min : (most x : ℕ) → next_backoff most (min x most) ≡ min (x * 2) most
unfolding next_backoff
next_backoff-min most x = ground arith

doubled : (initial i : ℕ) → initial * 2 ^ i * 2 ≡ initial * 2 ^ suc i
doubled initial i = rw (pow-suc 2 i) (mul_assoc initial (2 ^ i) 2)

module _ (lib : HashLibrary) (epoch : ℕ) (key : Bytes) (most initial : ℕ) (self : String)
    (leader : ProtcolPeer) (peers : List ProtcolPeer) (later : List (List ProtcolPeer))
    (found : find_leader lib epoch key self peers ≡ some leader) where
  backoff_from :
      (i n : ℕ)
      → exponential_backoff lib epoch key most
          (min (initial * 2 ^ i) most)
          self
          (replicate n [] ++ peers ∷ later)
        ≡ some (leader, backoffs most initial i n)
  unfolding exponential_backoff find_leader
  backoff_from i zero = ground arith
  backoff_from i (suc n) =
      rw (next_backoff-min most (initial * 2 ^ i), doubled initial i, backoff_from (suc i) n)

  -- If a node has no peers for `n` rounds, then peers among which it finds a leader, it sleeps `n` times
  -- before it returns that leader, each time twice as long as before but at most `most`, if the first
  -- sleep is at most that.
  pub backoff_doubles :
      (n : ℕ)
      → initial ≤ most
      → exponential_backoff lib epoch key most initial self (replicate n [] ++ peers ∷ later)
        ≡ some (leader, backoffs most initial 0 n)
  backoff_doubles n le =
      let start : min (initial * 2 ^ 0) most ≡ initial = omega arith in
      rw start at (backoff_from 0 n)
