-- ===== src/Consensus/Soundness.antt =====
-- What a final report guarantees: support by f + 1 reports for each value, and genuine signatories.
use eavesdrop.Prelude.{
  ℕ, ◌≤◌, ◌<◌, String, ◌≡◌, subst, some, List, [], ◌∷◌, Bytes, arith, string_eq, bytes_eq,
  beq_cases, inl, inr, All, length, foldl, leb, leb→le, Option-cases, Bool-cases, All-append,
  All-take, All-of-mem, Memᴰ, mem-perm,
}
use eavesdrop.GoMap.{GoMap, MapOrder, lookup, assign}
use eavesdrop.GoMap.Entries.{lookup-assign, fetch_of_lookup, lookup-mem}
use eavesdrop.Rpc.{Signatories}
use eavesdrop.Jobs.{Value}
use eavesdrop.Consensus.{
  Hashing, Tally, Settled, digest, stored_value, first_agreed, settle_hash, settle_job, settle,
}
use eavesdrop.Consensus.Tallies.{count_of, signers_of}
use eavesdrop.Consensus.Stored.{IsTally, counts_of}

pub first_agreed-mem :
    (th : ℕ) (xs : List (Bytes × ℕ)) {g : Bytes}
    → first_agreed th xs ≡ some g
    → (c : ℕ) × Memᴰ (g, c) xs × (th ≤ c)
unfolding first_agreed
first_agreed-mem th [] e = absurd (cc)
first_agreed-mem th ((f, c) ∷ xs) e = elim (Bool-cases (leb th c)) [
  | inl enough ↦ (c, Memᴰ.head (ground arith), leb→le th c enough)
  | inr few ↦ let (d, i, le) = first_agreed-mem th xs (rw few at e) in (d, Memᴰ.tail i, le)
]

module _ (h : Hashing) (o : MapOrder) (P : Signatories → Type 0) (t : Tally)
    (inv : IsTally h P t) where
  -- Every entry that the range over `jobHashCount` visits is read by its key.
  pub Visits : String × GoMap Bytes ℕ → Type 0
  Visits x = counts_of x.0 t ≡ x.1

  pub visit-Visits : All Visits (o.visit (String × GoMap Bytes ℕ) t.hash_count)
  unfolding Visits
  visit-Visits = All-of-mem Visits (o.visit (String × GoMap Bytes ℕ) t.hash_count) λ x i.
      fetch_of_lookup [] x.0 t.hash_count (
        lookup-mem t.hash_count inv.keys
          (mem-perm (o.visit_perm (String × GoMap Bytes ℕ) t.hash_count) i))

  -- A hash that the inner loop stops at was counted as often as the threshold asks.
  pub agreed-counted :
      (th : ℕ) (j : String) {g : Bytes}
      → first_agreed th (o.visit (Bytes × ℕ) (counts_of j t)) ≡ some g
      → th ≤ count_of j g t
  unfolding count_of
  agreed-counted th j {g} e =
      let (c, i, le) = first_agreed-mem th (o.visit (Bytes × ℕ) (counts_of j t)) e in
      let found =
        lookup-mem (counts_of j t) (inv.inner j)
          (mem-perm (o.visit_perm (Bytes × ℕ) (counts_of j t)) i) in
      rw (fetch_of_lookup 0 g (counts_of j t) found) le

  -- What the outer loop keeps true of `finalJobReports` and `finalSignatories`.
  pub record IsSettled (th : ℕ) (s : Settled) : Type 0 where
    pub agreed :
        (j : String) (v : Value)
        → lookup j s.report ≡ some v
        → (g : Bytes) × (digest h v ≡ some g) × (th ≤ count_of j g t)
    pub genuine : All P s.signatories

  settle_hash-agreed :
      (th : ℕ) (s : Settled) (j : String) (g : Bytes)
      → 0 < th
      → th ≤ count_of j g t
      → IsSettled th s
      → (i : String) (v : Value) → lookup i (assign j (stored_value t j g) s.report) ≡ some v
      → (f : Bytes) × (digest h v ≡ some f) × (th ≤ count_of i f t)
  settle_hash-agreed th s j g pos le old i v e = elim (beq_cases j i) [
    | inl (same, p) ↦ (
      g,
      ground (arith, lookup-assign j i (stored_value t j g) s.report, inv.stored j g (omega arith)),
      subst (λ k. th ≤ count_of k g t) p le,
    )
    | inr other ↦ old.agreed i v (ground (arith, lookup-assign j i (stored_value t j g) s.report))
  ]

  settle_hash-IsSettled :
      (th : ℕ) (s : Settled) (j : String) (g : Bytes)
      → 0 < th
      → th ≤ count_of j g t
      → IsSettled th s
      → IsSettled th (settle_hash th t j g s)
  unfolding settle_hash signers_of
  settle_hash-IsSettled th s j g pos le old = record {
    agreed = settle_hash-agreed th s j g pos le old;
    genuine = elim (Bool-cases (leb th (length (signers_of g t)))) [
      | inl enough ↦
          rw enough (All-append P _ _ old.genuine (All-take P th (signers_of g t) (inv.genuine g)))
      | inr few ↦ rw few old.genuine
    ];
  }

  settle_job-IsSettled :
      (th : ℕ) (s : Settled) (x : String × GoMap Bytes ℕ)
      → 0 < th
      → Visits x
      → IsSettled th s
      → IsSettled th (settle_job h o th t s x)
  unfolding settle_job Visits
  settle_job-IsSettled th s (j, counts) pos e old =
      elim (Option-cases (first_agreed th (o.visit (Bytes × ℕ) counts))) [
        | inl none_agreed ↦ rw (none_agreed, settle_job) old
        | inr (g, agreed) ↦
            rw (agreed, settle_job)
              (settle_hash-IsSettled th s j g pos (agreed-counted th j (rw e agreed)) old)
      ]

  jobs-IsSettled :
      (th : ℕ) (xs : List (String × GoMap Bytes ℕ)) (s : Settled)
      → 0 < th
      → All Visits xs
      → IsSettled th s
      → IsSettled th (foldl (settle_job h o th t) s xs)
  jobs-IsSettled th [] s pos all old = old
  jobs-IsSettled th (x ∷ xs) s pos all old =
      jobs-IsSettled th xs (settle_job h o th t s x) pos all.1
        (settle_job-IsSettled th s x pos all.0 old)

  pub settle-IsSettled : (th : ℕ) → 0 < th → IsSettled th (settle h o th t)
  unfolding settle lookup
  settle-IsSettled th pos =
      jobs-IsSettled th _ _ pos visit-Visits
        (record { agreed = λ j v e. absurd (cc); genuine = tt })
