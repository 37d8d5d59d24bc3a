-- ===== src/Consensus/Completeness.antt =====
-- Consensus is reached whenever f + 1 reports agree on some job.
use mathlib.Core.List.Permᴰ
use eavesdrop.Prelude.{
  ℕ, ◌+◌, ◌≤◌, ◌<◌, String, ◌≡◌, subst, some, List, [], ◌∷◌, Bytes, arith, string_eq, bytes_eq,
  nat_eq, beq_cases, beq_refl, inl, inr, All, length, foldl, leb, Option-cases, Bool-cases,
  All-of-mem, Memᴰ, mem-perm, length-append, length-take, take,
}
use eavesdrop.GoMap.{GoMap, MapOrder, lookup, fetch, IsMap}
use eavesdrop.GoMap.Entries.{lookup-assign, mem-lookup}
use eavesdrop.Rpc.{JobReports, Signatories, FinalReport}
use eavesdrop.Jobs.{Value}
use eavesdrop.Consensus.{
  Report, Hashing, Tally, Settled, tally, stored_value, first_agreed, settle_hash, settle_job,
  settle, assemble_final_report,
}
use eavesdrop.Consensus.Votes.{support}
use eavesdrop.Consensus.Tallies.{count_of, signers_of, count_of-tally}
use eavesdrop.Consensus.Stored.{IsTally, counts_of, tally-IsTally}
use eavesdrop.Consensus.Soundness.{agreed-counted}

first_agreed-some :
    (th : ℕ) (xs : List (Bytes × ℕ)) (g : Bytes) (c : ℕ)
    → Memᴰ (g, c) xs
    → th ≤ c
    → (k : Bytes) × (first_agreed th xs ≡ some k)
unfolding first_agreed
first_agreed-some th [] g c i le = elim i [ ]
first_agreed-some th ((k, d) ∷ xs) g c (Memᴰ.head e) le = (k, ground arith)
first_agreed-some th ((k, d) ∷ xs) g c (Memᴰ.tail i) le = elim (Bool-cases (leb th d)) [
  | inl enough ↦ (k, rw enough)
  | inr few ↦ rw few (first_agreed-some th xs g c i le)
]

module _ (h : Hashing) (o : MapOrder) (P : Signatories → Type 0) (t : Tally) (inv : IsTally h P t)
    (th : ℕ) (j : String) where
  -- The job is in the report, with enough signatories.
  abbrev pub Present : Settled → Type 0
  Present s = (v : Value) × (lookup j s.report ≡ some v) × (th ≤ length s.signatories)

  settle_hash-keeps :
      (s : Settled) (i : String) (g : Bytes) → Present s → Present (settle_hash th t i g s)
  unfolding settle_hash
  settle_hash-keeps s i g (v, e, le) = elim (beq_cases i j) [
    | inl (same, _) ↦
        (stored_value t i g, rw (lookup-assign i j (stored_value t i g) s.report, same), grown)
    | inr other ↦ (v, rw (lookup-assign i j (stored_value t i g) s.report, other) e, grown)
  ]
    where
      grown : th ≤ length (settle_hash th t i g s).signatories
      grown = ground (arith, length-append s.signatories (take th (fetch [] g t.hash_signatories)))

  settle_job-keeps :
      (s : Settled) (x : String × GoMap Bytes ℕ) → Present s → Present (settle_job h o th t s x)
  unfolding settle_job
  settle_job-keeps s (i, counts) p =
      elim (Option-cases (first_agreed th (o.visit (Bytes × ℕ) counts))) [
        | inl e ↦ rw (e, settle_job) p
        | inr (g, e) ↦ rw (e, settle_job) (settle_hash-keeps s i g p)
      ]

  jobs-keep :
      (xs : List (String × GoMap Bytes ℕ)) (s : Settled)
      → Present s
      → Present (foldl (settle_job h o th t) s xs)
  jobs-keep [] s p = p
  jobs-keep (x ∷ xs) s p = jobs-keep xs (settle_job h o th t s x) (settle_job-keeps s x p)

  settle_hash-Present :
      (s : Settled) (g : Bytes) → th ≤ count_of j g t → Present (settle_hash th t j g s)
  unfolding settle_hash signers_of
  settle_hash-Present s g le = (
    stored_value t j g,
    rw (lookup-assign j j (stored_value t j g) s.report, beq_refl j),
    ground (
      arith,
      inv.signed j g,
      length-append s.signatories (take th (signers_of g t)),
      length-take th (signers_of g t),
    ),
  )

  module _ (g : Bytes) (pos : 0 < th) (le : th ≤ count_of j g t) where
    -- A counted job has an entry with its counts.
    job-mem : Memᴰ (j, counts_of j t) t.hash_count
    unfolding count_of fetch lookup
    job-mem = elim (Option-cases (lookup j t.hash_count)) [
      | inl e ↦ absurd (ground arith)
      | inr (c, e) ↦ mem-lookup t.hash_count (ground arith)
    ]

    hash-mem : Memᴰ (g, count_of j g t) (counts_of j t)
    unfolding count_of fetch
    hash-mem = elim (Option-cases (lookup g (counts_of j t))) [
      | inl e ↦ absurd (ground arith)
      | inr (c, e) ↦ mem-lookup (counts_of j t) (ground arith)
    ]

    settle_job-Present : (s : Settled) → Present (settle_job h o th t s (j, counts_of j t))
    unfolding settle_job
    settle_job-Present s =
        let perm = o.visit_perm (Bytes × ℕ) (counts_of j t) in
        let (k, e) =
          first_agreed-some th (o.visit (Bytes × ℕ) (counts_of j t)) g (count_of j g t)
            (mem-perm (Permᴰ.symm perm) hash-mem) le in
        rw (e, settle_job) (settle_hash-Present s k (agreed-counted h o P t inv th j e))

    jobs-Present :
        (xs : List (String × GoMap Bytes ℕ)) (s : Settled)
        → Memᴰ (j, counts_of j t) xs
        → Present (foldl (settle_job h o th t) s xs)
    jobs-Present [] s i = elim i [ ]
    jobs-Present (x ∷ xs) s (Memᴰ.head e) =
        jobs-keep xs (settle_job h o th t s x)
          (subst (λ y. Present (settle_job h o th t s y)) e (settle_job-Present s))
    jobs-Present (x ∷ xs) s (Memᴰ.tail i) = jobs-Present xs (settle_job h o th t s x) i

    pub settle-Present : Present (settle h o th t)
    unfolding settle
    settle-Present =
        jobs-Present _ _
          (mem-perm (Permᴰ.symm (o.visit_perm (String × GoMap Bytes ℕ) t.hash_count)) job-mem)

length_of_lookup : (j : String) (m : JobReports) {v : Value} → lookup j m ≡ some v → 0 < length m
unfolding lookup
length_of_lookup j [] e = absurd (cc)
length_of_lookup j (x ∷ m) e = omega arith

module _ (h : Hashing) (o : MapOrder) (f : ℕ) (rs : List Report)
    (maps : All (λ r. IsMap r.reports) rs) where
  assembled :
      (j : String) {v : Value}
      → let s = settle h o (f + 1) (tally h o rs) in
        lookup j s.report ≡ some v
        → f + 1 ≤ length s.signatories
        → assemble_final_report h o f rs
          ≡ some (record { report = s.report; signatories = s.signatories })
  unfolding assemble_final_report
  assembled j e le = ground (arith, length_of_lookup j (settle h o (f + 1) (tally h o rs)).report e)

  -- If every report is a map, and f + 1 of them give a job a value with one hash, then a final report
  -- is assembled and holds a value for that job, in whatever order Go ranges over its maps.
  pub final_report_reached :
      (j : String) (g : Bytes)
      → f + 1 ≤ support h j g rs
      → (final : FinalReport) × (v : Value) × (assemble_final_report h o f rs ≡ some final)
        × (lookup j final.report ≡ some v)
  final_report_reached j g le =
      let t = tally h o rs in
      let inv = tally-IsTally h (λ _. Unit {0}) o rs maps (All-of-mem _ rs (λ _ _. tt)) in
      let (v, e, signed) =
        settle-Present h o (λ _. Unit {0}) t inv (f + 1) j g (omega arith)
          (rw (count_of-tally h o rs j g maps) le) in
      let s = settle h o (f + 1) t in
      (record { report = s.report; signatories = s.signatories }, v, assembled j e signed, e)
