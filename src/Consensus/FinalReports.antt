-- ===== src/Consensus/FinalReports.antt =====
-- The guarantees of `assembleFinalReport`, for every order in which Go may range over its maps.
use eavesdrop.Prelude.{
  ℕ, ◌+◌, ◌*◌, ◌≤◌, String, Bool, true, false, ◌≡◌, ◌≢◌, refl, sym, ◌∙◌, Option, none, some, List,
  [], ◌∷◌, Bytes, arith, string_eq, bytes_eq, nat_eq, if◌then◌else◌, beq_cases, inl, inr, All,
  length, Option-cases, Memᴰ, map,
}
use eavesdrop.GoMap.{MapOrder, lookup, IsMap}
use eavesdrop.Rpc.{JobReports, Signatories, FinalReport}
use eavesdrop.Jobs.{Value}
use eavesdrop.Consensus.{
  Report, Hashing, Settled, digest, tally, signatory, settle, assemble_final_report,
}
use eavesdrop.Consensus.Votes.{support, supports, same_hash}
use eavesdrop.Consensus.Tallies.{count_of-tally}
use eavesdrop.Consensus.Stored.{tally-IsTally}
use eavesdrop.Consensus.Soundness.{IsSettled, settle-IsSettled}

module _ (h : Hashing) (o : MapOrder) (f : ℕ) (rs : List Report) where
  abbrev pub settled : Settled
  settled = settle h o (f + 1) (tally h o rs)

  -- A final report is what the loops settled, with enough signatories.
  pub assembled_lem :
      (final : FinalReport)
      → assemble_final_report h o f rs ≡ some final
      → (final.report ≡ settled.report)
        × (final.signatories ≡ settled.signatories)
        × (f + 1 ≤ length settled.signatories)
  unfolding assemble_final_report
  assembled_lem final e = ground arith

  abbrev IsSigner : Signatories → Type 0
  IsSigner s = Memᴰ s (map signatory rs)

  all_signers :
      (xs : List Report)
      → ((s : Signatories) → Memᴰ s (map signatory xs) → IsSigner s)
      → All (λ r. IsSigner (signatory r)) xs
  all_signers [] k = tt
  all_signers (x ∷ xs) k =
      (k (signatory x) (Memᴰ.head refl), all_signers xs (λ s m. k s (Memᴰ.tail m)))

  module _ (maps : All (λ r. IsMap r.reports) rs) where
    settled-IsSettled :
        IsSettled h o IsSigner
          (tally h o rs)
          (tally-IsTally h IsSigner o rs maps (all_signers rs (λ s m. m)))
          (f + 1)
          settled
    settled-IsSettled = settle-IsSettled h o IsSigner (tally h o rs) _ (f + 1) (omega arith)

    -- If every report is a map, then each value of a final report has a hash that at least f + 1 of the
    -- reports give for that job, in whatever order Go ranges over its maps.
    pub final_report_supported :
        (final : FinalReport) (j : String) (v : Value)
        → assemble_final_report h o f rs ≡ some final
        → lookup j final.report ≡ some v
        → (g : Bytes) × (digest h v ≡ some g) × (f + 1 ≤ support h j g rs)
    final_report_supported final j v e found =
        let (same, _, _) = assembled_lem final e in
        let (g, d, le) = settled-IsSettled.agreed j v (rw same at found) in
        (g, d, rw (← count_of-tally h o rs j g maps) le)

    -- If every report is a map, then a final report has at least f + 1 signatories, and each of them is
    -- the sender of one of the reports, with the signature of that report.
    pub final_report_signed :
        (final : FinalReport)
        → assemble_final_report h o f rs ≡ some final
        → (f + 1 ≤ length final.signatories)
          × All (λ s. Memᴰ s (map signatory rs)) final.signatories
    final_report_signed final e =
        let (_, same, le) = assembled_lem final e in (rw same le, rw same settled-IsSettled.genuine)

at_most_one :
    (a b : Bool) → (a ≡ true → b ≡ true → ⊥) → (if a then 1 else 0) + (if b then 1 else 0) ≤ 1
at_most_one true true no_both = absurd (no_both refl refl)
at_most_one true false no_both = omega arith
at_most_one false true no_both = omega arith
at_most_one false false no_both = omega arith

same_hash_unique :
    (g k : Bytes) (d : Option Bytes) → same_hash g d ≡ true → same_hash k d ≡ true → g ≡ k
same_hash_unique g k none p q = absurd (cc)
same_hash_unique g k (some d) p q = sym ((bytes_eq.beq_iff d g).0 p) ∙ (bytes_eq.beq_iff d k).0 q

supports_unique :
    (h : Hashing) (j : String) (g k : Bytes) (m : JobReports)
    → supports h j g m ≡ true
    → supports h j k m ≡ true
    → g ≡ k
supports_unique h j g k m p q = elim (Option-cases (lookup j m)) [
  | inl e ↦ absurd (ground arith)
  | inr (v, e) ↦ same_hash_unique g k (digest h v) (ground arith) (ground arith)
]

-- Two hashes of one job have disjoint supporters.
support_disjoint :
    (h : Hashing) (j : String) (g k : Bytes) (rs : List Report)
    → g ≢ k
    → support h j g rs + support h j k rs ≤ length rs
support_disjoint h j g k [] ne = omega arith
support_disjoint h j g k (r ∷ rs) ne = omega (
  arith,
  support_disjoint h j g k rs ne,
  at_most_one (supports h j g r.reports) (supports h j k r.reports)
      (λ p q. ne (supports_unique h j g k r.reports p q)),
)

-- At most 2f + 1 reports give f + 1 votes to one hash of a job only.
pub supported_unique :
    (h : Hashing) (f : ℕ) (rs : List Report) (j : String) (g k : Bytes)
    → length rs ≤ 2 * f + 1
    → f + 1 ≤ support h j g rs
    → f + 1 ≤ support h j k rs
    → g ≡ k
supported_unique h f rs j g k few le le' = elim (beq_cases g k) [
  | inl (_, p) ↦ p
  | inr other ↦
      absurd (omega (arith, support_disjoint h j g k rs (ground (arith, bytes_eq.beq_iff g k))))
]
