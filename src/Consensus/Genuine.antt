-- ===== src/Consensus/Genuine.antt =====
-- The signatories of a final report are those of the reports, whatever the reports hold.
use eavesdrop.Prelude.{
  ℕ, ◌+◌, ◌≤◌, String, ◌≡◌, some, List, [], ◌∷◌, Bytes, string_eq, bytes_eq, inl, inr, All, length,
  foldl, leb, Option-cases, Bool-cases, All-append, All-take,
}
use eavesdrop.GoMap.{GoMap, MapOrder, fetch, lookup}
use eavesdrop.Rpc.{Signatories, FinalReport}
use eavesdrop.Jobs.{Value}
use eavesdrop.Consensus.{
  Report, Hashing, Tally, Settled, no_votes, digest, signatory, count_entry, count_report, tally,
  first_agreed, settle_hash, settle_job, settle, assemble_final_report,
}
use eavesdrop.Consensus.Tallies.{signers_of}
use eavesdrop.Consensus.Stored.{genuine-record_vote}
use eavesdrop.Consensus.FinalReports.{assembled_lem}

module _ (h : Hashing) (P : Signatories → Type 0) where
  abbrev Signers : Tally → Type 0
  Signers t = (g : Bytes) → All P (signers_of g t)

  count_entry-Signers :
      (r : Report) (t : Tally) (x : String × Value)
      → P (signatory r)
      → Signers t
      → Signers (count_entry h r t x)
  unfolding count_entry
  count_entry-Signers r t (k, v) p old = elim (Option-cases (digest h v)) [
    | inl e ↦ rw (e, count_entry) old
    | inr (f, e) ↦ rw (e, count_entry) (λ g. genuine-record_vote h P r t k f g p (old g))
  ]

  entries-Signers :
      (r : Report) (es : List (String × Value)) (t : Tally)
      → P (signatory r)
      → Signers t
      → Signers (foldl (count_entry h r) t es)
  entries-Signers r [] t p old = old
  entries-Signers r (x ∷ es) t p old =
      entries-Signers r es (count_entry h r t x) p (count_entry-Signers r t x p old)

  module _ (o : MapOrder) where
    reports-Signers :
        (rs : List Report) (t : Tally)
        → All (λ r. P (signatory r)) rs
        → Signers t
        → Signers (foldl (count_report h o) t rs)
    unfolding count_report
    reports-Signers [] t p old = old
    reports-Signers (r ∷ rs) t p old =
        reports-Signers rs (count_report h o t r) p.1
          (entries-Signers r (o.visit (String × Value) r.reports) t p.0 old)

    settle_job-signatories :
        (th : ℕ) (t : Tally) (s : Settled) (x : String × GoMap Bytes ℕ)
        → Signers t
        → All P s.signatories
        → All P (settle_job h o th t s x).signatories
    unfolding settle_job settle_hash signers_of
    settle_job-signatories th t s (j, counts) signers old =
        elim (Option-cases (first_agreed th (o.visit (Bytes × ℕ) counts))) [
          | inl e ↦ rw (e, settle_job) old
          | inr (g, e) ↦ elim (Bool-cases (leb th (length (signers_of g t)))) [
            | inl enough ↦
                rw (e, settle_job, enough)
                  (All-append P _ _ old (All-take P th (signers_of g t) (signers g)))
            | inr few ↦ rw (e, settle_job, few) old
          ]
        ]

    jobs-signatories :
        (th : ℕ) (t : Tally) (xs : List (String × GoMap Bytes ℕ)) (s : Settled)
        → Signers t
        → All P s.signatories
        → All P (foldl (settle_job h o th t) s xs).signatories
    jobs-signatories th t [] s signers old = old
    jobs-signatories th t (x ∷ xs) s signers old =
        jobs-signatories th t xs (settle_job h o th t s x) signers
          (settle_job-signatories th t s x signers old)

    -- At least f + 1 signatories, each of them a report's.
    pub assembled-signatories :
        (f : ℕ) (rs : List Report) (final : FinalReport)
        → All (λ r. P (signatory r)) rs
        → assemble_final_report h o f rs ≡ some final
        → (f + 1 ≤ length final.signatories) × All P final.signatories
    unfolding tally settle fetch lookup signers_of
    assembled-signatories f rs final p e =
        let (_, same, le) = assembled_lem h o f rs final e in
        (
          rw same le,
          rw same (
              jobs-signatories (f + 1) (tally h o rs)
                (o.visit (String × GoMap Bytes ℕ) (tally h o rs).hash_count)
                (record { report = []; signatories = [] }) (reports-Signers rs no_votes p (λ g. tt))
                tt),
        )
