-- ===== src/Consensus/Copies.antt =====
-- What copies of one report do: `assembleFinalReport` does not look at who sent a report.
use eavesdrop.Prelude.{
  ℕ, zero, suc, ◌+◌, String, true, ◌≡◌, refl, ap, some, List, [], ◌∷◌, Bytes, arith, All, map, Memᴰ,
  bytes_eq, string_eq, All-of-mem, All-mem,
}
use eavesdrop.GoMap.{MapOrder, lookup, IsMap}
use eavesdrop.Rpc.{FinalReport, Signatories}
use eavesdrop.Jobs.{Value}
use eavesdrop.Consensus.{Report, Hashing, digest, signatory, assemble_final_report}
use eavesdrop.Consensus.Votes.{support, supports}
use eavesdrop.Consensus.FinalReports.{final_report_signed}
use eavesdrop.Consensus.Completeness.{final_report_reached}

abbrev pub copies : ℕ → Report → List Report
copies zero r = []
copies (suc n) r = r ∷ copies n r

copies-All : (P : Report → Type 0) (n : ℕ) (r : Report) → P r → All P (copies n r)
copies-All P zero r p = tt
copies-All P (suc n) r p = (p, copies-All P n r p)

support-copies :
    (h : Hashing) (j : String) (g : Bytes) (n : ℕ) (r : Report)
    → supports h j g r.reports ≡ true
    → support h j g (copies n r) ≡ n
support-copies h j g zero r e = refl
support-copies h j g (suc n) r e = ground (arith, support-copies h j g n r e)

mem-copies :
    (n : ℕ) (r : Report) (s : Signatories) → Memᴰ s (map signatory (copies n r)) → s ≡ signatory r
mem-copies zero r s i = elim i [ ]
mem-copies (suc n) r s (Memᴰ.head e) = e
mem-copies (suc n) r s (Memᴰ.tail i) = mem-copies n r s i

-- A single sender who sends f + 1 copies of a report reaches consensus alone: if the report is a map
-- that gives a job a value which can be serialised, a final report is assembled that holds a value
-- for this job, and all its signatories are that sender.
pub one_sender_suffices :
    (h : Hashing) (o : MapOrder) (f : ℕ) (r : Report) (j : String) (v : Value) (g : Bytes)
    → IsMap r.reports
    → lookup j r.reports ≡ some v
    → digest h v ≡ some g
    → (final : FinalReport) × (w : Value) × (assemble_final_report h o f (copies (f + 1) r)
        ≡ some final)
      × (lookup j final.report ≡ some w)
      × All (λ s. s.id ≡ r.from) final.signatories
one_sender_suffices h o f r j v g m found d =
    let maps : All (λ r. IsMap r.reports) (copies (f + 1) r) = copies-All _ (f + 1) r m in
    let votes : supports h j g r.reports ≡ true = ground (arith, bytes_eq.beq_iff g g) in
    let (final, w, e, held) =
      final_report_reached h o f (copies (f + 1) r) maps j g
        (omega (arith, support-copies h j g (f + 1) r votes)) in
    let (_, genuine) = final_report_signed h o f (copies (f + 1) r) maps final e in
    (
      final,
      w,
      e,
      held,
      All-of-mem _ final.signatories
          (λ s i. ap (λ s. s.id) (mem-copies (f + 1) r s (All-mem _ genuine i))),
    )
