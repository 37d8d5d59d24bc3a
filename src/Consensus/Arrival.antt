-- ===== src/Consensus/Arrival.antt =====
-- Neither the order in which the reports arrive nor the order in which Go ranges over its maps matters.
use eavesdrop.Prelude.{
  ℕ, ◌+◌, ◌*◌, ◌≤◌, String, ◌≡◌, subst, some, List, arith, string_eq, All, length, count_if-perm,
  Permᴰ,
}
use eavesdrop.GoMap.{MapOrder, lookup, IsMap}
use eavesdrop.Rpc.{FinalReport}
use eavesdrop.Jobs.{Value}
use eavesdrop.Consensus.{Report, Hashing, digest, assemble_final_report}
use eavesdrop.Consensus.Votes.{supports}
use eavesdrop.Consensus.FinalReports.{final_report_supported, supported_unique}
use eavesdrop.Consensus.Completeness.{final_report_reached}

All-perm : {A : Type 0} (P : A → Type 0) {xs ys : List A} → Permᴰ xs ys → All P xs → All P ys
All-perm P Permᴰ.nil a = a
All-perm P (Permᴰ.trans r s) a = All-perm P s (All-perm P r a)
All-perm P (Permᴰ.cons e r) a = (subst P e a.0, All-perm P r a.1)
All-perm P (Permᴰ.swap e f) a = (subst P f a.1.0, (subst P e a.0, a.1.1))

-- If at most 2f + 1 reports, each a map, make a final report with a value for a job, then the same
-- reports in any other order, under any other range order, make a final report that has a value with
-- the same hash for that job.
pub final_report_in_any_order :
    (h : Hashing) (o o' : MapOrder) (f : ℕ) (rs rs' : List Report) (final : FinalReport)
    (j : String) (v : Value)
    → All (λ r. IsMap r.reports) rs
    → Permᴰ rs rs'
    → length rs ≤ 2 * f + 1
    → assemble_final_report h o f rs ≡ some final
    → lookup j final.report ≡ some v
    → (final' : FinalReport) × (v' : Value) × (assemble_final_report h o' f rs' ≡ some final')
      × (lookup j final'.report ≡ some v')
      × (digest h v' ≡ digest h v)
final_report_in_any_order h o o' f rs rs' final j v maps perm few e found =
    let maps' = All-perm (λ r. IsMap r.reports) perm maps in
    let (g, d, le) = final_report_supported h o f rs maps final j v e found in
    let (final', v', e', found') =
      final_report_reached h o' f rs' maps' j g
        (omega (arith, count_if-perm (λ r. supports h j g r.reports) perm, le)) in
    let (g', d', le') = final_report_supported h o' f rs' maps' final' j v' e' found' in
    (
      final',
      v',
      e',
      found',
      cc (
        d,
        d',
        supported_unique h f rs j g' g few
            (omega (arith, count_if-perm (λ r. supports h j g' r.reports) perm, le')) le,
      ),
    )
