-- ===== src/Scenarios/Reports.antt =====
-- Three reports, of which two agree, and a fourth node without a vote.
use mathlib.Core.List.Permᴰ
use eavesdrop.Prelude.{
  string_eq, bytes_eq, ℕ, ◌≤◌, String, some, List, [], ◌∷◌, ◌≡◌, refl, Bytes, Memᴰ, All, map,
  length, arith,
}
use eavesdrop.GoMap.{lookup, assign, fetch, IsMap}
use eavesdrop.Jobs.{Value, number}
use eavesdrop.Rpc.{FinalReport}
use eavesdrop.Consensus.{
  Report, digest, signatory, assemble_final_report, settle, tally, count_entry,
}
use eavesdrop.Consensus.Votes.{support}
use eavesdrop.Consensus.Tallies.{count_of, count_of-tally}
use eavesdrop.Consensus.FinalReports.{final_report_supported, final_report_signed}
use eavesdrop.Consensus.Arrival.{final_report_in_any_order}
use eavesdrop.Consensus.Completeness.{final_report_reached}
use eavesdrop.Consensus.Copies.{copies, one_sender_suffices}
use eavesdrop.Scenarios.{plain_hashing, written_order}

abbrev pub signed_by : String → ℕ → ℕ → Report
signed_by id price mark = record {
  from = id;
  reports = ("price", number price) ∷ [];
  sig = record { r = some mark; s = some mark };
}

abbrev pub three_reports : List Report
three_reports = signed_by "a" 7 1 ∷ signed_by "b" 8 2 ∷ signed_by "c" 7 3 ∷ []

abbrev pub agreed_report : FinalReport
agreed_report = record {
  report = ("price", number 7) ∷ [];
  signatories = signatory (signed_by "a" 7 1) ∷ signatory (signed_by "c" 7 3) ∷ [];
}

pub three_reports_are_maps : All (λ r. IsMap r.reports) three_reports
unfolding lookup
three_reports_are_maps = ((refl, tt), ((refl, tt), ((refl, tt), tt)))

pub three_reports_assembled :
    assemble_final_report plain_hashing written_order 1 three_reports ≡ some agreed_report
unfolding assemble_final_report settle tally count_entry lookup assign fetch
three_reports_assembled = refl

price_found : lookup "price" agreed_report.report ≡ some (number 7)
unfolding lookup
price_found = refl

final_report_supported_example :
    (g : Bytes) × (digest plain_hashing (number 7) ≡ some g)
    × (2 ≤ support plain_hashing "price" g three_reports)
final_report_supported_example =
    final_report_supported plain_hashing written_order 1 three_reports three_reports_are_maps
      agreed_report "price" (number 7) three_reports_assembled price_found

final_report_reached_example :
    (final : FinalReport) × (v : Value) × (assemble_final_report plain_hashing written_order 1
        three_reports
      ≡ some final)
    × (lookup "price" final.report ≡ some v)
unfolding lookup digest
final_report_reached_example =
    final_report_reached plain_hashing written_order 1 three_reports three_reports_are_maps "price"
      (7 ∷ []) (omega arith)

-- The reports of "a" and "b" the other way round.
abbrev shuffled_reports : List Report
shuffled_reports = signed_by "b" 8 2 ∷ signed_by "a" 7 1 ∷ signed_by "c" 7 3 ∷ []

final_report_in_any_order_example :
    (final' : FinalReport) × (v' : Value) × (assemble_final_report plain_hashing written_order 1
        shuffled_reports
      ≡ some final')
    × (lookup "price" final'.report ≡ some v')
    × (digest plain_hashing v' ≡ digest plain_hashing (number 7))
final_report_in_any_order_example =
    final_report_in_any_order plain_hashing written_order written_order 1 three_reports
      shuffled_reports agreed_report "price" (number 7) three_reports_are_maps
      (Permᴰ.swap refl refl) (omega arith) three_reports_assembled price_found

final_report_signed_example :
    (2 ≤ length agreed_report.signatories)
    × All (λ s. Memᴰ s (map signatory three_reports)) agreed_report.signatories
final_report_signed_example =
    final_report_signed plain_hashing written_order 1 three_reports three_reports_are_maps
      agreed_report three_reports_assembled

count_of-tally_example :
    count_of "price" (7 ∷ []) (tally plain_hashing written_order three_reports)
    ≡ support plain_hashing "price" (7 ∷ []) three_reports
count_of-tally_example =
    count_of-tally plain_hashing written_order three_reports "price" (7 ∷ []) three_reports_are_maps

one_sender_suffices_example :
    (final : FinalReport) × (w : Value) × (assemble_final_report plain_hashing written_order 1
        (copies 2 (signed_by "a" 7 1))
      ≡ some final)
    × (lookup "price" final.report ≡ some w)
    × All (λ s. s.id ≡ "a") final.signatories
unfolding lookup digest
one_sender_suffices_example =
    one_sender_suffices plain_hashing written_order 1 (signed_by "a" 7 1) "price" (number 7)
      (7 ∷ []) (refl, tt) refl refl
