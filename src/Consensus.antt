-- ===== src/Consensus.antt =====
-- How the leader turns attested reports into a final report: `assembleFinalReport` of ocr/leader.go,
-- and `Report` of ocr/report.go. JSON and SHA-256 are parameters, and so is the order in which Go
-- ranges over a map.
pub mod Votes
pub mod Tallies
mod Stored
pub mod Soundness
pub mod FinalReports
pub mod Completeness
pub mod Copies
pub mod Arrival
pub mod Genuine
use eavesdrop.Prelude.{
  ℕ, suc, ◌+◌, String, Bool, ◌||◌, Option, none, some, List, [], ◌∷◌, ◌++◌, Bytes, ◌==◌, nat_eq,
  string_eq, bytes_eq, ltb, leb, if◌then◌else◌, length, take, foldl,
}
use eavesdrop.GoMap.{GoMap, MapOrder, lookup, assign, fetch}
use eavesdrop.Crypto.{Signature}
use eavesdrop.Jobs.{Value, nil_value}
use eavesdrop.Rpc.{JobReports, Signatories, FinalReport}

-- `Report`: what one REPORT-RES message brought.
pub record Report : Type 0 where
  pub from : String
  pub reports : JobReports
  pub sig : Signature

-- The standard library's json.Marshal on a reported value, with `none` for its error, and
-- sha256.Sum256.
pub record Hashing : Type 0 where
  pub marshal : Value → Option Bytes
  pub sum256 : Bytes → Bytes

-- The three maps that `assembleFinalReport` fills while it reads the reports.
pub record Tally : Type 0 where
  pub hash_count : GoMap String (GoMap Bytes ℕ)
  pub final_reports : GoMap String (GoMap Bytes JobReports)
  pub hash_signatories : GoMap Bytes (List Signatories)

abbrev pub no_votes : Tally
no_votes = record { hash_count = []; final_reports = []; hash_signatories = [] }

-- `if jobHashCount[jobID] == nil { … }`
unfoldable pub init_job : String → Tally → Tally
init_job job_id t = elim (lookup job_id t.hash_count) [
  | none ↦ record t {
    hash_count = assign job_id [] t.hash_count;
    final_reports = assign job_id [] t.final_reports;
  }
  | some _ ↦ t
]

abbrev pub signatory : Report → Signatories
signatory report = record { sign = report.sig; id = report.from }

-- The rest of the loop's body: count the hash, keep the report, add the signatory.
unfoldable pub record_vote : Report → String → Bytes → Tally → Tally
record_vote report job_id hash t =
    let counts = fetch [] job_id t.hash_count in
    let kept = fetch [] job_id t.final_reports in
    record {
      hash_count = assign job_id (assign hash (fetch 0 hash counts + 1) counts) t.hash_count;
      final_reports = assign job_id (assign hash report.reports kept) t.final_reports;
      hash_signatories =
          assign hash (fetch [] hash t.hash_signatories ++ signatory report ∷ [])
            t.hash_signatories;
    }

-- The inner `for hash, count := range hashCounts` up to its `break`.
unfoldable pub first_agreed : ℕ → List (Bytes × ℕ) → Option Bytes
first_agreed threshold [] = none
first_agreed threshold ((hash, count) ∷ rest) =
    if leb threshold count then some hash else first_agreed threshold rest

-- `finalJobReports` and `finalSignatories`, while the outer loop runs.
pub record Settled : Type 0 where
  pub report : JobReports
  pub signatories : List Signatories

-- `jobFinalReports[jobID][hash][jobID]`
unfoldable pub stored_value : Tally → String → Bytes → Value
stored_value t job_id hash =
    fetch nil_value job_id (fetch [] hash (fetch [] job_id t.final_reports))

unfoldable pub settle_hash : ℕ → Tally → String → Bytes → Settled → Settled
unfolding stored_value
settle_hash threshold t job_id hash acc =
    let signers = fetch [] hash t.hash_signatories in
    record {
      report = assign job_id (stored_value t job_id hash) acc.report;
      signatories =
          if leb threshold (length signers)
          then acc.signatories ++ take threshold signers
          else acc.signatories;
    }

module _ (h : Hashing) where
  -- The digest of a response, if it can be serialised.
  unfoldable pub digest : Value → Option Bytes
  digest v = elim (h.marshal v) [ none ↦ none | some bytes ↦ some (h.sum256 bytes) ]

  -- The body of `for jobID, response := range report.reports`.
  unfoldable pub count_entry : Report → Tally → String × Value → Tally
  unfolding init_job record_vote digest
  count_entry report t (job_id, response) = elim (digest response) [
    | none ↦ t
    | some hash ↦ record_vote report job_id hash (init_job job_id t)
  ]

module _ (h : Hashing) (o : MapOrder) where
  unfoldable pub count_report : Tally → Report → Tally
  count_report t report = foldl (count_entry h report) t (o.visit (String × Value) report.reports)

  unfoldable pub tally : List Report → Tally
  unfolding count_report
  tally reports = foldl count_report no_votes reports

  -- The body of `for jobID, hashCounts := range jobHashCount`.
  unfoldable pub settle_job : ℕ → Tally → Settled → String × GoMap Bytes ℕ → Settled
  unfolding first_agreed settle_hash
  settle_job threshold t acc (job_id, hash_counts) =
      elim (first_agreed threshold (o.visit (Bytes × ℕ) hash_counts)) [
        | none ↦ acc
        | some hash ↦ settle_hash threshold t job_id hash acc
      ]

  unfoldable pub settle : ℕ → Tally → Settled
  unfolding settle_job
  settle threshold t =
      foldl (settle_job threshold t) (record { report = []; signatories = [] })
        (o.visit (String × GoMap Bytes ℕ) t.hash_count)

  -- `assembleFinalReport` at `pacemakerGlobals.f` and the reports received; `none` is `nil, false`.
  unfoldable pub assemble_final_report : ℕ → List Report → Option FinalReport
  assemble_final_report f reports =
      let threshold = f + 1 in
      let settled = settle threshold (tally reports) in
      if length settled.report == 0 || ltb (length settled.signatories) threshold
      then none
      else some (record { report = settled.report; signatories = settled.signatories })
