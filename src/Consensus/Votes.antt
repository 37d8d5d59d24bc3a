-- ===== src/Consensus/Votes.antt =====
-- The votes that the reports cast for a value of a job, counted without the code's maps.
use eavesdrop.Prelude.{
  ℕ, String, Bool, false, ◌≡◌, refl, ◌&&◌, Option, none, some, List, [], ◌∷◌, Bytes, ◌==◌, arith,
  string_eq, bytes_eq, if◌then◌else◌, count_if, beq_cases, inl, inr,
}
use eavesdrop.GoMap.{lookup, IsMap}
use eavesdrop.Rpc.{JobReports}
use eavesdrop.Jobs.{Value}
use eavesdrop.Consensus.{Report, Hashing, digest}

abbrev pub same_hash : Bytes → Option Bytes → Bool
same_hash hash none = false
same_hash hash (some other) = other == hash

module _ (h : Hashing) where
  -- An entry of a report is a vote for this hash.
  abbrev pub is_vote : String → Bytes → String × Value → Bool
  is_vote job_id hash (j, v) = j == job_id && same_hash hash (digest h v)

  -- A report gives the job a value with this hash.
  abbrev pub supports : String → Bytes → JobReports → Bool
  supports job_id hash m = elim (lookup job_id m) [
    | none ↦ false
    | some v ↦ same_hash hash (digest h v)
  ]

  -- The number of reports that support the value.
  abbrev pub support : String → Bytes → List Report → ℕ
  support job_id hash reports = count_if (λ r. supports job_id hash r.reports) reports

  -- Without the key there is no vote.
  count_if-is_vote_missing :
      (job_id : String) (hash : Bytes) (m : JobReports)
      → lookup job_id m ≡ none
      → count_if (is_vote job_id hash) m ≡ 0
  unfolding lookup
  count_if-is_vote_missing job_id hash [] e = refl
  count_if-is_vote_missing job_id hash ((j, v) ∷ m) e =
      ground (arith, count_if-is_vote_missing job_id hash m)

  -- A map holds at most one vote for a job.
  pub count_if-is_vote :
      (job_id : String) (hash : Bytes) (m : JobReports)
      → IsMap m
      → count_if (is_vote job_id hash) m ≡ (if supports job_id hash m then 1 else 0)
  unfolding lookup
  count_if-is_vote job_id hash [] k = refl
  count_if-is_vote job_id hash ((j, v) ∷ m) k = elim (beq_cases j job_id) [
    | inl (same, p) ↦ ground (arith, count_if-is_vote_missing job_id hash m, k.0)
    | inr other ↦ ground (arith, count_if-is_vote job_id hash m k.1)
  ]
