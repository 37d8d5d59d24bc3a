-- ===== src/Consensus/Tallies.antt =====
-- What the three maps of `assembleFinalReport` hold after any number of reports.
use eavesdrop.Prelude.{
  ℕ, ◌+◌, ◌≤◌, String, ◌≡◌, ◌&&◌, List, [], ◌∷◌, ◌++◌, Bytes, ◌==◌, arith, string_eq, bytes_eq,
  if◌then◌else◌, count_if, inl, inr, All, length, foldl, length-append, Option-cases, count_if-perm,
}
use eavesdrop.GoMap.{MapOrder, lookup, assign, fetch, IsMap}
use eavesdrop.GoMap.Entries.{lookup-assign, fetch-assign}
use eavesdrop.Rpc.{Signatories}
use eavesdrop.Jobs.{Value}
use eavesdrop.Consensus.{
  Report, Hashing, Tally, no_votes, digest, init_job, record_vote, count_entry, count_report, tally,
  signatory,
}
use eavesdrop.Consensus.Votes.{is_vote, supports, support, count_if-is_vote}

-- `jobHashCount[jobID][hash]`
unfoldable pub count_of : String → Bytes → Tally → ℕ
count_of job_id hash t = fetch 0 hash (fetch [] job_id t.hash_count)

unfoldable pub signers_of : Bytes → Tally → List Signatories
signers_of hash t = fetch [] hash t.hash_signatories

pub count_of-init_job :
    (k j : String) (g : Bytes) (t : Tally) → count_of j g (init_job k t) ≡ count_of j g t
unfolding count_of init_job fetch
count_of-init_job k j g t = ground (arith, lookup-assign k j [] t.hash_count, string_eq.beq_iff k j)

pub count_of-record_vote :
    (r : Report) (k j : String) (g h : Bytes) (t : Tally)
    → count_of j h (record_vote r k g t) ≡ (if k == j && g == h then 1 else 0) + count_of j h t
unfolding count_of record_vote
count_of-record_vote r k j g h t =
    let counts = fetch [] k t.hash_count in
    ground (
      arith,
      fetch-assign [] k j (assign g (fetch 0 g counts + 1) counts) t.hash_count,
      fetch-assign 0 g h (fetch 0 g counts + 1) counts,
      string_eq.beq_iff k j,
      bytes_eq.beq_iff g h,
    )

pub signers_of-init_job :
    (k : String) (g : Bytes) (t : Tally) → signers_of g (init_job k t) ≡ signers_of g t
unfolding signers_of init_job
signers_of-init_job k g t = ground arith

pub signers_of-record_vote :
    (r : Report) (k : String) (g h : Bytes) (t : Tally)
    → signers_of h (record_vote r k g t)
      ≡ (if g == h then signers_of h t ++ signatory r ∷ [] else signers_of h t)
unfolding signers_of record_vote
signers_of-record_vote r k g h t = ground (
  arith,
  fetch-assign [] g h (fetch [] g t.hash_signatories ++ signatory r ∷ []) t.hash_signatories,
  bytes_eq.beq_iff g h,
)

-- A vote for any job adds a signatory to its hash, so a count never passes the signatories.
pub counted_are_signed :
    (r : Report) (t : Tally) (k j : String) (f g : Bytes)
    → count_of j g t ≤ length (signers_of g t)
    → count_of j g (record_vote r k f (init_job k t))
      ≤ length (signers_of g (record_vote r k f (init_job k t)))
counted_are_signed r t k j f g le = ground (
  arith,
  count_of-record_vote r k j f g (init_job k t),
  count_of-init_job k j g t,
  signers_of-record_vote r k f g (init_job k t),
  signers_of-init_job k g t,
  length-append (signers_of g (init_job k t)) (signatory r ∷ []),
)

module _ (h : Hashing) where
  pub count_of-count_entry :
      (r : Report) (t : Tally) (x : String × Value) (j : String) (g : Bytes)
      → count_of j g (count_entry h r t x) ≡ (if is_vote h j g x then 1 else 0) + count_of j g t
  unfolding count_entry
  count_of-count_entry r t (k, v) j g = elim (Option-cases (digest h v)) [
    | inl e ↦ ground arith
    | inr (f, e) ↦
        ground (arith, count_of-record_vote r k j f g (init_job k t), count_of-init_job k j g t)
  ]

  count_of-foldl :
      (r : Report) (es : List (String × Value)) (t : Tally) (j : String) (g : Bytes)
      → count_of j g (foldl (count_entry h r) t es) ≡ count_if (is_vote h j g) es + count_of j g t
  count_of-foldl r [] t j g = omega arith
  count_of-foldl r (x ∷ es) t j g =
      omega (arith, count_of-foldl r es (count_entry h r t x) j g, count_of-count_entry r t x j g)

module _ (h : Hashing) (o : MapOrder) where
  count_of-count_report :
      (r : Report) (t : Tally) (j : String) (g : Bytes)
      → IsMap r.reports
      → count_of j g (count_report h o t r)
        ≡ (if supports h j g r.reports then 1 else 0) + count_of j g t
  unfolding count_report
  count_of-count_report r t j g k = omega (
    arith,
    count_of-foldl h r (o.visit (String × Value) r.reports) t j g,
    count_if-perm (is_vote h j g) (o.visit_perm (String × Value) r.reports),
    count_if-is_vote h j g r.reports k,
  )

  count_of-reports :
      (rs : List Report) (t : Tally) (j : String) (g : Bytes)
      → All (λ r. IsMap r.reports) rs
      → count_of j g (foldl (count_report h o) t rs) ≡ support h j g rs + count_of j g t
  count_of-reports [] t j g k = omega arith
  count_of-reports (r ∷ rs) t j g k =
      omega (
        arith,
        count_of-reports rs (count_report h o t r) j g k.1,
        count_of-count_report r t j g k.0,
      )

  -- If every report is a map, the count that the loops keep for a job and a hash is the number of
  -- reports that give the job a value with this hash, in whatever order Go ranges over its maps.
  pub count_of-tally :
      (rs : List Report) (j : String) (g : Bytes)
      → All (λ r. IsMap r.reports) rs
      → count_of j g (tally h o rs) ≡ support h j g rs
  unfolding tally count_of fetch lookup
  count_of-tally rs j g k = omega (arith, count_of-reports rs no_votes j g k)
