-- ===== src/Consensus/Stored.antt =====
-- The invariant of the tally: its maps have distinct keys, every count is covered by signatories of
-- the reports read, and a counted hash has a stored report with a value of that hash.
use eavesdrop.Prelude.{
  ℕ, ◌+◌, ◌≤◌, ◌<◌, String, ◌≡◌, ◌&&◌, some, List, [], ◌∷◌, Bytes, ◌==◌, arith, string_eq, bytes_eq,
  if◌then◌else◌, beq_cases, inl, inr, All, length, foldl, Option-cases, All-append, All-of-mem,
  mem-perm,
}
use eavesdrop.GoMap.{GoMap, MapOrder, lookup, assign, fetch, IsMap}
use eavesdrop.GoMap.Entries.{lookup-assign, fetch-assign, assign-IsMap, fetch_of_lookup, lookup-mem}
use eavesdrop.Rpc.{Signatories}
use eavesdrop.Jobs.{Value, nil_value}
use eavesdrop.Consensus.{
  Report, Hashing, Tally, no_votes, digest, init_job, record_vote, count_entry, count_report, tally,
  signatory, stored_value,
}
use eavesdrop.Consensus.Tallies.{
  count_of, signers_of, signers_of-record_vote, signers_of-init_job, counted_are_signed,
  count_of-record_vote, count_of-init_job,
}

abbrev pub counts_of : String → Tally → GoMap Bytes ℕ
counts_of j t = fetch [] j t.hash_count

init_job-keys : (k : String) (t : Tally) → IsMap t.hash_count → IsMap (init_job k t).hash_count
unfolding init_job
init_job-keys k t m = elim (Option-cases (lookup k t.hash_count)) [
  | inl e ↦ rw (e, init_job) (assign-IsMap k [] t.hash_count m)
  | inr (_, e) ↦ rw (e, init_job) m
]

counts_of-init_job : (k j : String) (t : Tally) → counts_of j (init_job k t) ≡ counts_of j t
unfolding init_job fetch
counts_of-init_job k j t = ground (arith, lookup-assign k j [] t.hash_count, string_eq.beq_iff k j)

record_vote-keys :
    (r : Report) (k : String) (g : Bytes) (t : Tally)
    → IsMap t.hash_count
    → IsMap (record_vote r k g t).hash_count
unfolding record_vote
record_vote-keys r k g t m = assign-IsMap k _ t.hash_count m

record_vote-inner :
    (r : Report) (k j : String) (g : Bytes) (t : Tally)
    → ((i : String) → IsMap (counts_of i t))
    → IsMap (counts_of j (record_vote r k g t))
unfolding record_vote
record_vote-inner r k j g t m =
    rw (fetch-assign [] k j (assign g (fetch 0 g (counts_of k t) + 1) (counts_of k t)) t.hash_count)
      (elim (beq_cases k j) [
        | inl (same, _) ↦ rw same (assign-IsMap g _ (counts_of k t) (m k))
        | inr other ↦ rw other (m j)
      ])

stored_value-record_vote :
    (r : Report) (k j : String) (g f : Bytes) (t : Tally)
    → stored_value (record_vote r k g t) j f
      ≡ (if k == j && g == f then fetch nil_value j r.reports else stored_value t j f)
unfolding stored_value record_vote
stored_value-record_vote r k j g f t = ground (
  arith,
  fetch-assign [] k j (assign g r.reports (fetch [] k t.final_reports)) t.final_reports,
  fetch-assign [] g f r.reports (fetch [] k t.final_reports),
  string_eq.beq_iff k j,
  bytes_eq.beq_iff g f,
)

-- A counted hash is one of a job that was seen before, whose stored reports stay.
stored_value-init_job :
    (k j : String) (f : Bytes) (t : Tally)
    → 0 < count_of j f t
    → stored_value (init_job k t) j f ≡ stored_value t j f
unfolding stored_value init_job count_of fetch lookup
stored_value-init_job k j f t pos =
    ground (arith, lookup-assign k j [] t.final_reports, string_eq.beq_iff k j)

module _ (h : Hashing) (P : Signatories → Type 0) where
  pub record IsTally (t : Tally) : Type 0 where
    pub keys : IsMap t.hash_count
    pub inner : (j : String) → IsMap (counts_of j t)
    pub signed : (j : String) (g : Bytes) → count_of j g t ≤ length (signers_of g t)
    pub genuine : (g : Bytes) → All P (signers_of g t)
    pub stored :
        (j : String) (g : Bytes) → 0 < count_of j g t → digest h (stored_value t j g) ≡ some g

  no_votes-IsTally : IsTally no_votes
  unfolding count_of fetch lookup signers_of
  no_votes-IsTally = record {
    keys = tt;
    inner = λ j. tt;
    signed = λ j g. omega arith;
    genuine = λ g. tt;
    stored = λ j g pos. absurd (omega arith);
  }

  stored-record_vote :
      (r : Report) (t : Tally) (k : String) (v : Value) (f : Bytes) (j : String) (g : Bytes)
      → lookup k r.reports ≡ some v
      → digest h v ≡ some f
      → (0 < count_of j g t → digest h (stored_value t j g) ≡ some g)
      → 0 < count_of j g (record_vote r k f (init_job k t))
      → digest h (stored_value (record_vote r k f (init_job k t)) j g) ≡ some g
  stored-record_vote r t k v f j g found e old pos = ground (
    arith,
    stored_value-record_vote r k j f g (init_job k t),
    stored_value-init_job k j g t,
    count_of-record_vote r k j f g (init_job k t),
    count_of-init_job k j g t,
    fetch_of_lookup nil_value k r.reports found,
    string_eq.beq_iff k j,
    bytes_eq.beq_iff f g,
  )

  pub genuine-record_vote :
      (r : Report) (t : Tally) (k : String) (f g : Bytes)
      → P (signatory r)
      → All P (signers_of g t)
      → All P (signers_of g (record_vote r k f (init_job k t)))
  genuine-record_vote r t k f g p all =
      rw (signers_of-record_vote r k f g (init_job k t), signers_of-init_job k g t)
        (elim (beq_cases f g) [
          | inl (same, _) ↦ rw same (All-append P _ _ all (p, tt))
          | inr other ↦ rw other all
        ])

  count_entry-IsTally :
      (r : Report) (t : Tally) (k : String) (v : Value)
      → P (signatory r)
      → lookup k r.reports ≡ some v
      → IsTally t
      → IsTally (count_entry h r t (k, v))
  unfolding count_entry
  count_entry-IsTally r t k v p found old = elim (Option-cases (digest h v)) [
    | inl e ↦ rw (e, count_entry) old
    | inr (f, e) ↦
        rw (e, count_entry)
          (record {
            keys = record_vote-keys r k f (init_job k t) (init_job-keys k t old.keys);
            inner = λ j.
                record_vote-inner r k j f (init_job k t)
                  (λ i. rw (counts_of-init_job k i t) (old.inner i));
            signed = λ j g. counted_are_signed r t k j f g (old.signed j g);
            genuine = λ g. genuine-record_vote r t k f g p (old.genuine g);
            stored = λ j g. stored-record_vote r t k v f j g found e (old.stored j g);
          })
  ]

  abbrev Found : Report → String × Value → Type 0
  Found r x = lookup x.0 r.reports ≡ some x.1

  foldl-IsTally :
      (r : Report) (es : List (String × Value)) (t : Tally)
      → P (signatory r)
      → All (Found r) es
      → IsTally t
      → IsTally (foldl (count_entry h r) t es)
  foldl-IsTally r [] t p all old = old
  foldl-IsTally r ((k, v) ∷ es) t p all old =
      foldl-IsTally r es (count_entry h r t (k, v)) p all.1
        (count_entry-IsTally r t k v p all.0 old)

  module _ (o : MapOrder) where
    visit-Found :
        (r : Report) → IsMap r.reports → All (Found r) (o.visit (String × Value) r.reports)
    visit-Found r m =
        All-of-mem (Found r) (o.visit (String × Value) r.reports)
          λ x i. lookup-mem r.reports m (mem-perm (o.visit_perm (String × Value) r.reports) i)

    reports-IsTally :
        (rs : List Report) (t : Tally)
        → All (λ r. IsMap r.reports) rs
        → All (λ r. P (signatory r)) rs
        → IsTally t
        → IsTally (foldl (count_report h o) t rs)
    unfolding count_report
    reports-IsTally [] t m p old = old
    reports-IsTally (r ∷ rs) t m p old =
        reports-IsTally rs (count_report h o t r) m.1 p.1
          (foldl-IsTally r (o.visit (String × Value) r.reports) t p.0 (visit-Found r m.0) old)

    pub tally-IsTally :
        (rs : List Report)
        → All (λ r. IsMap r.reports) rs
        → All (λ r. P (signatory r)) rs
        → IsTally (tally h o rs)
    unfolding tally
    tally-IsTally rs m p = reports-IsTally rs no_votes m p no_votes-IsTally
