-- ===== src/Jobs/DirectRequest/Mean.antt =====
-- The mean that a job reports of its observations.
use eavesdrop.Prelude.{
  ℕ, ◌+◌, ◌<◌, ◌≡◌, Option, none, some, List, [], ◌∷◌, nat_eq, string_eq, arith, length, map, foldl,
  Memᴰ, Option-cases, inl, inr,
}
use eavesdrop.Jobs.{Float64, number, JobObservationResponse}
use eavesdrop.Jobs.DirectRequest.{
  JobLibrary, DirectRequest, succeeds, fails, mean_assemble, sum_responses,
}

module _ (lib : JobLibrary) where
  abbrev pub parsed : JobObservationResponse → Option Float64
  parsed res = lib.json_number res.response

  pub sum_responses-foldl :
      (obs : List JobObservationResponse) (vals : List Float64) (sum : Float64) (count : ℕ)
      → map parsed obs ≡ map some vals
      → sum_responses lib obs sum count ≡ some (foldl lib.add_float sum vals, count + length vals)
  unfolding sum_responses
  sum_responses-foldl [] [] sum count e = ground arith
  sum_responses-foldl [] (x ∷ vals) sum count e = absurd (cc)
  sum_responses-foldl (res ∷ obs) [] sum count e = absurd (cc)
  sum_responses-foldl (res ∷ obs) (x ∷ vals) sum count e =
      ground (arith, sum_responses-foldl obs vals (lib.add_float sum x) (count + 1))

  pub sum_responses-none :
      (obs : List JobObservationResponse) (res : JobObservationResponse) (sum : Float64) (count : ℕ)
      → Memᴰ res obs
      → parsed res ≡ none
      → sum_responses lib obs sum count ≡ none
  unfolding sum_responses
  sum_responses-none [] res sum count i e = elim i [ ]
  sum_responses-none (r ∷ obs) res sum count (Memᴰ.head p) e = ground arith
  sum_responses-none (r ∷ obs) res sum count (Memᴰ.tail i) e = elim (Option-cases (parsed r)) [
    | inl f ↦ ground arith
    | inr (x, f) ↦ ground (arith, sum_responses-none obs res (lib.add_float sum x) (count + 1) i)
  ]

  module _ (job : DirectRequest) (direct : job.job_type ≡ "directrequest")
      (numeric : job.params.reporting_strategy.result_type ≡ "numeric") where
    -- For a numeric direct-request job, if every observation parses as a number and there is at least one,
    -- the report is their sum, taken in order from zero, divided by their number.
    pub mean_assemble-mean :
        (obs : List JobObservationResponse) (vals : List Float64)
        → map parsed obs ≡ map some vals
        → 0 < length vals
        → mean_assemble lib job obs
          ≡ succeeds (
              number (
                lib.div_float
                  (foldl lib.add_float lib.zero_float vals)
                  (lib.float_of_int (length vals))))
    unfolding mean_assemble
    mean_assemble-mean obs vals e pos = ground (
      arith,
      sum_responses-foldl obs vals lib.zero_float 0,
      string_eq.beq_iff job.job_type "directrequest",
      string_eq.beq_iff job.params.reporting_strategy.result_type "numeric",
    )

    -- For a numeric direct-request job, one observation that is no number makes the whole report fail.
    pub mean_assemble-fails :
        (obs : List JobObservationResponse) (res : JobObservationResponse)
        → Memᴰ res obs
        → parsed res ≡ none
        → mean_assemble lib job obs ≡ fails
    unfolding mean_assemble
    mean_assemble-fails obs res i e = ground (
      arith,
      sum_responses-none obs res lib.zero_float 0 i e,
      string_eq.beq_iff job.job_type "directrequest",
      string_eq.beq_iff job.params.reporting_strategy.result_type "numeric",
    )
