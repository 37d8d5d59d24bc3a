-- ===== src/Reporter/Registry.antt =====
-- What REPORT-REQ does to a follower, whose job registry the pacemaker leaves empty.
use eavesdrop.Prelude.{
  ◌≡◌, refl, ap, ◌∙◌, String, true, none, some, List, [], ◌∷◌, Memᴰ, mem-perm, arith, string_eq,
}
use mathlib.Core.List.Permᴰ
use eavesdrop.GoMap.{MapOrder, lookup}
use eavesdrop.Utils.{compare_hashes}
use eavesdrop.Jobs.{JobObservationResponse}
use eavesdrop.Jobs.DirectRequest.{assemble}
use eavesdrop.Go.{panicked, exit}
use eavesdrop.Rpc.{ReportReq}
use eavesdrop.Reporter.{Engine, Env, ObservationMap}
use eavesdrop.Reporter.Follower.{handle_report_req, by_job, bytes_or_nil, assemble_all}

-- A range over a map that is not empty visits some entry.
visit-cons :
    (o : MapOrder) (A : Type 0) (x : A) (xs : List A)
    → (y : A) × (ys : List A) × (o.visit A (x ∷ xs) ≡ y ∷ ys)
visit-cons o A x xs =
    first (o.visit A (x ∷ xs)) (mem-perm (Permᴰ.symm (o.visit_perm A (x ∷ xs))) (Memᴰ.head refl))
  where
    first : (zs : List A) → Memᴰ x zs → (y : A) × (ys : List A) × (zs ≡ y ∷ ys)
    first [] i = elim i [ ]
    first (z ∷ zs) i = (z, zs, refl)

module _ (env : Env) (re : Engine) where
  assemble_all-cons :
      (x : String × List JobObservationResponse)
      (rest : List (String × List JobObservationResponse))
      → assemble_all env (some []) (x ∷ rest) ≡ none
  unfolding assemble_all assemble lookup
  assemble_all-cons (j, obs) rest = refl

  -- A REPORT-REQ whose observations are those that the leader broadcast, and hold some job, makes a
  -- follower with an empty job registry panic, in whatever order Go ranges over its maps.
  pub report_req_panics :
      (m : ReportReq) (observed : ObservationMap) (x : String × List JobObservationResponse)
      (rest : List (String × List JobObservationResponse))
      → re.job_registry ≡ some []
      → env.unmarshal_observations m.observations ≡ some observed
      → compare_hashes env.crypto.sum256 (
          m.observations
          ∷ bytes_or_nil (env.marshal_observations re.cache.follower_observations)
          ∷ [])
        ≡ true
      → by_job env observed ≡ x ∷ rest
      → handle_report_req env m re ≡ exit (panicked re)
  unfolding handle_report_req
  report_req_panics m observed x rest empty decoded same jobs =
      let (y, ys, e) = visit-cons env.order (String × List JobObservationResponse) x rest in
      let visited = ap (env.order.visit (String × List JobObservationResponse)) jobs ∙ e in
      ground (arith, visited, assemble_all-cons y ys)
