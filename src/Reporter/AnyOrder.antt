-- ===== src/Reporter/AnyOrder.antt =====
-- The value that a follower reports for a job, and the order in which Go ranges over the observation map:
-- a mean of floats depends on the order of its terms, everything else does not.
use eavesdrop.Prelude.{
  ◌+◌, ◌≡◌, ◌⊎◌, refl, ap, sym, subst, ◌∙◌, String, ◌==◌, string_eq, nat_eq, true, Option, none,
  some, List, [], ◌∷◌, ◌++◌, Permᴰ, Memᴰ, foldl, length, map, if◌then◌else◌, arith, Bool-cases, inl,
  inr, Option-cases, beq_cases, mem-perm,
}
use mathlib.Core.List.{append_assoc, append-nil}
use mathlib.Core.List.Permᴰ
use eavesdrop.GoMap.{GoMap, fetch, lookup}
use eavesdrop.GoMap.Entries.{fetch-assign}
use eavesdrop.Jobs.{Float64, Value, number, JobObservationResponse}
use eavesdrop.Jobs.DirectRequest.{
  JobLibrary, DirectRequest, Attempt, succeeds, sum_responses, mean_assemble, assemble,
}
use eavesdrop.Jobs.DirectRequest.Mean.{parsed, sum_responses-foldl, sum_responses-none}
use eavesdrop.Reporter.{Env, ObservationMap, PeerObservations}
use eavesdrop.Reporter.Follower.{by_job, add_observations, add_peer}

append_swap {ℓ} : {B : Type ℓ} (xs ys zs : List B) → Permᴰ (xs ++ (ys ++ zs)) (ys ++ (xs ++ zs))
append_swap xs ys zs =
    subst (λ t. Permᴰ t (ys ++ (xs ++ zs))) (append_assoc xs ys zs)
      (subst (λ t. Permᴰ ((xs ++ ys) ++ zs) t) (append_assoc ys xs zs)
        (Permᴰ.append_right zs (Permᴰ.append_comm xs ys)))

module _ {ℓ κ} {A : Type ℓ} {B : Type κ} (g : A → List B) where
  -- The lists that `g` gives, one after the other.
  abbrev pub flat : List A → List B
  flat [] = []
  flat (x ∷ xs) = g x ++ flat xs

  flat-perm : {xs ys : List A} → Permᴰ xs ys → Permᴰ (flat xs) (flat ys)
  flat-perm Permᴰ.nil = Permᴰ.nil
  flat-perm (Permᴰ.trans p q) = Permᴰ.trans (flat-perm p) (flat-perm q)
  flat-perm (Permᴰ.cons {a} {b} {l₁} {l₂} e p) =
      subst (λ x. Permᴰ (g a ++ flat l₁) (g x ++ flat l₂)) e (Permᴰ.append_left (g a) (flat-perm p))
  flat-perm (Permᴰ.swap {a} {b} {a'} {b'} {l} e f) =
      subst (λ x. Permᴰ (g a ++ (g b ++ flat l)) (g a' ++ (g x ++ flat l))) e
        (subst (λ x. Permᴰ (g a ++ (g b ++ flat l)) (g x ++ (g a ++ flat l))) f
          (append_swap (g a) (g b) (flat l)))

flat-pointwise {ℓ κ} :
    {A : Type ℓ} {B : Type κ} (g h : A → List B) (xs : List A)
    → ((x : A) → Permᴰ (g x) (h x))
    → Permᴰ (flat g xs) (flat h xs)
flat-pointwise g h [] p = Permᴰ.nil
flat-pointwise g h (x ∷ xs) p =
    Permᴰ.trans (Permᴰ.append_right (flat g xs) (p x))
      (Permᴰ.append_left (h x) (flat-pointwise g h xs p))

module _ (j : String) where
  -- The responses for the job in an entry of a peer's observations.
  abbrev entry : String × List JobObservationResponse → List JobObservationResponse
  entry (k, obs) = if k == j then obs else []

  abbrev collected : ObservationMap → List JobObservationResponse
  collected m = flat (λ (peer : String × PeerObservations). flat entry peer.1) m

  fetch-add_observations :
      (m : GoMap String (List JobObservationResponse)) (x : String × List JobObservationResponse)
      → fetch [] j (add_observations m x) ≡ fetch [] j m ++ entry x
  unfolding add_observations
  fetch-add_observations m (k, obs) = elim (beq_cases k j) [
    | inl (same, e) ↦ rw (fetch-assign [] k j (fetch [] k m ++ obs) m, same, e) refl
    | inr other ↦
        rw (fetch-assign [] k j (fetch [] k m ++ obs) m, other) (sym (append-nil (fetch [] j m)))
  ]

  fetch-entries :
      (xs : List (String × List JobObservationResponse))
      (m : GoMap String (List JobObservationResponse))
      → fetch [] j (foldl add_observations m xs) ≡ fetch [] j m ++ flat entry xs
  fetch-entries [] m = sym (append-nil (fetch [] j m))
  fetch-entries (x ∷ xs) m =
      fetch-entries xs (add_observations m x)
      ∙ (ap (λ t. t ++ flat entry xs) (fetch-add_observations m x)
          ∙ append_assoc (fetch [] j m) (entry x) (flat entry xs))

  module _ (env : Env) where
    -- The same of a peer, in the order of a range over its entries.
    abbrev visited : String × PeerObservations → List JobObservationResponse
    visited peer = flat entry (env.order.visit (String × List JobObservationResponse) peer.1)

    fetch-add_peer :
        (m : GoMap String (List JobObservationResponse)) (x : String × PeerObservations)
        → fetch [] j (add_peer env m x) ≡ fetch [] j m ++ visited x
    unfolding add_peer
    fetch-add_peer m (id, peer) = fetch-entries (env.order.visit _ peer) m

    fetch-peers :
        (xs : List (String × PeerObservations)) (m : GoMap String (List JobObservationResponse))
        → fetch [] j (foldl (add_peer env) m xs) ≡ fetch [] j m ++ flat visited xs
    fetch-peers [] m = sym (append-nil (fetch [] j m))
    fetch-peers (x ∷ xs) m =
        fetch-peers xs (add_peer env m x)
        ∙ (ap (λ t. t ++ flat visited xs) (fetch-add_peer m x)
            ∙ append_assoc (fetch [] j m) (visited x) (flat visited xs))

    -- Whatever the order, the job gets the responses that the map has for it.
    fetch-by_job : (m : ObservationMap) → Permᴰ (fetch [] j (by_job env m)) (collected m)
    unfolding by_job fetch lookup
    fetch-by_job m =
        subst (λ t. Permᴰ t (collected m)) (sym (fetch-peers (env.order.visit _ m) []))
          (Permᴰ.trans (flat-perm visited (env.order.visit_perm _ m)) (
            flat-pointwise visited (λ peer. flat entry peer.1) m
              (λ peer. flat-perm entry (env.order.visit_perm _ peer.1))))

length-perm {ℓ} : {A : Type ℓ} {xs ys : List A} → Permᴰ xs ys → length xs ≡ length ys
length-perm Permᴰ.nil = refl
length-perm (Permᴰ.cons e p) = omega (arith, length-perm p)
length-perm (Permᴰ.swap e f) = omega arith
length-perm (Permᴰ.trans p q) = length-perm p ∙ length-perm q

module _ (lib : JobLibrary) where
  abbrev value_of : JobObservationResponse → List Float64
  value_of res = elim (parsed lib res) [ none ↦ [] | some val ↦ val ∷ [] ]

  value_of-some :
      (res : JobObservationResponse) (val : Float64)
      → parsed lib res ≡ some val
      → value_of res ≡ val ∷ []
  value_of-some res val e = ground (arith, e)

  -- All responses are numbers, or one is not.
  parsed-cases :
      (obs : List JobObservationResponse)
      → (map (parsed lib) obs ≡ map some (flat value_of obs))
        ⊎ ((res : JobObservationResponse) × Memᴰ res obs × (parsed lib res ≡ none))
  parsed-cases [] = inl refl
  parsed-cases (res ∷ obs) = elim (Option-cases (parsed lib res)) [
    | inl e ↦ inr (res, Memᴰ.head refl, e)
    | inr (val, e) ↦ elim (parsed-cases obs) [
      | inl f ↦ inl (
          ap (λ o. o ∷ map (parsed lib) obs) e
          ∙ (ap (λ t. some val ∷ t) f
              ∙ ap (λ vals. map some (vals ++ flat value_of obs)) (sym (value_of-some res val e))))
      | inr (bad, i, f) ↦ inr (bad, Memᴰ.tail i, f)
    ]
  ]

  -- The mean of numbers, added in order from zero.
  abbrev pub mean : List Float64 → Attempt Value
  mean vals = succeeds (
      number
        (lib.div_float (foldl lib.add_float lib.zero_float vals) (lib.float_of_int (length vals))))

  summed :
      (job : DirectRequest) (obs obs' : List JobObservationResponse) (vals vals' : List Float64)
      → length vals ≡ length vals'
      → sum_responses lib obs lib.zero_float 0
        ≡ some (foldl lib.add_float lib.zero_float vals, 0 + length vals)
      → sum_responses lib obs' lib.zero_float 0
        ≡ some (foldl lib.add_float lib.zero_float vals', 0 + length vals')
      → (mean_assemble lib job obs ≡ mean_assemble lib job obs')
        ⊎ ((mean_assemble lib job obs ≡ mean vals) × (mean_assemble lib job obs' ≡ mean vals'))
  unfolding mean_assemble
  summed job obs obs' vals vals' same e e' = elim (Bool-cases (job.job_type == "directrequest")) [
    | inr other ↦ inl (ground (arith, other))
    | inl direct ↦ elim (Bool-cases (job.params.reporting_strategy.result_type == "numeric")) [
      | inr other ↦ inl (ground (arith, other))
      | inl numeric ↦ elim (Bool-cases (length vals == 0)) [
        | inl no_vals ↦ inl (ground (arith, direct, numeric, e, e', same))
        | inr some_vals ↦
            inr
              (ground (arith, direct, numeric, e, same), ground (arith, direct, numeric, e', same))
      ]
    ]
  ]

  means :
      (job : DirectRequest) (obs obs' : List JobObservationResponse)
      → Permᴰ obs obs'
      → (mean_assemble lib job obs ≡ mean_assemble lib job obs')
        ⊎ ((vals vals' : List Float64) × Permᴰ vals vals'
            × (mean_assemble lib job obs ≡ mean vals)
            × (mean_assemble lib job obs' ≡ mean vals'))
  unfolding mean_assemble
  means job obs obs' p = elim (parsed-cases obs) [
    | inr (bad, i, e) ↦
        let failed = sum_responses-none lib obs bad lib.zero_float 0 i e in
        let failed' = sum_responses-none lib obs' bad lib.zero_float 0 (mem-perm p i) e in
        inl (rw (failed, failed') refl)
    | inl e ↦ elim (parsed-cases obs') [
      | inr (bad, i, f) ↦
          let failed =
            sum_responses-none lib obs bad lib.zero_float 0 (mem-perm (Permᴰ.symm p) i) f in
          let done = sum_responses-foldl lib obs (flat value_of obs) lib.zero_float 0 e in
          absurd (cc)
      | inl e' ↦
          let q = flat-perm value_of p in
          elim (summed job obs obs' (flat value_of obs) (flat value_of obs') (length-perm q)
            (sum_responses-foldl lib obs (flat value_of obs) lib.zero_float 0 e)
            (sum_responses-foldl lib obs' (flat value_of obs') lib.zero_float 0 e')) [
              | inl same ↦ inl same
              | inr (done, done') ↦ inr (flat value_of obs, flat value_of obs', q, done, done')
            ]
    ]
  ]

assemble-ran :
    (lib : JobLibrary) (job : DirectRequest) (obs : List JobObservationResponse)
    → job.assembles ≡ true
    → assemble lib (some job) obs ≡ mean_assemble lib job obs
unfolding assemble
assemble-ran lib job obs ran = ground (arith, ran)

-- In two orders in which Go ranges over an observation map and the maps in it, what is assembled for a job
-- from the responses of the map is the same, or it is the mean of the same numbers, added in two orders.
pub assemble_in_any_order :
    (env env' : Env) (m : ObservationMap) (job : Option DirectRequest) (j : String)
    → let obs = fetch [] j (by_job env m) in
      let obs' = fetch [] j (by_job env' m) in
      (assemble env.jobs job obs ≡ assemble env.jobs job obs')
      ⊎ ((vals vals' : List Float64) × Permᴰ vals vals'
          × (assemble env.jobs job obs ≡ mean env.jobs vals)
          × (assemble env.jobs job obs' ≡ mean env.jobs vals'))
unfolding assemble
assemble_in_any_order env env' m none j = inl refl
assemble_in_any_order env env' m (some job) j = elim (Bool-cases job.assembles) [
  | inr never ↦ inl (ground (arith, never))
  | inl ran ↦
      let obs = fetch [] j (by_job env m) in
      let obs' = fetch [] j (by_job env' m) in
      let given = λ (os : List JobObservationResponse). assemble-ran env.jobs job os ran in
      elim (means env.jobs job (fetch [] j (by_job env m)) (fetch [] j (by_job env' m))
        (Permᴰ.trans (fetch-by_job j env m) (Permᴰ.symm (fetch-by_job j env' m)))) [
          | inl same ↦ inl (given obs ∙ (same ∙ sym (given obs')))
          | inr (vals, vals', p, done, done') ↦
              inr (vals, vals', p, given obs ∙ done, given obs' ∙ done')
        ]
]
