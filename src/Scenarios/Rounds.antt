-- ===== src/Scenarios/Rounds.antt =====
-- A leader that assembles nothing yet, and two orders of a map.
use eavesdrop.Prelude.{ℕ, ◌≡◌, ◌≢◌, ◌⊎◌, refl, true, some, string_eq, List, [], ◌∷◌, Permᴰ, arith}
use mathlib.Core.List.Permᴰ
use eavesdrop.GoMap.{fetch}
use eavesdrop.Jobs.{Float64, JobObservationResponse}
use eavesdrop.Jobs.DirectRequest.{assemble}
use eavesdrop.Reporter.{Env, ObservationMap, phase_observe, phase_transmit}
use eavesdrop.Reporter.Follower.{by_job}
use eavesdrop.Reporter.Orchestra.{Orchestra, Step, Reach, handle_phase}
use eavesdrop.Reporter.Standstill.{round_never_changes}
use eavesdrop.Reporter.AnyOrder.{mean, assemble_in_any_order}
use eavesdrop.Scenarios.JobRuns.{price_job}
use eavesdrop.Scenarios.Engines.{plain_env, engine_at}

-- The first two entries of a map the other way round.
abbrev swap_first {ℓ} : {A : Type ℓ} → List A → List A
swap_first (x ∷ y ∷ xs) = y ∷ x ∷ xs
swap_first xs = xs

swap_first_perm {ℓ} : {A : Type ℓ} (xs : List A) → Permᴰ (swap_first xs) xs
swap_first_perm [] = Permᴰ.refl []
swap_first_perm (x ∷ []) = Permᴰ.refl (x ∷ [])
swap_first_perm (x ∷ y ∷ xs) = Permᴰ.swap refl refl

abbrev swapped_env : Env
swapped_env = record plain_env {
  order = record { visit = λ A xs. swap_first xs; visit_perm = λ A xs. swap_first_perm xs };
}

abbrev price_of : ℕ → JobObservationResponse
price_of n = record { job_id = "price"; response = n ∷ [] }

abbrev two_prices : ObservationMap
two_prices = ("a", ("price", price_of 7 ∷ []) ∷ []) ∷ ("c", ("price", price_of 9 ∷ []) ∷ []) ∷ []

assemble_in_any_order_example :
    let obs = fetch [] "price" (by_job plain_env two_prices) in
    let obs' = fetch [] "price" (by_job swapped_env two_prices) in
    (assemble plain_env.jobs (some price_job) obs ≡ assemble plain_env.jobs (some price_job) obs')
    ⊎ ((vals vals' : List Float64) × Permᴰ vals vals'
        × (assemble plain_env.jobs (some price_job) obs ≡ mean plain_env.jobs vals)
        × (assemble plain_env.jobs (some price_job) obs' ≡ mean plain_env.jobs vals'))
assemble_in_any_order_example =
    assemble_in_any_order plain_env swapped_env two_prices (some price_job) "price"

-- An engine that has signalled its observe phase.
abbrev observing : Orchestra
observing = record { engine = record (engine_at true) { signals = phase_observe ∷ [] }; graces = 0 }

abbrev observed : Orchestra
observed = handle_phase plain_env phase_observe (record observing { engine = engine_at true })

round_never_changes_example :
    (observed.engine.epoch ≡ 3)
    × (observed.engine.cur_round ≡ 2)
    × (observed.engine.leader_state.phase ≢ phase_transmit)
    × (observed.engine.progressing ≡ 0)
round_never_changes_example =
    round_never_changes plain_env observing observed refl (ground arith) (ground arith, tt)
      (Reach.then Reach.here (Step.start_phase phase_observe [] refl))
