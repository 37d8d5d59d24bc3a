-- ===== src/Scenarios/Answers.antt =====
-- A leader and the answers that it gets.
use eavesdrop.Prelude.{
  true, ℕ, some, List, [], ◌∷◌, ◌≡◌, refl, All, map, Bytes, String, ◌≤◌, string_eq, arith,
}
use eavesdrop.Crypto.{Signature, PublicKey, string_to_public_key, verify}
use eavesdrop.Go.{next, exit, panicked, listened}
use eavesdrop.Rpc.{ReportReq, ObserveResp, FinalReport}
use eavesdrop.Jobs.{Value, number, JobObservationResponse}
use eavesdrop.Utils.{compare_hashes}
use eavesdrop.GoMap.{lookup, fetch, assign}
use eavesdrop.Reporter.Observations.{repeated, one_sender_ends_observe}
use eavesdrop.Reporter.{Engine, Env, phase_grace, phase_final}
use eavesdrop.Reporter.Follower.{by_job, handle_report_req}
use eavesdrop.Reporter.Registry.{report_req_panics}
use eavesdrop.Reporter.Lifecycle.{zero_report}
use eavesdrop.Consensus.{digest}
use eavesdrop.Consensus.Votes.{support}
use eavesdrop.Reporter.Settling.{Response, report_of, IsSigned, handle_responses, responses_settle}
use eavesdrop.Scenarios.Engines.{plain_env, engine_at}
use eavesdrop.Scenarios.Reports.{three_reports_are_maps}

-- A leader in a network of `n` nodes that has no reports yet.
abbrev pub leader_of : ℕ → Engine
leader_of n = record (engine_at true) {
  globals = record { n = n; f = 1 };
  leader_state = record ((engine_at true).leader_state) {
    reports = zero_report ∷ [];
    phase_ch = listened;
  };
}

abbrev third_mark : Signature
third_mark = record { r = some 3; s = some 3 }

abbrev any_key : PublicKey
any_key = record { x = 1; y = 1 }

signed_by_c : verify plain_env.crypto third_mark [] any_key ≡ some true
unfolding verify
signed_by_c = refl

abbrev a_price : JobObservationResponse
a_price = record { job_id = "price"; response = 7 ∷ [] }

-- Peer "a" has observed one price.
abbrev observing_env : Env
observing_env = record plain_env {
  unmarshal_observations = λ b. some (("a", ("price", a_price ∷ []) ∷ []) ∷ []);
}

abbrev asked : ReportReq
asked = record { epoch = 3; round = 2; leader = "a"; observations = [] }

same_map : compare_hashes (λ b. b) ([] ∷ [] ∷ []) ≡ true
unfolding compare_hashes
same_map = refl

one_price :
    by_job observing_env (("a", ("price", a_price ∷ []) ∷ []) ∷ []) ≡ ("price", a_price ∷ []) ∷ []
unfolding by_job lookup fetch assign
one_price = refl

report_req_panics_example :
    handle_report_req observing_env asked (engine_at true) ≡ exit (panicked (engine_at true))
report_req_panics_example =
    report_req_panics observing_env (engine_at true) asked
      (("a", ("price", a_price ∷ []) ∷ []) ∷ []) ("price", a_price ∷ []) [] refl refl same_map
      one_price

abbrev heard_from_b : ObserveResp
heard_from_b = record { epoch = 3; round = 2; leader = "a"; job_responses = a_price ∷ [] }

key_of_b : string_to_public_key plain_env.crypto "b" ≡ some any_key
unfolding string_to_public_key
key_of_b = refl

one_sender_ends_observe_example :
    (s : Engine) × (repeated plain_env heard_from_b "b" third_mark 4 (leader_of 4) ≡ next tt s)
    × (s.leader_state.phase ≡ phase_grace)
    × (s.signals ≡ phase_grace ∷ [])
one_sender_ends_observe_example =
    one_sender_ends_observe plain_env heard_from_b "b" third_mark [] any_key refl key_of_b
      signed_by_c 3 (leader_of 4) refl refl (omega arith) refl

-- The answers of three other nodes.
abbrev pub response_of : String → ℕ → ℕ → Response
response_of id value mark = record {
  message = record { epoch = 3; round = 2; leader = "a"; reports = ("price", number value) ∷ [] };
  from_id = id;
  sig = record { r = some mark; s = some mark };
}

abbrev pub three_responses : List Response
three_responses = response_of "a" 7 1 ∷ response_of "b" 8 2 ∷ response_of "c" 7 3 ∷ []

three_responses-IsSigned : All (IsSigned plain_env) three_responses
unfolding string_to_public_key verify
three_responses-IsSigned = (
  ([], any_key, refl, refl, refl),
  (([], any_key, refl, refl, refl), (([], any_key, refl, refl, refl), tt)),
)

responses_settle_example :
    (s : Engine) × (final : FinalReport) × (v : Value) × (agreed : Bytes) × (handle_responses
        plain_env three_responses
        (leader_of 4)
      ≡ next tt s)
    × (s.leader_state.phase ≡ phase_final)
    × (s.signals ≡ phase_final ∷ [])
    × (s.leader_state.final_report ≡ some final)
    × (lookup "price" final.report ≡ some v)
    × (digest plain_env.hashing v ≡ some agreed)
    × (2 ≤ support plain_env.hashing "price" agreed (map report_of three_responses))
unfolding lookup digest
responses_settle_example =
    responses_settle plain_env three_responses (leader_of 4) "price" (7 ∷ [])
      three_responses-IsSigned three_reports_are_maps (omega arith) (omega arith) refl refl
      (omega arith)
