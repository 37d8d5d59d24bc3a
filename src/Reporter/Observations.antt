-- ===== src/Reporter/Observations.antt =====
-- How the leader counts OBSERVE-RES messages: by message, not by sender.
use eavesdrop.Prelude.{
  ℕ, zero, suc, ◌+◌, ◌*◌, ◌≤◌, ◌≡◌, refl, ◌∙◌, String, true, some, [], ◌∷◌, ◌++◌, Bytes, arith,
  string_eq, nat_eq,
}
use eavesdrop.Crypto.{Signature, PublicKey, string_to_public_key, verify}
use eavesdrop.Rpc.{ObserveResp, observe_resp}
use eavesdrop.Go.{next, Body, ◌>>◌, pure, listened}
use eavesdrop.Reporter.{Engine, Env, phase_grace}
use eavesdrop.Reporter.Leader.{handle_observe_resp, store_observations, group_responses}

module _ (env : Env) (m : ObserveResp) (from_id : String) (sig : Signature) where
  -- The same message `n` times.
  abbrev pub repeated : ℕ → Body Engine (Unit {0})
  repeated zero = pure tt
  repeated (suc n) = do handle_observe_resp env m from_id sig; repeated n

module _ (env : Env) (m : ObserveResp) (from_id : String) (sig : Signature) (msg : Bytes)
    (pk : PublicKey) (encoded : env.codec.encode (observe_resp m) ≡ some msg)
    (key : string_to_public_key env.crypto from_id ≡ some pk)
    (valid : verify env.crypto sig msg pk ≡ some true) where
  abbrev store : Engine → Engine
  store = store_observations from_id (group_responses m.job_responses)

  counted :
      (re : Engine)
      → m.round ≡ re.cur_round
      → m.epoch ≡ re.epoch
      → re.cache.observe_n + 1 ≤ 2 * re.globals.f + 1
      → handle_observe_resp env m from_id sig re ≡ next tt (store re)
  unfolding handle_observe_resp store_observations
  counted re r e few = ground arith

  full :
      (re : Engine)
      → m.round ≡ re.cur_round
      → m.epoch ≡ re.epoch
      → re.cache.observe_n ≡ 2 * re.globals.f + 1
      → re.leader_state.phase_ch ≡ listened
      → (s : Engine) × (handle_observe_resp env m from_id sig re ≡ next tt s)
        × (s.leader_state.phase ≡ phase_grace)
        × (s.signals ≡ re.signals ++ phase_grace ∷ [])
  unfolding handle_observe_resp store_observations
  full re r e many ready =
      let s = store re in
      (
        record s {
          leader_state = record (s.leader_state) { phase = phase_grace };
          signals = s.signals ++ phase_grace ∷ [];
        },
        ground arith,
        refl,
        refl,
      )

  step_lem :
      (n : ℕ) (re : Engine) (s : Engine)
      → handle_observe_resp env m from_id sig re ≡ next tt s
      → repeated env m from_id sig (suc n) re ≡ repeated env m from_id sig n s
  step_lem n re s e = ground arith

  -- The leader counts messages, not senders: if its count and `n` make 2f + 1, and its orchestrator
  -- listens, then one OBSERVE-RES of its round and epoch with a valid signature, received n + 1 times,
  -- moves it to the grace phase, which it announces once.
  pub one_sender_ends_observe :
      (n : ℕ) (re : Engine)
      → m.round ≡ re.cur_round
      → m.epoch ≡ re.epoch
      → re.cache.observe_n + n ≡ 2 * re.globals.f + 1
      → re.leader_state.phase_ch ≡ listened
      → (s : Engine) × (repeated env m from_id sig (suc n) re ≡ next tt s)
        × (s.leader_state.phase ≡ phase_grace)
        × (s.signals ≡ re.signals ++ phase_grace ∷ [])
  unfolding store_observations
  one_sender_ends_observe zero re r e many ready =
      let (s, done, p, q) = full re r e (omega arith) ready in (s, step_lem 0 re s done, p, q)
  one_sender_ends_observe (suc n) re r e many ready =
      let (s, done, p, q) = one_sender_ends_observe n (store re) r e (omega arith) ready in
      (s, step_lem (suc n) re (store re) (counted re r e (omega arith)) ∙ done, p, q)
