-- ===== src/Reporter/Attestation.antt =====
-- What FINAL-ECHO messages do to the leader.
use eavesdrop.Prelude.{
  String, Bool, false, ◌≡◌, refl, ◌⊎◌, Bytes, string_eq, nat_eq, arith, Option-cases, inl, inr,
}
use eavesdrop.Crypto.{Signature}
use eavesdrop.Go.{Exit, Flow, next, exit, finish}
use eavesdrop.Go.States.{state_of}
use eavesdrop.Rpc.{final_echo, DecodedMsg, FinalEcho}
use eavesdrop.Reporter.{Engine, Env}
use eavesdrop.Reporter.Steps.{verify_sig_and_peer}
use eavesdrop.Reporter.Leader.{handle_final_echo}
use eavesdrop.Reporter.Process.{process_message, dispatch}

module _ (env : Env) (re : Engine) where
  verify_sig_and_peer-false :
      (msg : Bytes) (from_id : String) (sig : Signature) (b : Bool) (s : Engine)
      → verify_sig_and_peer env msg from_id sig re ≡ next b s
      → (b ≡ false) × (s ≡ re)
  unfolding verify_sig_and_peer
  verify_sig_and_peer-false msg from_id sig b s e = ground arith

  verify_sig_and_peer-exit :
      (msg : Bytes) (from_id : String) (sig : Signature) (x : Exit Engine)
      → verify_sig_and_peer env msg from_id sig re ≡ exit x
      → state_of x ≡ re
  unfolding verify_sig_and_peer
  verify_sig_and_peer-exit msg from_id sig x e = ground arith

  verify_cases :
      (msg : Bytes) (from_id : String) (sig : Signature)
      → (verify_sig_and_peer env msg from_id sig re ≡ next false re)
        ⊎ ((x : Exit Engine) × (verify_sig_and_peer env msg from_id sig re ≡ exit x)
            × (state_of x ≡ re))
  verify_cases msg from_id sig = go (verify_sig_and_peer env msg from_id sig re) refl
    where
      go :
          (r : Flow Engine Bool)
          → verify_sig_and_peer env msg from_id sig re ≡ r
          → (verify_sig_and_peer env msg from_id sig re ≡ next false re)
            ⊎ ((x : Exit Engine) × (verify_sig_and_peer env msg from_id sig re ≡ exit x)
                × (state_of x ≡ re))
      go (next b s) e = let (p, q) = verify_sig_and_peer-false msg from_id sig b s e in inl (cc)
      go (exit x) e = inr (x, e, verify_sig_and_peer-exit msg from_id sig x e)

  pub handle_final_echo-keeps :
      (m : FinalEcho) (from_id : String) (sig : Signature)
      → state_of (finish (handle_final_echo env m from_id sig re)) ≡ re
  unfolding handle_final_echo
  handle_final_echo-keeps m from_id sig = elim (Option-cases (env.codec.encode (final_echo m))) [
    | inl e ↦ ground arith
    | inr (b, e) ↦ elim (verify_cases b from_id sig) [
      | inl never ↦ ground arith
      | inr (x, stops, same) ↦ ground arith
    ]
  ]

  -- A FINAL-ECHO message, whoever sends it and however it is signed, changes neither the leader's state,
  -- its count of attestations included, nor the signals nor what is sent.
  pub final_echo_never_counts :
      (msg : DecodedMsg) (m : FinalEcho)
      → msg.data_of ≡ final_echo m
      → ((state_of (process_message env msg re)).leader_state ≡ re.leader_state)
        × ((state_of (process_message env msg re)).signals ≡ re.signals)
        × ((state_of (process_message env msg re)).outbox ≡ re.outbox)
  unfolding process_message dispatch
  final_echo_never_counts msg m e =
      ground (arith, handle_final_echo-keeps m msg.from_id msg.signature)
