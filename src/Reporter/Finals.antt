-- ===== src/Reporter/Finals.antt =====
-- The handlers of BROADCAST-FINAL-REPORT and PROGRESS-ROUND, which followers receive: the cases of
-- `ProcessMessage` of ocr/reporter.go.
use eavesdrop.Prelude.{
  ℕ, suc, ◌+◌, String, Bool, true, false, ◌&&◌, not, none, some, List, [], ◌∷◌, Bytes, ◌==◌,
  string_eq, nat_eq, ltb, leb, if◌then◌else◌,
}
use eavesdrop.Crypto.{Signature, string_to_public_key, verify}
use eavesdrop.Go.{GoError, Body, ◌>>=◌, ◌>>◌, pure, give_back, gets, modify, or_else}
use eavesdrop.Rpc.{final_report, progress_round, BroadcastFinalReport, ProgressRound, Signatories}
use eavesdrop.Reporter.{Engine, Env}
use eavesdrop.Reporter.Steps.{is_peer, checked, verify_signature, send_final_report_echo}

unfoldable pub contains : String → List String → Bool
contains id [] = false
contains id (x ∷ xs) = if x == id then true else contains id xs

abbrev pub count : List String → ℕ
count [] = 0
count (x ∷ xs) = suc (count xs)

module _ (env : Env) where
  -- The loop over the signatories: `uniqueValidators`, newest first, whose length is `validSignatures`.
  unfoldable pub count_validators :
      Bytes → ℕ → List Signatories → List String → Body Engine (List String)
  unfolding is_peer checked
  count_validators msg threshold [] unique = pure unique
  count_validators msg threshold (s ∷ rest) unique = do
    pk ← or_else (string_to_public_key env.crypto s.id) (give_back none)
    known ← is_peer s.id
    if not known then give_back none else pure tt
    valid ← checked env (verify env.crypto s.sign msg pk)
    let unique' = if valid && not (contains s.id unique) then s.id ∷ unique else unique
    let go_on = count_validators msg threshold rest unique'
    if leb threshold (count unique') then pure unique' else go_on

  -- BROADCAST-FINAL-REPORT
  unfoldable pub handle_final_report :
      BroadcastFinalReport → String → Signature → Body Engine (Unit {0})
  unfolding checked send_final_report_echo
  handle_final_report msg from_id sig = do
    msg_bytes ← or_else (env.codec.encode (final_report msg)) (give_back none)
    signed ← checked env (verify_signature env msg_bytes from_id sig)
    if not signed then give_back none else pure tt
    re ← gets (λ re. re)
    let threshold = re.globals.f + 1
    unique ← count_validators msg_bytes threshold msg.final_report.signatories []
    if ltb (count unique) threshold then give_back none else pure tt
    modify λ re. record re { cache = record (re.cache) { c_final_report = msg.final_report } }
    err ← send_final_report_echo env
    pure tt

  -- PROGRESS-ROUND: start the goroutine that moves to the next round.
  unfoldable pub handle_progress_round : ProgressRound → Signature → Body Engine (Unit {0})
  unfolding checked
  handle_progress_round msg sig = do
    msg_bytes ←
        or_else (env.codec.encode (progress_round msg)) (give_back (some GoError.encode_failed))
    re ← gets (λ re. re)
    signed ← checked env (verify_signature env msg_bytes re.leader sig)
    if not signed then give_back (some GoError.not_leader_signed) else pure tt
    modify (λ re. record re { progressing = re.progressing + 1 })
