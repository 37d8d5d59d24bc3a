-- ===== src/Reporter/Settling.antt =====
-- From the first REPORT-RES to the final report: what the leader does with one message of each other node.
use mathlib.Core.List.{append_assoc}
use eavesdrop.Prelude.{
  ◌+◌, ◌≤◌, ◌<◌, ◌≡◌, refl, ◌∙◌, ap, String, true, string_eq, length-append, some, List, [], ◌∷◌,
  ◌++◌, Bytes, length, map, All, arith,
}
use eavesdrop.GoMap.{lookup, IsMap}
use eavesdrop.Crypto.{Signature, PublicKey, string_to_public_key, verify}
use eavesdrop.Jobs.{Value}
use eavesdrop.Rpc.{ReportRes, report_res, FinalReport}
use eavesdrop.Consensus.{Report, digest, assemble_final_report}
use eavesdrop.Consensus.Votes.{support}
use eavesdrop.Consensus.Completeness.{final_report_reached}
use eavesdrop.Consensus.FinalReports.{final_report_supported}
use eavesdrop.Go.{next, Body, ◌>>◌, pure, listened}
use eavesdrop.Reporter.{Engine, Env, phase_final}
use eavesdrop.Reporter.Lifecycle.{zero_report}
use eavesdrop.Reporter.Leader.{handle_report_res, append_report}
use eavesdrop.Reporter.Reports.{report_res_settles, report_res_waits}

-- A REPORT-RES as it arrives.
pub record Response : Type 0 where
  pub message : ReportRes
  pub from_id : String
  pub sig : Signature

abbrev pub report_of : Response → Report
report_of x = record { from = x.from_id; reports = x.message.reports; sig = x.sig }

module _ (env : Env) where
  -- Its signature is verified under the key that its sender's ID spells.
  abbrev pub IsSigned : Response → Type 0
  IsSigned x =
      (msg : Bytes) × (pk : PublicKey) × (env.codec.encode (report_res x.message) ≡ some msg)
      × (string_to_public_key env.crypto x.from_id ≡ some pk)
      × (verify env.crypto x.sig msg pk ≡ some true)

  -- The messages one after the other.
  abbrev pub handle_responses : List Response → Body Engine (Unit {0})
  handle_responses [] = pure tt
  handle_responses (x ∷ xs) = do
    handle_report_res env x.message x.from_id x.sig
    handle_responses xs

  step_lem :
      (x : Response) (xs : List Response) (re s : Engine)
      → handle_report_res env x.message x.from_id x.sig re ≡ next tt s
      → handle_responses (x ∷ xs) re ≡ handle_responses xs s
  step_lem x xs re s e = rw (e, ◌>>◌) refl

  -- The leader that holds the reports `rs`, and is given the rest.
  settles :
      (x : Response) (xs : List Response) (rs : List Report) (re : Engine) (final : FinalReport)
      → All IsSigned (x ∷ xs)
      → re.leader_state.reports ≡ zero_report ∷ rs
      → length rs + length xs + 2 ≡ re.globals.n
      → re.leader_state.phase_ch ≡ listened
      → assemble_final_report env.hashing env.order re.globals.f (rs ++ map report_of (x ∷ xs))
        ≡ some final
      → (s : Engine) × (handle_responses (x ∷ xs) re ≡ next tt s)
        × (s.leader_state.final_report ≡ some final)
        × (s.leader_state.phase ≡ phase_final)
        × (s.signals ≡ re.signals ++ phase_final ∷ [])
  unfolding append_report
  settles x [] rs re final ((msg, pk, encoded, key, valid), _) held count ready e =
      let (s, done, stored, phase, signalled) =
        report_res_settles env re x.message x.from_id x.sig msg pk rs encoded key valid held final
          (omega (arith, count)) ready e in
      (s, step_lem x [] re s done, stored, phase, signalled)
  settles x (y ∷ ys) rs re final ((msg, pk, encoded, key, valid), signed) held count ready e =
      let waiting = append_report (report_of x) re in
      let waits =
        report_res_waits env re x.message x.from_id x.sig msg pk rs encoded key valid held
          (omega (arith, count)) in
      let (s, done, stored, phase, signalled) =
        settles y ys (rs ++ report_of x ∷ []) waiting final signed
          (ap (λ l. l ++ report_of x ∷ []) held)
          (omega (arith, length-append rs (report_of x ∷ []), count)) ready
          (ap (assemble_final_report env.hashing env.order re.globals.f)
              (append_assoc rs (report_of x ∷ []) (map report_of (y ∷ ys)))
            ∙ e) in
      (s, step_lem x (y ∷ ys) re waiting waits ∙ done, stored, phase, signalled)

  -- A leader, its orchestrator listening, holds the empty report only. It gets a REPORT-RES from each
  -- node of n but one, at least one in all, each with a signature that is valid under its sender's key
  -- and with a map of reports. If f + 1 of them give a job a value with one hash, then after the last it
  -- has moved to the final phase, announced that once, and stored a final report with a value for that
  -- job, the hash of which f + 1 of the messages give.
  pub responses_settle :
      (xs : List Response) (re : Engine) (job_id : String) (hash : Bytes)
      → All IsSigned xs
      → All (λ r. IsMap r.reports) (map report_of xs)
      → 0 < length xs
      → length xs + 1 ≡ re.globals.n
      → re.leader_state.reports ≡ zero_report ∷ []
      → re.leader_state.phase_ch ≡ listened
      → re.globals.f + 1 ≤ support env.hashing job_id hash (map report_of xs)
      → (s : Engine) × (final : FinalReport) × (v : Value) × (agreed : Bytes) × (handle_responses xs
            re
          ≡ next tt s)
        × (s.leader_state.phase ≡ phase_final)
        × (s.signals ≡ re.signals ++ phase_final ∷ [])
        × (s.leader_state.final_report ≡ some final)
        × (lookup job_id final.report ≡ some v)
        × (digest env.hashing v ≡ some agreed)
        × (re.globals.f + 1 ≤ support env.hashing job_id agreed (map report_of xs))
  responses_settle [] re job_id hash signed maps some_sent count held ready enough =
      absurd (omega (arith, some_sent))
  responses_settle (x ∷ xs) re job_id hash signed maps some_sent count held ready enough =
      let rs = map report_of (x ∷ xs) in
      let (final, v, assembled, found) =
        final_report_reached env.hashing env.order re.globals.f rs maps job_id hash enough in
      let (agreed, digested, supported) =
        final_report_supported env.hashing env.order re.globals.f rs maps final job_id v assembled
          found in
      let (s, done, stored, phase, signalled) =
        settles x xs [] re final signed held (omega (arith, count)) ready assembled in
      (s, final, v, agreed, done, phase, signalled, stored, found, digested, supported)
