-- ===== src/Reporter/Reports.antt =====
-- When the leader assembles the reports that REPORT-RES messages bring.
use eavesdrop.Prelude.{
  ℕ, ◌+◌, ◌≤◌, ◌<◌, ◌≡◌, refl, ap, ◌∙◌, String, true, some, List, [], ◌∷◌, ◌++◌, Bytes, length,
  foldl, arith, Memᴰ, mem-perm, length-append,
}
use eavesdrop.GoMap.{MapOrder}
use eavesdrop.Crypto.{Signature, PublicKey, string_to_public_key, verify}
use eavesdrop.Jobs.{Value}
use eavesdrop.Rpc.{ReportRes, report_res, FinalReport}
use eavesdrop.Consensus.{
  Report, Hashing, no_votes, count_entry, count_report, tally, assemble_final_report,
}
use eavesdrop.Go.{next, listened}
use eavesdrop.Reporter.{Engine, Env, phase_final}
use eavesdrop.Reporter.Lifecycle.{zero_report}
use eavesdrop.Reporter.Leader.{handle_report_res, append_report}

no_members : {A : Type 0} (xs : List A) → ((a : A) → Memᴰ a xs → ⊥) → xs ≡ []
no_members [] h = refl
no_members (x ∷ xs) h = absurd (h x (Memᴰ.head refl))

visit-nil : (o : MapOrder) (A : Type 0) → o.visit A [] ≡ []
visit-nil o A = no_members (o.visit A []) (λ a i. elim (mem-perm (o.visit_perm A []) i) [ ])

-- The empty report that `initReporter` puts in front casts no vote.
tally-zero_report :
    (h : Hashing) (o : MapOrder) (rs : List Report) → tally h o (zero_report ∷ rs) ≡ tally h o rs
unfolding tally count_report
tally-zero_report h o rs = ap (λ t. foldl (count_report h o) t rs) none_counted
  where
    none_counted : count_report h o no_votes zero_report ≡ no_votes
    none_counted =
        ap (λ es. foldl (count_entry h zero_report) no_votes es) (visit-nil o (String × Value))

-- The empty report that `initReporter` puts in front of the list makes no difference to the final
-- report, in whatever order Go ranges over its maps.
pub assemble_final_report-zero_report :
    (h : Hashing) (o : MapOrder) (f : ℕ) (rs : List Report)
    → assemble_final_report h o f (zero_report ∷ rs) ≡ assemble_final_report h o f rs
unfolding assemble_final_report
assemble_final_report-zero_report h o f rs = rw (tally-zero_report h o rs) refl

module _ (env : Env) (re : Engine) (m : ReportRes) (from_id : String) (sig : Signature)
    (msg : Bytes) (pk : PublicKey) (rs : List Report)
    (encoded : env.codec.encode (report_res m) ≡ some msg)
    (key : string_to_public_key env.crypto from_id ≡ some pk)
    (valid : verify env.crypto sig msg pk ≡ some true)
    (received : re.leader_state.reports ≡ zero_report ∷ rs) where
  abbrev report : Report
  report = record { from = from_id; reports = m.reports; sig = sig }

  abbrev settled_engine : FinalReport → Engine
  settled_engine final =
      let re' = append_report report re in
      record re' {
        leader_state = record (re'.leader_state) { final_report = some final; phase = phase_final };
        signals = re.signals ++ phase_final ∷ [];
      }

  received_lem :
      ((append_report report re).leader_state.reports ≡ zero_report ∷ rs ++ report ∷ [])
      × (length (append_report report re).leader_state.reports ≡ length rs + 2)
  unfolding append_report
  received_lem =
      let e = ap (λ xs. xs ++ report ∷ []) received in
      (e, ap length e ∙ omega (arith, length-append rs (report ∷ [])))

  -- A leader whose list holds the empty report and `rs`, with its orchestrator listening, gets a
  -- REPORT-RES with a valid signature: if n is at most the length of `rs` plus 2, and `rs` with the new
  -- report agree on a final report, it stores that report, moves to the final phase and announces it.
  pub report_res_settles :
      (final : FinalReport)
      → re.globals.n ≤ length rs + 2
      → re.leader_state.phase_ch ≡ listened
      → assemble_final_report env.hashing env.order re.globals.f (rs ++ report ∷ []) ≡ some final
      → (s : Engine) × (handle_report_res env m from_id sig re ≡ next tt s)
        × (s.leader_state.final_report ≡ some final)
        × (s.leader_state.phase ≡ phase_final)
        × (s.signals ≡ re.signals ++ phase_final ∷ [])
  unfolding handle_report_res
  report_res_settles final enough ready e =
      let (all, many) = received_lem in
      (
        settled_engine final,
        ground (
          arith,
          assemble_final_report-zero_report env.hashing env.order re.globals.f (rs ++ report ∷ []),
        ),
        refl,
        refl,
        refl,
      )

  -- A leader whose list holds the empty report and `rs` gets a REPORT-RES with a valid signature: if n is
  -- more than the length of `rs` plus 2, it only appends the report.
  pub report_res_waits :
      length rs + 2 < re.globals.n
      → handle_report_res env m from_id sig re ≡ next tt (append_report report re)
  unfolding handle_report_res
  report_res_waits few = let (all, many) = received_lem in ground arith
