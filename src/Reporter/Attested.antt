-- ===== src/Reporter/Attested.antt =====
-- Whose signatures the leader's reports and its final report carry, and what a REPORT-RES changes.
use eavesdrop.Prelude.{
  ℕ, ◌+◌, ◌≤◌, ◌≡◌, ◌⊎◌, ◌∙◌, ap, sym, subst, String, true, false, Option, some, List, [], ◌∷◌,
  ◌++◌, Bytes, length, leb, All, All-append, arith, inl, inr, Option-cases, Bool-cases, string_eq,
}
use eavesdrop.Crypto.{Signature, PublicKey, string_to_public_key, verify}
use eavesdrop.Rpc.{ReportRes, report_res, FinalReport, Signatories}
use eavesdrop.Consensus.{Report, signatory, assemble_final_report}
use eavesdrop.Consensus.Genuine.{assembled-signatories}
use eavesdrop.Go.States.{reached}
use eavesdrop.Reporter.{Engine, Env}
use eavesdrop.Reporter.Lifecycle.{zero_report}
use eavesdrop.Reporter.Leader.{handle_report_res, accept_report}
use eavesdrop.Reporter.Reports.{assemble_final_report-zero_report}
use eavesdrop.Reporter.Untouched.{Untouched}

abbrev pub empty_report : FinalReport
empty_report = record { report = []; signatories = [] }

module _ (env : Env) where
  -- The signature is one of a REPORT-RES, valid under the key that the signatory's ID spells.
  abbrev pub IsAttested : Signatories → Type 0
  IsAttested s =
      (m : ReportRes) × (msg : Bytes) × (pk : PublicKey) × (env.codec.encode (report_res m)
        ≡ some msg)
      × (string_to_public_key env.crypto s.id ≡ some pk)
      × (verify env.crypto s.sign msg pk ≡ some true)

  -- Where a final report is held, f + 1 attested signatories stand for it, or it is the empty one.
  abbrev pub IsVouched : ℕ → Option FinalReport → Type 0
  IsVouched f held =
      (final : FinalReport)
      → held ≡ some final
      → (final ≡ empty_report)
        ⊎ ((f + 1 ≤ length final.signatories) × All IsAttested final.signatories)

  -- The new report, and the final report that was held or is assembled.
  abbrev Takes : Report → Engine → Engine → Type 0
  Takes report re s =
      let reports = re.leader_state.reports ++ report ∷ [] in
      (s.leader_state.reports ≡ reports)
      × (s.globals ≡ re.globals)
      × ((s.leader_state.final_report ≡ re.leader_state.final_report)
          ⊎ (s.leader_state.final_report
              ≡ assemble_final_report env.hashing env.order re.globals.f reports))

  accept_report-Takes :
      (report : Report) (re : Engine) → Takes report re (reached (accept_report env report re))
  unfolding accept_report
  accept_report-Takes report re =
      let reports = re.leader_state.reports ++ report ∷ [] in
      elim (Bool-cases (leb re.globals.n (length reports))) [
        | inr few ↦ (ground arith, ground arith, inl (ground arith))
        | inl many ↦
            elim (Option-cases (assemble_final_report env.hashing env.order re.globals.f reports)) [
              | inl unsettled ↦ (ground arith, ground arith, inl (ground arith))
              | inr (final, settled) ↦ (ground arith, ground arith, inr (ground arith))
            ]
      ]

  -- Without a valid signature nothing changes.
  handle_report_res-cases :
      (m : ReportRes) (from_id : String) (sig : Signature) (re : Engine)
      → (reached (handle_report_res env m from_id sig re) ≡ re)
        ⊎ ((msg : Bytes) × (pk : PublicKey) × (env.codec.encode (report_res m) ≡ some msg)
            × (string_to_public_key env.crypto from_id ≡ some pk)
            × (verify env.crypto sig msg pk ≡ some true)
            × (reached (handle_report_res env m from_id sig re)
                ≡ reached (
                    accept_report env
                      (record { from = from_id; reports = m.reports; sig = sig })
                      re)))
  unfolding handle_report_res
  handle_report_res-cases m from_id sig re = elim (Option-cases (env.codec.encode (report_res m))) [
    | inl e ↦ inl (ground arith)
    | inr (msg, e) ↦ elim (Option-cases (string_to_public_key env.crypto from_id)) [
      | inl k ↦ inl (ground arith)
      | inr (pk, k) ↦ elim (Option-cases (verify env.crypto sig msg pk)) [
        | inl v ↦ inl (ground arith)
        | inr (false, v) ↦ inl (ground arith)
        | inr (true, v) ↦ inr (msg, pk, e, k, v, ground arith)
      ]
    ]
  ]

  pub record IsAuthentic (f : ℕ) (re : Engine) : Type 0 where
    pub rest : List Report
    pub held : re.leader_state.reports ≡ zero_report ∷ rest
    pub attested : All (λ r. IsAttested (signatory r)) rest
    pub vouched : IsVouched f re.leader_state.final_report
    pub faulty : re.globals.f ≡ f

  module _ (f : ℕ) where
    pub Untouched-IsAuthentic :
        (re re' : Engine) → Untouched re re' → IsAuthentic f re → IsAuthentic f re'
    Untouched-IsAuthentic re re' (reports, final, globals) h = record {
      rest = h.rest;
      held = reports ∙ h.held;
      attested = h.attested;
      vouched = λ report e. h.vouched report (sym final ∙ e);
      faulty = ap (λ g. g.f) globals ∙ h.faulty;
    }

    accept_report-IsAuthentic :
        (report : Report) (re : Engine)
        → IsAttested (signatory report)
        → IsAuthentic f re
        → IsAuthentic f (reached (accept_report env report re))
    accept_report-IsAuthentic report re a h =
        let (reports, globals, final) = accept_report-Takes report re in
        record {
          rest = h.rest ++ report ∷ [];
          held = reports ∙ ap (λ l. l ++ report ∷ []) h.held;
          attested = attested-snoc;
          vouched = λ report' e. elim final [
            | inl same ↦ h.vouched report' (sym same ∙ e)
            | inr assembled ↦ inr (vouched_by report' (sym assembled ∙ e))
          ];
          faulty = ap (λ g. g.f) globals ∙ h.faulty;
        }
      where
        attested-snoc : All (λ r. IsAttested (signatory r)) (h.rest ++ report ∷ [])
        attested-snoc =
            All-append (λ r. IsAttested (signatory r)) h.rest (report ∷ []) h.attested (a, tt)

        vouched_by :
            (final : FinalReport)
            → assemble_final_report env.hashing env.order re.globals.f
                (re.leader_state.reports ++ report ∷ [])
              ≡ some final
            → (f + 1 ≤ length final.signatories) × All IsAttested final.signatories
        vouched_by final e =
            assembled-signatories env.hashing IsAttested env.order f (h.rest ++ report ∷ []) final
              attested-snoc
              (sym (
                  assemble_final_report-zero_report env.hashing env.order f (h.rest ++ report ∷ []))
                ∙ (sym (
                      ap
                        (λ k.
                          assemble_final_report env.hashing env.order k
                            (zero_report ∷ h.rest ++ report ∷ []))
                        h.faulty)
                    ∙ (sym (
                          ap
                            (λ l.
                              assemble_final_report env.hashing env.order re.globals.f
                                (l ++ report ∷ []))
                            h.held)
                        ∙ e)))

    pub handle_report_res-IsAuthentic :
        (m : ReportRes) (from_id : String) (sig : Signature) (re : Engine)
        → IsAuthentic f re
        → IsAuthentic f (reached (handle_report_res env m from_id sig re))
    handle_report_res-IsAuthentic m from_id sig re h =
        elim (handle_report_res-cases m from_id sig re) [
          | inl same ↦ subst (IsAuthentic f) (sym same) h
          | inr (msg, pk, encoded, key, valid, accepted) ↦ subst (IsAuthentic f) (sym accepted) (
              accept_report-IsAuthentic (record { from = from_id; reports = m.reports; sig = sig })
                re (m, msg, pk, encoded, key, valid) h)
        ]
