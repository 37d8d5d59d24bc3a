-- ===== src/Pacemaker/Epochs.antt =====
-- The epoch under NEW-EPOCH messages, and what comes of a switch to a new epoch.
use eavesdrop.Prelude.{
  ℕ, ◌+◌, ◌*◌, ◌%◌, ◌^◌, ◌<◌, ◌≡◌, refl, ◌∙◌, ap, subst, sym, false, string_eq, List, [], ◌∷◌, ◌++◌,
  Bytes, ltb, arith, Bool-cases, Option-cases, ◌⊎◌, inl, inr, some, none, All, All-append,
}
use mathlib.Core.List.{append_assoc, append-nil}
use eavesdrop.Go.{panicked, next, exit, Body, Flow, ◌>>◌, pure, nil_channel, close_channel}
use eavesdrop.Rpc.{NewEpochMesage}
use eavesdrop.LeaderSelection.{HashLibrary, ProtcolPeer}
use eavesdrop.Reporter.{Engine}
use eavesdrop.Reporter.Steps.{stop_engine}
use eavesdrop.Pacemaker.{
  Pacemaker, word, process_new_epoch_msg, switch_to_new_epoch, record_epoch, send_new_epoch_msg,
  aim_epoch, next_epoch, epoch_message,
}

-- The message names the epoch, whatever else has changed.
pub epoch_message-same :
    (p q : Pacemaker)
    → q.stats.e ≡ p.stats.e
    → q.msg_service ≡ p.msg_service
    → epoch_message q ≡ epoch_message p
unfolding epoch_message
epoch_message-same p q e same = rw (e, same) refl

module _ (lib : HashLibrary) (key : Bytes) (rounds : List (List ProtcolPeer)) where
  -- The messages one after the other.
  abbrev pub process_all : List NewEpochMesage → Body Pacemaker (Unit {0})
  process_all [] = pure tt
  process_all (m ∷ ms) = do process_new_epoch_msg lib key rounds m; process_all ms

  -- What a message does while the epoch stays: the announcements it adds are of this epoch.
  abbrev pub Stays : Pacemaker → Pacemaker → Type 0
  Stays p p' =
      (p'.stats.e ≡ p.stats.e)
      × (p'.stats.f ≡ p.stats.f)
      × (p'.timers ≡ p.timers)
      × (p'.reporter ≡ p.reporter)
      × (p'.msg_service ≡ p.msg_service)
      × ((new : List Bytes) × (p'.announced ≡ p.announced ++ new)
          × All (λ b. epoch_message p ≡ some b) new)

  -- The body goes on, or the message of this epoch cannot be made, and it panics.
  abbrev pub EndsIn : Pacemaker → Flow Pacemaker (Unit {0}) → Pacemaker → Type 0
  EndsIn p flow p' = (flow ≡ next tt p') ⊎ ((flow ≡ exit (panicked p')) × (epoch_message p ≡ none))

  -- 2f does not wrap, and is at least f.
  not_above_twice : (f k : ℕ) → f < 2 ^ 63 → ltb f k ≡ false → ltb ((2 * f) % word) k ≡ false
  not_above_twice f k small few = ground arith

  pub keeps_epoch_lem :
      (p : Pacemaker) (m : NewEpochMesage)
      → p.stats.f < 2 ^ 63
      → (p' : Pacemaker) × EndsIn p (process_new_epoch_msg lib key rounds m p) p' × Stays p p'
  unfolding process_new_epoch_msg send_new_epoch_msg record_epoch aim_epoch
  keeps_epoch_lem p m small = elim (Bool-cases (ltb p.stats.e m.epoch_id)) [
    | inr old ↦ (p, inl (ground arith), unchanged p refl refl refl refl refl refl)
    | inl newer ↦ elim (Bool-cases (ltb p.stats.f ((p.stats.n_e0 + 1) % word))) [
      | inl many ↦ elim (Option-cases (epoch_message p)) [
        | inl missing ↦
            let gone : epoch_message (aim_epoch (record_epoch m.epoch_id p)) ≡ none =
              epoch_message-same p (aim_epoch (record_epoch m.epoch_id p)) refl refl ∙ missing in
            (
              aim_epoch (record_epoch m.epoch_id p),
              inr (
                rw (process_new_epoch_msg, newer, ◌>>◌, many, send_new_epoch_msg, gone) refl,
                missing,
              ),
              unchanged (aim_epoch (record_epoch m.epoch_id p)) refl refl refl refl refl refl,
            )
        | inr (b, made) ↦
            let here : epoch_message (aim_epoch (record_epoch m.epoch_id p)) ≡ some b =
              epoch_message-same p (aim_epoch (record_epoch m.epoch_id p)) refl refl ∙ made in
            (
              record (aim_epoch (record_epoch m.epoch_id p)) { announced = p.announced ++ b ∷ [] },
              inl (rw (process_new_epoch_msg, newer, ◌>>◌, many, send_new_epoch_msg, here) refl),
              (refl, refl, refl, refl, refl, (b ∷ [], refl, (made, tt))),
            )
      ]
      | inr few ↦
          let never = not_above_twice p.stats.f ((p.stats.n_e0 + 1) % word) small few in
          (
            record_epoch m.epoch_id p,
            inl (ground arith),
            unchanged (record_epoch m.epoch_id p) refl refl refl refl refl refl,
          )
    ]
  ]
    where
      unchanged :
          (q : Pacemaker)
          → q.stats.e ≡ p.stats.e
          → q.stats.f ≡ p.stats.f
          → q.timers ≡ p.timers
          → q.reporter ≡ p.reporter
          → q.msg_service ≡ p.msg_service
          → q.announced ≡ p.announced
          → Stays p q
      unchanged q e f timers same service announced =
          (e, f, timers, same, service, ([], announced ∙ sym (append-nil p.announced), tt))

  Stays-trans : (p q r : Pacemaker) → Stays p q → Stays q r → Stays p r
  Stays-trans p q r (e, f, timers, same, service, (new, added, own))
        (e', f', timers', same', service', (new', added', own')) =
      (
        e' ∙ e,
        f' ∙ f,
        timers' ∙ timers,
        same' ∙ same,
        service' ∙ service,
        (
          new ++ new',
          added' ∙ (ap (λ xs. xs ++ new') added ∙ append_assoc p.announced new new'),
          All-append (λ b. epoch_message p ≡ some b) new new' own
              (subst (λ o. All (λ b. o ≡ some b) new') (epoch_message-same p q e service) own'),
        ),
      )

  EndsIn-step :
      (m : NewEpochMesage) (ms : List NewEpochMesage) (p q r : Pacemaker)
      → process_new_epoch_msg lib key rounds m p ≡ next tt q
      → Stays p q
      → EndsIn q (process_all ms q) r
      → EndsIn p (process_all (m ∷ ms) p) r
  EndsIn-step m ms p q r e s (inl done) = inl (rw (◌>>◌, e) done)
  EndsIn-step m ms p q r e s (inr (done, missing)) =
      inr (rw (◌>>◌, e) done, sym (epoch_message-same p q s.0 s.4) ∙ missing)

  -- If f is below 2 ^ 63, then under any NEW-EPOCH messages the pacemaker does not wait for ever, its epoch,
  -- f, its timers, its messaging layer and its reporting engine stay as they were, every announcement it
  -- adds is the NEW-EPOCH message of its own epoch, and it panics only if that message cannot be made, its
  -- messaging layer being nil or an encoding failing.
  pub process_all_keeps_epoch :
      (ms : List NewEpochMesage) (p : Pacemaker)
      → p.stats.f < 2 ^ 63
      → (p' : Pacemaker) × EndsIn p (process_all ms p) p' × Stays p p'
  process_all_keeps_epoch [] p small =
      (p, inl refl, (refl, refl, refl, refl, refl, ([], sym (append-nil p.announced), tt)))
  process_all_keeps_epoch (m ∷ ms) p small =
      let (q, ends, s) = keeps_epoch_lem p m small in
      let (r, ends', s') = process_all_keeps_epoch ms q (rw s.1 small) in
      elim ends [
        | inl e ↦ (r, EndsIn-step m ms p q r e s ends', Stays-trans p q r s s')
        | inr (e, missing) ↦ (q, inr (rw (◌>>◌, e) refl, missing), s)
      ]

  stop_engine-nil_channel :
      (re : Engine) → re.quit_ch ≡ nil_channel → stop_engine re ≡ exit (panicked re)
  unfolding stop_engine close_channel
  stop_engine-nil_channel re e = ground arith

  -- `switchToNewEpoch` never comes to its end where the reporting engine's quit channel is nil.
  pub switch_never_returns :
      (p : Pacemaker)
      → p.reporter.quit_ch ≡ nil_channel
      → ¬ ((s : Pacemaker) × (switch_to_new_epoch lib key rounds p ≡ next tt s))
  unfolding switch_to_new_epoch next_epoch
  switch_never_returns p e (s, done) = ground (arith, stop_engine-nil_channel p.reporter e)
