-- ===== src/Reporter/Validators.antt =====
-- When a follower accepts a final report.
use eavesdrop.Prelude.{
  ℕ, ◌+◌, ◌≤◌, String, Bool, true, false, not, ◌≡◌, refl, ◌⊎◌, none, some, List, [], ◌∷◌, Bytes,
  string_eq, nat_eq, if◌then◌else◌, arith, Option-cases, Bool-cases, inl, inr, ◌&&◌, All, Memᴰ,
  length, leb, ltb, ltb-false→le, subst, sym, ◌∙◌, ap,
}
use eavesdrop.Crypto.{Signature, string_to_public_key, verify, PublicKey}
use eavesdrop.Go.{Exit, returned, panicked, Flow, next, exit, finish}
use eavesdrop.Rpc.{final_report, BroadcastFinalReport, Signatories}
use eavesdrop.Reporter.{Engine, Env}
use eavesdrop.Reporter.Steps.{verify_signature}
use eavesdrop.Reporter.Finals.{contains, count, count_validators, handle_final_report}
use eavesdrop.Go.States.{state_of, reached}

-- The messaging layer knows this ID as a peer.
abbrev pub IsPeer : Engine → String → Type 0
IsPeer re id = (known : String → Bool) × (re.msg_service ≡ some known) × (known id ≡ true)

-- No ID twice.
abbrev pub Distinct : List String → Type 0
Distinct [] = Unit {0}
Distinct (x ∷ xs) = (contains x xs ≡ false) × Distinct xs

count_eq_length : (xs : List String) → count xs ≡ length xs
count_eq_length [] = refl
count_eq_length (x ∷ xs) = ground (arith, count_eq_length xs)

module _ (env : Env) (re : Engine) (msg : Bytes) where
  -- The signature of this signatory, a known peer, is valid for the message.
  pub record IsSigned (s : Signatories) : Type 0 where
    pub peer : IsPeer re s.id
    pub key : PublicKey
    pub key_of_id : string_to_public_key env.crypto s.id ≡ some key
    pub valid : verify env.crypto s.sign msg key ≡ some true

  abbrev pub IsValidator : List Signatories → String → Type 0
  IsValidator all id = (s : Signatories) × Memᴰ s all × (s.id ≡ id) × IsSigned s

  abbrev new_unique : Bool → String → List String → List String
  new_unique valid id unique = if valid && not (contains id unique) then id ∷ unique else unique

  -- One round of the loop: it stops the handler, or goes on with a signatory that was read.
  data Round (th : ℕ) (s : Signatories) (rest : List Signatories) (unique : List String)
      : Type 0 where
    stops :
        (x : Exit Engine)
        → count_validators env msg th (s ∷ rest) unique re ≡ exit x
        → state_of x ≡ re
        → Round th s rest unique
    goes_on :
        (pk : PublicKey) (valid : Bool)
        → string_to_public_key env.crypto s.id ≡ some pk
        → IsPeer re s.id
        → verify env.crypto s.sign msg pk ≡ some valid
        → count_validators env msg th (s ∷ rest) unique re ≡ (
            if leb th (count (new_unique valid s.id unique))
            then next (new_unique valid s.id unique) re
            else count_validators env msg th rest (new_unique valid s.id unique) re)
        → Round th s rest unique

  round :
      (th : ℕ) (s : Signatories) (rest : List Signatories) (unique : List String)
      → Round th s rest unique
  unfolding count_validators
  round th s rest unique = elim (Option-cases (string_to_public_key env.crypto s.id)) [
    | inl e ↦ stops (returned none re) (ground arith) refl
    | inr (pk, e) ↦ elim (Option-cases re.msg_service) [
      | inl f ↦ stops (panicked re) (ground arith) refl
      | inr (known, f) ↦ elim (Bool-cases (known s.id)) [
        | inr unknown ↦ stops (returned none re) (ground arith) refl
        | inl peer ↦ elim (Option-cases (verify env.crypto s.sign msg pk)) [
          | inl g ↦ stops (panicked re) (ground arith) refl
          | inr (valid, g) ↦ goes_on pk valid e (known, f, peer) g (ground arith)
        ]
      ]
    ]
  ]

  abbrev pub Sound : List Signatories → Flow Engine (List String) → Type 0
  Sound all (next u s) = (s ≡ re) × Distinct u × All (IsValidator all) u
  Sound all (exit x) = state_of x ≡ re

  new_unique-Distinct :
      (valid : Bool) (id : String) (unique : List String)
      → Distinct unique
      → Distinct (new_unique valid id unique)
  new_unique-Distinct false id unique d = d
  new_unique-Distinct true id unique d = elim (Bool-cases (contains id unique)) [
    | inl old ↦ rw old d
    | inr new ↦ rw new (new, d)
  ]

  new_unique-All :
      (P : String → Type 0) (valid : Bool) (id : String) (unique : List String)
      → (valid ≡ true → P id)
      → All P unique
      → All P (new_unique valid id unique)
  new_unique-All P false id unique p all = all
  new_unique-All P true id unique p all = elim (Bool-cases (contains id unique)) [
    | inl old ↦ rw old all
    | inr new ↦ rw new (p refl, all)
  ]

  Sound-if :
      (all : List Signatories) (b : Bool) (x y : Flow Engine (List String))
      → Sound all x
      → Sound all y
      → Sound all (if b then x else y)
  Sound-if all true x y p q = p
  Sound-if all false x y p q = q

  count_validators-Sound :
      (all : List Signatories) (th : ℕ) (sigs : List Signatories) (unique : List String)
      → ((s : Signatories) → Memᴰ s sigs → Memᴰ s all)
      → Distinct unique
      → All (IsValidator all) unique
      → Sound all (count_validators env msg th sigs unique re)
  unfolding count_validators
  count_validators-Sound all th [] unique sub d v = (refl, d, v)
  count_validators-Sound all th (s ∷ rest) unique sub d v =
      go (round th s rest unique)
        (λ u. count_validators-Sound all th rest u (λ t m. sub t (Memᴰ.tail m)))
    where
      go :
          Round th s rest unique
          → ((u : List String)
              → Distinct u
              → All (IsValidator all) u
              → Sound all (count_validators env msg th rest u re))
          → Sound all (count_validators env msg th (s ∷ rest) unique re)
      go (stops x e same) later = subst (Sound all) (sym e) same
      go (goes_on pk valid e peer g step) later =
          subst (Sound all) (sym step)
            (Sound-if all (leb th (count u)) _ _ (refl, d', v') (later u d' v'))
        where
          u : List String
          u = new_unique valid s.id unique

          d' : Distinct u
          d' = new_unique-Distinct valid s.id unique d

          v' : All (IsValidator all) u
          v' =
              new_unique-All (IsValidator all) valid s.id unique
                (λ p. (
                  s,
                  sub s (Memᴰ.head refl),
                  refl,
                  record { peer = peer; key = pk; key_of_id = e; valid = g ∙ ap some p },
                ))
                v

  Sound-reached :
      (all : List Signatories) (flow : Flow Engine (List String))
      → Sound all flow
      → reached flow ≡ re
  Sound-reached all (next u s) p = p.0
  Sound-reached all (exit x) p = p

  -- The loop leaves the engine as it is.
  pub count_validators-reached :
      (th : ℕ) (sigs : List Signatories) → reached (count_validators env msg th sigs [] re) ≡ re
  count_validators-reached th sigs =
      Sound-reached sigs (count_validators env msg th sigs [] re)
        (count_validators-Sound sigs th sigs [] (λ s i. i) tt tt)

-- The IDs that vouch for a final report: distinct known peers whose signatures are valid.
abbrev pub Vouched : Env → Engine → BroadcastFinalReport → Type 0
Vouched env re m =
    (msg : Bytes) × (ids : List String) × (env.codec.encode (final_report m) ≡ some msg)
    × Distinct ids
    × (re.globals.f + 1 ≤ length ids)
    × All (IsValidator env re msg m.final_report.signatories) ids

module _ (env : Env) (re : Engine) (m : BroadcastFinalReport) (from_id : String)
    (sig : Signature) where
  accepted_behind_signature :
      (msg : Bytes)
      → env.codec.encode (final_report m) ≡ some msg
      → verify_signature env msg from_id sig ≡ some true
      → (r : Flow Engine (List String))
      → count_validators env msg (re.globals.f + 1) m.final_report.signatories [] re ≡ r
      → Sound env re msg m.final_report.signatories r
      → let s = state_of (finish (handle_final_report env m from_id sig re)) in
        ((s.cache ≡ re.cache) × (s.outbox ≡ re.outbox)) ⊎ Vouched env re m
  unfolding handle_final_report
  accepted_behind_signature msg e f (exit x) g same = inl (ground arith)
  accepted_behind_signature msg e f (next u s) g (same, d, v) =
      elim (Bool-cases (ltb (count u) (re.globals.f + 1))) [
        | inl few ↦ inl (ground arith)
        | inr many ↦ inr (
          msg,
          u,
          e,
          d,
          omega (arith, ltb-false→le (count u) (re.globals.f + 1) many, count_eq_length u),
          v,
        )
      ]

  -- A BROADCAST-FINAL-REPORT either leaves the cache and what is sent unchanged, or f + 1 distinct IDs,
  -- each a known peer with a signatory of the report whose signature is valid under the key of that ID,
  -- vouch for the encoded message.
  pub final_report_accepted :
      let s = state_of (finish (handle_final_report env m from_id sig re)) in
      ((s.cache ≡ re.cache) × (s.outbox ≡ re.outbox)) ⊎ Vouched env re m
  unfolding handle_final_report
  final_report_accepted = elim (Option-cases (env.codec.encode (final_report m))) [
    | inl e ↦ inl (ground arith)
    | inr (msg, e) ↦ elim (Option-cases (verify_signature env msg from_id sig)) [
      | inl f ↦ inl (ground arith)
      | inr (signed, f) ↦ elim (Bool-cases signed) [
        | inr wrong ↦ inl (ground arith)
        | inl right ↦ accepted_behind_signature msg e (f ∙ ap some right) _ refl (
            count_validators-Sound env re msg m.final_report.signatories (re.globals.f + 1)
              m.final_report.signatories [] (λ s i. i) tt tt)
      ]
    ]
  ]
