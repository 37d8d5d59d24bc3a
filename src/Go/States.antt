-- ===== src/Go/States.antt =====
-- The state that a body leaves, however it ends.
use eavesdrop.Go.{Exit, returned, panicked, blocked, Flow, next, exit, Body, ◌>>◌, finish}
use eavesdrop.Prelude.{◌≡◌, refl}

abbrev pub state_of {ℓ} : {S : Type ℓ} → Exit S → S
state_of (returned _ s) = s
state_of (panicked s) = s
state_of (blocked s) = s

abbrev pub reached {ℓ} : {S A : Type ℓ} → Flow S A → S
reached (next _ s) = s
reached (exit e) = state_of e

pub state_of-finish {ℓ} : {S A : Type ℓ} (flow : Flow S A) → state_of (finish flow) ≡ reached flow
state_of-finish (next _ s) = refl
state_of-finish (exit e) = refl

-- A property of all states that two bodies leave holds of what they leave together.
pub reached->> {ℓ κ} :
    {S A B : Type ℓ} (P : S → Type κ) (m : Body S A) (k : Body S B) (s : S)
    → P (reached (m s))
    → ((t : S) → P t → P (reached (k t)))
    → P (reached ((m >> k) s))
reached->> {S} {A} {B} P m k s p h = go (m s) p
  where
    go :
        (r : Flow S A)
        → P (reached r)
        → P (reached (elim r as (λ _. Flow S B) [ next _ t ↦ k t | exit e ↦ exit e ]))
    go (next _ t) q = h t q
    go (exit e) q = q
