-- ===== src/Reporter/Gate.antt =====
-- Which messages reach a handler, and what happens to the others.
use eavesdrop.Prelude.{
  true, false, ◌≡◌, ◌↔◌, ◌⊎◌, some, string_eq, nat_eq, arith, Bool-cases, inl, inr,
}
use eavesdrop.Go.{GoError, blocked, returned, finish}
use eavesdrop.Rpc.{Payload, DecodedMsg}
use eavesdrop.Reporter.{Engine, Env}
use eavesdrop.Reporter.Process.{
  Common, get_common_fields_and_phase, rpc_msg_prechecks, dispatch, process_message,
}

-- The message belongs to the engine's epoch and round, and names its leader.
abbrev pub IsCurrent : Engine → Common → Type 0
IsCurrent re c = (c.epoch ≡ re.epoch) × (c.round ≡ re.cur_round) × (c.leader ≡ re.leader)

-- The prechecks pass for the current messages only.
pub prechecks_iff :
    (re : Engine) (p : Payload) (c : Common)
    → get_common_fields_and_phase p ≡ some c
    → (rpc_msg_prechecks re p ≡ true) ↔ IsCurrent re c
unfolding rpc_msg_prechecks
prechecks_iff re p c e = (
  (λ h. ground (arith, string_eq.beq_iff c.leader re.leader)),
  (λ h. ground (arith, string_eq.beq_iff c.leader re.leader)),
)

module _ (env : Env) (re : Engine) where
  -- A ready, unlocked engine that gets a message with common fields either hands it to its handler, the
  -- message's epoch, round and leader being the engine's, or rejects it unchanged, one of them
  -- differing.
  pub process_message-gate :
      (msg : DecodedMsg) (c : Common)
      → re.locked ≡ false
      → re.ready ≡ true
      → get_common_fields_and_phase msg.data_of ≡ some c
      → (IsCurrent re c × (process_message env msg re ≡ finish (dispatch env msg msg.data_of re)))
        ⊎ ((¬ IsCurrent re c)
            × (process_message env msg re ≡ returned (some GoError.prechecks_failed) re))
  unfolding process_message
  process_message-gate msg c free ready e = elim (Bool-cases (rpc_msg_prechecks re msg.data_of)) [
    | inl ok ↦ inl ((prechecks_iff re msg.data_of c e).0 ok, ground arith)
    | inr bad ↦ inr (
      (λ same. let ok = (prechecks_iff re msg.data_of c e).1 same in absurd (ground arith)),
      ground arith,
    )
  ]

  -- An unlocked engine that is not ready refuses any message, and is then stuck: whatever message comes
  -- next waits for ever.
  pub unready_message_deadlocks :
      (first second : DecodedMsg)
      → re.locked ≡ false
      → re.ready ≡ false
      → (stuck : Engine) × (process_message env first re ≡ returned (some GoError.not_ready) stuck)
        × (process_message env second stuck ≡ blocked stuck)
  unfolding process_message
  unready_message_deadlocks first second free unready =
      (record re { locked = true }, ground arith, ground arith)
