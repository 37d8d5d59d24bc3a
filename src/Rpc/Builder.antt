-- ===== src/Rpc/Builder.antt =====
-- `MessageBuilder` of rpc/builder.go, which builds a `Message` without the RPC message around it, and
-- the bytes of `SendNewEpochMsg` of ocr/pacemaker.go.
use eavesdrop.Prelude.{ℕ, Option, none, some, Bytes}
use eavesdrop.Rpc.{Payload, new_epoch}
use eavesdrop.Rpc.Codec.{Codec, Message, message_new_epoch, topic_pacemaker}

-- `MessageBuilder`; `body` is its data, none where that is nil.
pub record MessageBuilder : Type 0 where
  pub headers : ℕ
  pub topic : ℕ
  pub body : Option Bytes

-- `NewMessageBuilder`
unfoldable pub new_message_builder : MessageBuilder
new_message_builder = record { headers = 0; topic = 0; body = none }

-- `SetHeaders`
unfoldable pub set_headers : ℕ → MessageBuilder → MessageBuilder
set_headers headers b = record b { headers = headers }

-- `SetTopic`
unfoldable pub set_topic : ℕ → MessageBuilder → MessageBuilder
set_topic topic b = record b { topic = topic }

-- `Build`; none is its error.
unfoldable pub build_message : MessageBuilder → Option Message
build_message b = elim b.body [
  | none ↦ none
  | some body ↦ some (record { headers = b.headers; topic = b.topic; body = body })
]

module _ (codec : Codec) where
  -- `SetData`; none is its panic.
  unfoldable pub set_data : Payload → MessageBuilder → Option MessageBuilder
  set_data payload b = elim (codec.encode payload) [
    | none ↦ none
    | some body ↦ some (record b { body = some body })
  ]

  -- `Bytes`; none is its error.
  unfoldable pub builder_bytes : MessageBuilder → Option Bytes
  unfolding build_message
  builder_bytes b = elim (build_message b) [
    | none ↦ none
    | some message ↦ codec.encode_message message
  ]

  -- What `SendNewEpochMsg` broadcasts for an epoch; none is one of its panics.
  unfoldable pub new_epoch_bytes : ℕ → Option Bytes
  unfolding new_message_builder set_headers set_topic set_data builder_bytes
  new_epoch_bytes e =
      elim (set_data (new_epoch (record { epoch_id = e }))
        (set_topic topic_pacemaker (set_headers message_new_epoch new_message_builder))) [
          | none ↦ none
          | some b ↦ builder_bytes b
        ]
