-- ===== src/Rpc/Codec.antt =====
-- How messages become bytes and back: rpc/codec.go, rpc/builder.go, rpc/message.go and rpc/rpc.go,
-- and `DefaultRPCDecoder` of ocr/server_rpc_processor.go. The codec itself, encoding/json under
-- rpc/json_codec.go, is a parameter.
pub mod RoundTrip
use eavesdrop.Prelude.{ℕ, String, Bool, Option, none, some, Bytes, ◌==◌, nat_eq, if◌then◌else◌}
use eavesdrop.Crypto.{Signature}
use eavesdrop.Rpc.{
  Payload, status_msg, new_epoch, change_leader, observe_req, observe_resp, report_req, report_res,
  observation_map, final_report, final_echo, progress_round, DecodedMsg,
}

-- The values of `MessageType`.
abbrev pub message_new_epoch : ℕ
message_new_epoch = 0x1

abbrev pub message_status : ℕ
message_status = 0x2

abbrev pub message_change_leader : ℕ
message_change_leader = 0x3

abbrev pub message_observe_req : ℕ
message_observe_req = 0x4

abbrev pub message_observe_res : ℕ
message_observe_res = 0x5

abbrev pub message_report_req : ℕ
message_report_req = 0x6

abbrev pub message_report_res : ℕ
message_report_res = 0x7

abbrev pub message_observation_map : ℕ
message_observation_map = 0x8

abbrev pub message_final_report : ℕ
message_final_report = 0x9

abbrev pub message_final_echo : ℕ
message_final_echo = 0x10

abbrev pub message_progress_round : ℕ
message_progress_round = 0x11

-- The values of `MesageTopic`; `Pacemaker` is the twelfth line of its block, so its `iota` is 11.
abbrev pub topic_pacemaker : ℕ
topic_pacemaker = 11

abbrev pub topic_reporter : ℕ
topic_reporter = 0x1

abbrev pub topic_server : ℕ
topic_server = 0x4

-- `Message`
pub record Message : Type 0 where
  pub headers : ℕ
  pub topic : ℕ
  pub body : Bytes

-- `RPCMessage`
pub record RpcMessage : Type 0 where
  pub from_id : String
  pub payload : Bytes
  pub signature : Signature

-- The Go type that a body is decoded into.
pub data Kind : Type 0 where
  is_status is_new_epoch is_change_leader is_observe_req is_observe_resp is_report_req : Kind
  is_report_res is_observation_map is_final_report is_final_echo is_progress_round : Kind

unfoldable pub kind_of : Payload → Kind
kind_of (status_msg _) = is_status
kind_of (new_epoch _) = is_new_epoch
kind_of change_leader = is_change_leader
kind_of (observe_req _) = is_observe_req
kind_of (observe_resp _) = is_observe_resp
kind_of (report_req _) = is_report_req
kind_of (report_res _) = is_report_res
kind_of (observation_map _) = is_observation_map
kind_of (final_report _) = is_final_report
kind_of (final_echo _) = is_final_echo
kind_of (progress_round _) = is_progress_round

-- `Codec`: Encode and Decode at each Go type that the code hands to them; `none` is an error.
pub record Codec : Type 0 where
  pub encode : Payload → Option Bytes
  pub decode : Kind → Bytes → Option Payload
  pub encode_message : Message → Option Bytes
  pub decode_message : Bytes → Option Message
  pub encode_rpc : RpcMessage → Option Bytes
  pub decode_rpc : Bytes → Option RpcMessage

-- `RPCMessageBuilder`, after its setters; `message` is none where it is nil.
pub record RpcMessageBuilder : Type 0 where
  pub from_id : String
  pub headers : ℕ
  pub topic : ℕ
  pub payload_data : Payload
  pub signature : Signature
  pub message : Option Bytes

-- The zero value of `Signature`, which a message has that is never signed.
abbrev pub no_signature : Signature
no_signature = record { r = none; s = none }

-- NewRPCMessageBuilder(…).SetHeaders(…).SetTopic(…).SetPayload(…)
unfoldable pub unsigned : String → ℕ → ℕ → Payload → RpcMessageBuilder
unsigned from_id headers topic payload = record {
  from_id = from_id;
  headers = headers;
  topic = topic;
  payload_data = payload;
  signature = no_signature;
  message = none;
}

-- `SetSignature`
unfoldable pub set_signature : Signature → RpcMessageBuilder → RpcMessageBuilder
set_signature sign b = record b { signature = sign }

infixl 5 ◌>>=◌
abbrev ◌>>=◌ : {A B : Type 0} → Option A → (A → Option B) → Option B
none >>= f = none
some a >>= f = f a

module _ (codec : Codec) where
  -- The bytes of the inner message that `Build` makes where none was set.
  message_bytes : RpcMessageBuilder → Option Bytes
  message_bytes b = do
    payload_bytes ← codec.encode b.payload_data
    codec.encode_message (record { headers = b.headers; topic = b.topic; body = payload_bytes })

  -- `RPCMessageBuilder.Build`
  unfoldable pub build : RpcMessageBuilder → Option RpcMessage
  unfolding message_bytes
  build b = do
    msg_bytes ← elim b.message [ none ↦ message_bytes b | some bytes ↦ some bytes ]
    some (record { from_id = b.from_id; payload = msg_bytes; signature = b.signature })

  -- `RPCMessageBuilder.Bytes`
  unfoldable pub rpc_bytes : RpcMessageBuilder → Option Bytes
  unfolding build
  rpc_bytes b = do rpc_message ← build b; codec.encode_rpc rpc_message

  -- One case of the switch of `DefaultRPCDecoder`: decode the body into a type.
  decode_body : RpcMessage → Message → Kind → Signature → Option DecodedMsg
  decode_body rpc_msg msg kind signature = do
    payload ← codec.decode kind msg.body
    some (record {
      from_id = rpc_msg.from_id;
      topic = msg.topic;
      data_of = payload;
      signature = signature;
    })

  decode_headers : RpcMessage → Message → Option DecodedMsg
  unfolding decode_body
  decode_headers rpc_msg msg =
      if msg.headers == message_new_epoch
      then decode_body rpc_msg msg is_new_epoch no_signature
      else if msg.headers == message_status
      then decode_body rpc_msg msg is_status no_signature
      else if msg.headers == message_observe_req
      then decode_body rpc_msg msg is_observe_req no_signature
      else if msg.headers == message_report_res
      then decode_body rpc_msg msg is_report_res rpc_msg.signature
      else if msg.headers == message_report_req
      then decode_body rpc_msg msg is_report_req no_signature
      else if msg.headers == message_observe_res
      then decode_body rpc_msg msg is_observe_resp rpc_msg.signature
      else if msg.headers == message_change_leader
      then decode_body rpc_msg msg is_change_leader no_signature
      else if msg.headers == message_observation_map
      then decode_body rpc_msg msg is_observation_map no_signature
      else none

  -- `DefaultRPCDecoder`; `none` is its error.
  unfoldable pub default_rpc_decoder : RpcMessage → Option DecodedMsg
  unfolding decode_headers
  default_rpc_decoder rpc_msg = do
    msg ← codec.decode_message rpc_msg.payload
    decode_headers rpc_msg msg
