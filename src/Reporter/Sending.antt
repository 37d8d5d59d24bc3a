-- ===== src/Reporter/Sending.antt =====
-- `SendMsg` and `AttachMsgLayer` of ocr/reporter.go.
use eavesdrop.Prelude.{String, Bool, some, Bytes}
use eavesdrop.Go.{Body}
use eavesdrop.Reporter.{Engine}
use eavesdrop.Reporter.Steps.{broadcast_msg, send_msg}

-- `SendingSchme`
pub data SendingScheme : Type 0 where
  to_all to_leader to_peer : SendingScheme

unfoldable pub send_by_scheme : SendingScheme → Bytes → String → Body Engine (Unit {0})
unfolding broadcast_msg send_msg
send_by_scheme to_all msg id re = broadcast_msg msg re
send_by_scheme to_leader msg id re = send_msg re.leader msg re
send_by_scheme to_peer msg id re = send_msg id msg re

unfoldable pub attach_msg_layer : (String → Bool) → Engine → Engine
attach_msg_layer service re = record re { msg_service = some service }
