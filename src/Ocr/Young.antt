-- ===== src/Ocr/Young.antt =====
-- A node in its first epoch and round, and the messages that it gets.
use eavesdrop.Prelude.{
  ◌<◌, ◌^◌, ◌≡◌, refl, ◌∙◌, subst, sym, Bool, true, false, Option, none, some, List, Bytes, ◌==◌,
  nat_eq, arith, inl, inr,
}
use eavesdrop.GoMap.{lookup}
use eavesdrop.Go.{Exit, Flow, next, Body, pure}
use eavesdrop.Go.States.{reached, reached->>, state_of}
use eavesdrop.Rpc.{Payload, DecodedMsg, NewEpochMesage, new_epoch}
use eavesdrop.Rpc.Codec.{RpcMessage, default_rpc_decoder, topic_server}
use eavesdrop.LeaderSelection.{ProtcolPeer}
use eavesdrop.Reporter.{Engine}
use eavesdrop.Reporter.Process.{process_message}
use eavesdrop.Reporter.Rounds.{process_message-IsStuck}
use eavesdrop.Pacemaker.{zero_timers, Pacemaker, process_new_epoch_msg, process_pacemaker_message}
use eavesdrop.Pacemaker.Epochs.{keeps_epoch_lem}
use eavesdrop.Pacemaker.Startup.Keeps.{IsNew}
use eavesdrop.Server.{Server, process_server_message}
use eavesdrop.Ocr.{
  stop, Ocr, Handler, pacemaker_handler, reporter_handler, on_server, on_reporter, on_pacemaker,
  call_handler, route, deliver, receive,
}
use eavesdrop.Ocr.World.{World}

-- The first epoch, a count of faulty nodes whose double does not wrap, and an engine of the first round.
abbrev pub IsYoung : Pacemaker → Type 0
IsYoung p = (p.stats.e ≡ 0) × (p.stats.f < 2 ^ 63) × (p.timers ≡ zero_timers) × IsNew 0 p.reporter

module _ (w : World) where
  pub on_server-pacemaker :
      (call : Body (Server w.st) (Unit {0})) (o : Ocr w.st)
      → (reached (on_server w.st call o)).pacemaker ≡ o.pacemaker
  unfolding on_server
  on_server-pacemaker call o = ground arith

  pub stop-pacemaker : (o : Ocr w.st) → (reached (stop w.st o)).pacemaker ≡ o.pacemaker
  unfolding stop
  stop-pacemaker o = ground arith

  on_reporter-pacemaker :
      (call : Engine → Exit Engine) (o : Ocr w.st)
      → (reached (on_reporter w.st call o)).pacemaker
        ≡ record (o.pacemaker) { reporter = state_of (call o.pacemaker.reporter) }
  unfolding on_reporter
  on_reporter-pacemaker call o = ground arith

  on_pacemaker-pacemaker :
      (call : Body Pacemaker Bool) (o : Ocr w.st)
      → (reached (on_pacemaker w.st call o)).pacemaker ≡ reached (call o.pacemaker)
  unfolding on_pacemaker
  on_pacemaker-pacemaker call o = ground arith

  announced-IsYoung :
      (rounds : List (List ProtcolPeer)) (m : NewEpochMesage) (p : Pacemaker)
      → IsYoung p
      → IsYoung (reached (process_new_epoch_msg w.lib w.secret_key rounds m p))
  announced-IsYoung rounds m p young =
      let (q, ends, (e, f, timers, same, _, _)) =
        keeps_epoch_lem w.lib w.secret_key rounds p m young.1 in
      let still : IsYoung q =
        (e ∙ young.0, rw (f) young.1, timers ∙ young.2, subst (IsNew 0) (sym same) young.3) in
      elim ends [
        | inl done ↦ subst (λ flow. IsYoung (reached flow)) (sym done) still
        | inr (done, _) ↦ subst (λ flow. IsYoung (reached flow)) (sym done) still
      ]

  process_pacemaker_message-IsYoung :
      (rounds : List (List ProtcolPeer)) (payload : Payload) (p : Pacemaker)
      → IsYoung p
      → IsYoung (reached (process_pacemaker_message w.lib w.secret_key rounds payload p))
  unfolding process_pacemaker_message
  process_pacemaker_message-IsYoung rounds (new_epoch m) p young =
      reached->> {A = Unit {0}} IsYoung (process_new_epoch_msg w.lib w.secret_key rounds m)
        (pure true) p (announced-IsYoung rounds m p young) (λ t h. h)
  process_pacemaker_message-IsYoung rounds payload p young = young

  module _ (rounds : List (List ProtcolPeer)) (o : Ocr w.st) (young : IsYoung o.pacemaker) where
    call_handler-IsYoung :
        (handler : Handler) (msg : DecodedMsg)
        → IsYoung
            (reached (call_handler w.st w.env w.lib w.secret_key rounds handler msg o)).pacemaker
    unfolding call_handler
    call_handler-IsYoung reporter_handler msg =
        let (e, f, timers, (r, le, stuck)) = young in
        subst IsYoung (sym (on_reporter-pacemaker (process_message w.env msg) o))
          (e, f, timers, (r, le, process_message-IsStuck w.env 0 r o.pacemaker.reporter stuck msg))
    call_handler-IsYoung pacemaker_handler msg =
        subst IsYoung
          (sym (
            on_pacemaker-pacemaker (process_pacemaker_message w.lib w.secret_key rounds msg.data_of)
              o))
          (process_pacemaker_message-IsYoung rounds msg.data_of o.pacemaker young)

    abbrev Leaves : Flow (Ocr w.st) (Unit {0}) → Type 0
    Leaves flow = IsYoung (reached flow).pacemaker

    Leaves-≡ : (a b : Flow (Ocr w.st) (Unit {0})) → a ≡ b → Leaves b → Leaves a
    Leaves-≡ a b e h = subst Leaves (sym e) h

    routed-IsYoung :
        (msg : DecodedMsg) (own : Bool) (known : Option Handler)
        → msg.topic == topic_server ≡ own
        → lookup msg.topic o.handlers ≡ known
        → Leaves (route w.st w.env w.lib w.secret_key rounds msg o)
    unfolding route
    routed-IsYoung msg true known e f =
        Leaves-≡ (route w.st w.env w.lib w.secret_key rounds msg o)
          (on_server w.st (process_server_message w.st msg.data_of) o) (ground arith)
          (subst IsYoung (sym (on_server-pacemaker (process_server_message w.st msg.data_of) o))
            young)
    routed-IsYoung msg false none e f =
        Leaves-≡ (route w.st w.env w.lib w.secret_key rounds msg o) (next tt o) (ground arith) young
    routed-IsYoung msg false (some handler) e f =
        Leaves-≡ (route w.st w.env w.lib w.secret_key rounds msg o)
          (call_handler w.st w.env w.lib w.secret_key rounds handler msg o) (ground arith)
          (call_handler-IsYoung handler msg)

    delivered-IsYoung :
        (rpc_msg : RpcMessage) (decoded : Option DecodedMsg)
        → default_rpc_decoder w.st.codec rpc_msg ≡ decoded
        → Leaves (deliver w.st w.env w.lib w.secret_key rounds rpc_msg o)
    unfolding deliver
    delivered-IsYoung rpc_msg none e =
        Leaves-≡ (deliver w.st w.env w.lib w.secret_key rounds rpc_msg o) (next tt o) (ground arith)
          young
    delivered-IsYoung rpc_msg (some msg) e =
        Leaves-≡ (deliver w.st w.env w.lib w.secret_key rounds rpc_msg o)
          (route w.st w.env w.lib w.secret_key rounds msg o) (ground arith)
          (routed-IsYoung msg _ _ refl refl)

    pub receive-IsYoung :
        (bytes : Bytes) (read : Option RpcMessage)
        → w.st.codec.decode_rpc bytes ≡ read
        → Leaves (receive w.st w.env w.lib w.secret_key rounds bytes o)
    unfolding receive
    receive-IsYoung bytes none e =
        Leaves-≡ (receive w.st w.env w.lib w.secret_key rounds bytes o) (next tt o) (ground arith)
          young
    receive-IsYoung bytes (some rpc_msg) e =
        Leaves-≡ (receive w.st w.env w.lib w.secret_key rounds bytes o)
          (deliver w.st w.env w.lib w.secret_key rounds rpc_msg o) (ground arith)
          (delivered-IsYoung rpc_msg _ refl)
