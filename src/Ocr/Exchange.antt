-- ===== src/Ocr/Exchange.antt =====
-- From the leader's OBSERVE-REQ to the follower and back, through the bytes that each of them sends.
use eavesdrop.Prelude.{
  ◌+◌, ◌≤◌, ◌≡◌, refl, ◌∙◌, ap, sym, String, Bool, true, false, none, some, List, [], ◌∷◌, ◌++◌,
  Bytes, string_eq, nat_eq, length, inl, inr,
}
use eavesdrop.GoMap.{fetch, lookup}
use eavesdrop.Crypto.{Signature, string_to_public_key, sign, verify, key_string}
use eavesdrop.Crypto.Address.{DecodesHex}
use eavesdrop.Crypto.Keys.{KeyLaws, IsPoint, full_keys_only}
use eavesdrop.Jobs.{Value}
use eavesdrop.Rpc.{ObserveReq, observe_req, observe_resp}
use eavesdrop.Rpc.Codec.{
  kind_of, rpc_bytes, unsigned, set_signature, no_signature, topic_reporter, message_observe_req,
  message_observe_res,
}
use eavesdrop.Rpc.Codec.RoundTrip.{Inverts, Inverts-Reads, Reads, Decodes}
use eavesdrop.Go.{next, returned, listened}
use eavesdrop.LeaderSelection.{HashLibrary, ProtcolPeer}
use eavesdrop.Reporter.{Engine, Env, broadcast, send_to, max_rounds}
use eavesdrop.Reporter.Process.{process_message, dispatch, get_common_fields_and_phase}
use eavesdrop.Reporter.Gate.{prechecks_iff}
use eavesdrop.Reporter.Leader.{group_responses}
use eavesdrop.Reporter.Phases.{handle_observe}
use eavesdrop.Reporter.Exchange.{
  question, read_back, answer, answered, Succeeds, handle_observe-sent, handle_observe-keeps,
  process_message-current, answer_observations-sent, handle_observe_resp-recorded,
}
use eavesdrop.Server.{Setting}
use eavesdrop.Ocr.{Ocr, reporter_handler, receive}
use eavesdrop.Ocr.Lost.{InvertsRpc}
use eavesdrop.Ocr.Routing.{with_engine, delivered_lem}

-- The engine takes messages.
abbrev pub IsOpen : Engine → Type 0
IsOpen re = (re.locked ≡ false) × (re.ready ≡ true)

-- The engines are in the same epoch and round, under the same leader.
abbrev pub Agrees : Engine → Engine → Type 0
Agrees re other =
    (re.epoch ≡ other.epoch) × (re.cur_round ≡ other.cur_round) × (re.leader ≡ other.leader)

-- A follower's ID is the text of its key, which is of full length.
abbrev pub IsNamed : Env → Engine → Type 0
IsNamed env re =
    (re.server_id ≡ key_string env.crypto re.signer.public)
    × (length (env.crypto.big_bytes re.signer.public.x) ≡ 32)
    × IsPoint env.crypto re.signer.public

-- What such a follower signs is verified under its ID.
named_lem :
    (env : Env) (re : Engine) (msg : Bytes) (sig : Signature)
    → KeyLaws env.crypto re.signer
    → DecodesHex env.crypto
    → IsNamed env re
    → sign env.crypto re.signer msg ≡ some sig
    → (string_to_public_key env.crypto re.server_id ≡ some re.signer.public)
      × (verify env.crypto sig msg re.signer.public ≡ some true)
named_lem env re msg sig laws hex (named, full, point) signed =
    elim (full_keys_only env.crypto re.signer msg sig laws hex point signed) [
      | inl (_, read, valid) ↦ (ap (string_to_public_key env.crypto) named ∙ read, valid)
      | inr (short, _, _) ↦ absurd (short full)
    ]

-- What the follower is asked, as it reads it.
abbrev pub heard : (Value → Value) → Engine → ObserveReq
heard reread re = read_back reread (question re)

module _ (env : Env) (asking follower : Engine) (reread : Value → Value) (service : String → Bool)
    (msg bytes : Bytes) (sig : Signature) (agrees : Agrees follower asking)
    (is_open : IsOpen follower) (in_time : asking.cur_round ≤ max_rounds)
    (able : Succeeds env (heard reread asking).jobs) (served : follower.msg_service ≡ some service)
    (encoded : env.codec.encode (observe_resp (answer env follower (heard reread asking)))
      ≡ some msg)
    (signed : sign env.crypto follower.signer msg ≡ some sig)
    (wired : rpc_bytes env.codec (
        set_signature sig (
          unsigned follower.server_id message_observe_res topic_reporter
            (observe_resp (answer env follower (heard reread asking)))))
      ≡ some bytes) where
  -- The follower answers the leader's request.
  request_answered :
      (from_id : String)
      → process_message env
          (record {
            from_id = from_id;
            topic = topic_reporter;
            data_of = observe_req (heard reread asking);
            signature = no_signature;
          })
          follower
        ≡ returned none (answered env follower (heard reread asking) bytes)
  unfolding dispatch get_common_fields_and_phase
  request_answered from_id =
      process_message-current env follower _ (answered env follower (heard reread asking) bytes)
        is_open.0 is_open.1
        ((prechecks_iff follower (observe_req (heard reread asking)) _ refl).1
          (sym agrees.0, sym agrees.1, sym agrees.2))
        (answer_observations-sent env follower (heard reread asking) bytes msg sig service in_time
          able served encoded signed wired)

  -- The leader keeps the answer.
  answer_recorded :
      (asked : Engine)
      → Agrees asked asking
      → IsOpen asked
      → asked.leader_state.phase_ch ≡ listened
      → KeyLaws env.crypto follower.signer
      → DecodesHex env.crypto
      → IsNamed env follower
      → (re' : Engine) × (process_message env
            (record {
              from_id = follower.server_id;
              topic = topic_reporter;
              data_of = observe_resp (answer env follower (heard reread asking));
              signature = sig;
            })
            asked
          ≡ returned none re')
        × (fetch [] follower.server_id re'.leader_state.observations
            ≡ group_responses (answer env follower (heard reread asking)).job_responses)
        × (re'.cache.observe_n ≡ asked.cache.observe_n + 1)
  unfolding dispatch get_common_fields_and_phase
  answer_recorded asked same free ready laws hex named =
      let m = answer env follower (heard reread asking) in
      let (read, valid) = named_lem env follower msg sig laws hex named signed in
      let (re', done, stored, counted) =
        handle_observe_resp-recorded env asked m follower.server_id sig msg follower.signer.public
          (sym same.1) (agrees.0 ∙ sym same.0) encoded read valid ready in
      (
        re',
        process_message-current env asked _ re' free.0 free.1
            ((prechecks_iff asked (observe_resp m) _ refl).1
              (agrees.0 ∙ sym same.0, sym same.1, agrees.2 ∙ sym same.2))
            done,
        stored,
        counted,
      )

module _ (env : Env) (lib : HashLibrary) (key : Bytes) (rounds : List (List ProtcolPeer))
    (st st' : Setting) (same : st.codec ≡ env.codec) (same' : st'.codec ≡ env.codec)
    (rpc : InvertsRpc env.codec) (hex : DecodesHex env.crypto) where
  -- Two nodes share a codec in which decoding undoes encoding, but for the templates of the jobs that are
  -- asked for, which are read as JSON makes them, signatures of the follower's key are valid, a compressed point
  -- has 33 bytes, and hexadecimal text decodes to what was encoded. A leader, unlocked, ready, listening
  -- and in a round up to the last, asks for the jobs of its round. A follower, unlocked, ready, with a
  -- messaging layer, in the same epoch and round under the same leader, has the text of its key, of full
  -- length, as its ID, succeeds in each job as it reads it, and can encode, sign and send its answer. Both
  -- have their engine registered. Then the bytes that the leader broadcasts, received by the follower,
  -- make it send that answer to its leader, and the bytes of the answer, received by the leader, make it
  -- store the follower's responses, by job, under its ID, and count one observation more.
  pub observation_reaches_leader :
      (asking : Engine) (reread : Value → Value) (leader : Ocr st) (node : Ocr st')
      (service : String → Bool) (msg bytes : Bytes) (sig : Signature)
      → let follower = node.pacemaker.reporter in
        let given = observe_resp (answer env follower (heard reread asking)) in
        handle_observe env asking ≡ next tt leader.pacemaker.reporter
        → IsOpen asking
        → asking.leader_state.phase_ch ≡ listened
        → asking.cur_round ≤ max_rounds
        → lookup topic_reporter leader.handlers ≡ some reporter_handler
        → IsOpen follower
        → Agrees follower asking
        → IsNamed env follower
        → KeyLaws env.crypto follower.signer
        → follower.msg_service ≡ some service
        → lookup topic_reporter node.handlers ≡ some reporter_handler
        → Reads env.codec (observe_req (question asking)) (observe_req (heard reread asking))
        → Inverts env.codec given
        → Succeeds env (heard reread asking).jobs
        → env.codec.encode given ≡ some msg
        → sign env.crypto follower.signer msg ≡ some sig
        → rpc_bytes env.codec (
            set_signature sig
              (unsigned follower.server_id message_observe_res topic_reporter given))
          ≡ some bytes
        → (request : Bytes) × (node' : Ocr st') × (leader' : Ocr st)
          × (leader.pacemaker.reporter.outbox ≡ asking.outbox ++ broadcast request ∷ [])
          × (receive st' env lib key rounds request node ≡ next tt node')
          × (node'.pacemaker.reporter.outbox ≡ follower.outbox ++ send_to asking.leader bytes ∷ [])
          × (receive st env lib key rounds bytes leader ≡ next tt leader')
          × (fetch [] follower.server_id leader'.pacemaker.reporter.leader_state.observations
              ≡ group_responses (answer env follower (heard reread asking)).job_responses)
          × (leader'.pacemaker.reporter.cache.observe_n ≡ asking.cache.observe_n + 1)
  unfolding set_signature unsigned kind_of
  observation_reaches_leader asking reread leader node service msg bytes sig asked free ready
        in_time registered is_open agrees named laws served registered' inv inv' able encoded signed
        wired =
      let follower = node.pacemaker.reporter in
      let q = heard reread asking in
      let (request, sent, out) = handle_observe-sent env asking leader.pacemaker.reporter asked in
      let (e, r, l, locked, open_yet, ch, n) =
        handle_observe-keeps env asking leader.pacemaker.reporter asked in
      let done =
        request_answered env asking follower reread service msg bytes sig agrees is_open in_time
          able served encoded signed wired asking.server_id in
      let (re', took, stored, counted) =
        answer_recorded env asking follower reread service msg bytes sig agrees is_open in_time able
          served encoded signed wired leader.pacemaker.reporter (e, r, l)
          (locked ∙ free.0, open_yet ∙ free.1) (ch ∙ ready) laws hex named in
      (
        request,
        with_engine st' env lib key rounds node (answered env follower q bytes),
        with_engine st env lib key rounds leader re',
        out,
        delivered_lem st' env lib key rounds asking.server_id message_observe_req
            (observe_req (question asking)) (observe_req q) no_signature false request node _ none
            same' rpc inv Decodes.observe_reqs sent registered' done,
        ap (λ i. follower.outbox ++ send_to i bytes ∷ []) agrees.2,
        delivered_lem st env lib key rounds follower.server_id message_observe_res
            (observe_resp (answer env follower q)) (observe_resp (answer env follower q)) sig true
            bytes leader re' none same rpc (Inverts-Reads env.codec _ inv') Decodes.observe_ress
            wired registered took,
        stored,
        counted ∙ ap (λ k. k + 1) n,
      )
