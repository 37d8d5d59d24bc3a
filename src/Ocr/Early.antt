-- ===== src/Ocr/Early.antt =====
-- A message for the reporting engine that arrives before the pacemaker has started.
use eavesdrop.Prelude.{
  ℕ, ◌≡◌, ◌≢◌, refl, String, Bool, true, false, Option, some, List, Bytes, ◌==◌, nat_eq, string_eq,
  arith,
}
use eavesdrop.GoMap.{lookup}
use eavesdrop.Go.{next, exit, blocked, returned, ◌>>◌, GoError}
use eavesdrop.Crypto.{PrivateKey}
use eavesdrop.Jobs.DirectRequest.{JobLibrary}
use eavesdrop.Jobs.Reader.{SpecLibrary}
use eavesdrop.LeaderSelection.{HashLibrary, ProtcolPeer, exponential_backoff}
use eavesdrop.Rpc.{DecodedMsg}
use eavesdrop.Rpc.Codec.{topic_reporter}
use eavesdrop.Reporter.{Engine, Env}
use eavesdrop.Reporter.Process.{process_message}
use eavesdrop.Reporter.Lifecycle.{QueueItem, init_reporter}
use eavesdrop.Pacemaker.{Pacemaker, on_reporter, init_ticker_time, max_backoff}
use eavesdrop.Pacemaker.Startup.{JobSourceConfig, start_pacemaker}
use eavesdrop.Server.{Setting}
use eavesdrop.Ocr.{Ocr, reporter_handler, route}
use eavesdrop.Ocr.Routing.{routed_lem}

-- An engine that is not ready keeps its mutex.
unready_lem :
    (env : Env) (msg : DecodedMsg) (re : Engine)
    → re.locked ≡ false
    → re.ready ≡ false
    → (err : Option GoError) × (stuck : Engine) × (process_message env msg re ≡ returned err stuck)
      × (stuck.locked ≡ true)
unfolding process_message
unready_lem env msg re free unready = (
  some GoError.not_ready,
  record re { locked = true },
  rw (process_message, free, unready) refl,
  refl,
)

-- An engine whose mutex is held is not initialised.
blocked_lem :
    (jobs : JobLibrary) (specs : SpecLibrary) (lib : HashLibrary) (secret_key : Bytes)
    (rounds : List (List ProtcolPeer)) (config : JobSourceConfig) (polls : List (List QueueItem))
    (signer : PrivateKey) (service : String → Bool) (leader : ProtcolPeer) (sleeps : List ℕ)
    (p : Pacemaker)
    → exponential_backoff lib p.stats.e secret_key max_backoff init_ticker_time p.ocr_id rounds
      ≡ some (leader, sleeps)
    → leader.server_id ≢ p.ocr_id
    → p.reporter.locked ≡ true
    → start_pacemaker jobs specs lib secret_key rounds config polls signer service p
      ≡ exit (blocked p)
unfolding start_pacemaker on_reporter init_reporter
blocked_lem jobs specs lib secret_key rounds config polls signer service leader sleeps p elected
      other held =
    let follows : (leader.server_id == p.ocr_id) ≡ false =
      ground (arith, other, string_eq.beq_iff leader.server_id p.ocr_id) in
    rw (elected, follows, ◌>>◌, held) refl

module _ (st : Setting) (env : Env) (lib : HashLibrary) (secret_key : Bytes)
    (rounds : List (List ProtcolPeer)) (jobs : JobLibrary) (specs : SpecLibrary)
    (config : JobSourceConfig) (polls : List (List QueueItem)) (signer : PrivateKey)
    (service : String → Bool) where
  -- If a node whose engine is unlocked and not ready, and which would elect another node, gets a message
  -- for its registered reporting engine, then the message is handled, and the pacemaker, when it starts
  -- afterwards, waits for ever.
  pub early_message_blocks :
      (msg : DecodedMsg) (o : Ocr st) (leader : ProtcolPeer) (sleeps : List ℕ)
      → msg.topic ≡ topic_reporter
      → lookup topic_reporter o.handlers ≡ some reporter_handler
      → o.pacemaker.reporter.locked ≡ false
      → o.pacemaker.reporter.ready ≡ false
      → exponential_backoff lib o.pacemaker.stats.e secret_key max_backoff init_ticker_time
          o.pacemaker.ocr_id rounds
        ≡ some (leader, sleeps)
      → leader.server_id ≢ o.pacemaker.ocr_id
      → (o' : Ocr st) × (route st env lib secret_key rounds msg o ≡ next tt o')
        × (start_pacemaker jobs specs lib secret_key rounds config polls signer service o'.pacemaker
            ≡ exit (blocked o'.pacemaker))
  early_message_blocks msg o leader sleeps topic handled free unready elected other =
      let (err, stuck, done, locked) = unready_lem env msg o.pacemaker.reporter free unready in
      let p = record (o.pacemaker) { reporter = stuck } in
      (
        record o { pacemaker = p },
        routed_lem st env lib secret_key rounds msg o stuck err topic handled done,
        blocked_lem jobs specs lib secret_key rounds config polls signer service leader sleeps p
            elected other locked,
      )
