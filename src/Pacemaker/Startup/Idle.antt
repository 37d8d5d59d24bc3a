-- ===== src/Pacemaker/Startup/Idle.antt =====
-- What a leader has to do after it has started.
use eavesdrop.Prelude.{String, Bool, nat_eq, List, Bytes}
use eavesdrop.Go.{Body}
use eavesdrop.Crypto.{PrivateKey}
use eavesdrop.Jobs.DirectRequest.{JobLibrary}
use eavesdrop.Jobs.Reader.{SpecLibrary}
use eavesdrop.LeaderSelection.{HashLibrary, ProtcolPeer}
use eavesdrop.Reporter.Lifecycle.{QueueItem}
use eavesdrop.Pacemaker.{Pacemaker}
use eavesdrop.Pacemaker.Startup.{JobSourceConfig, start_pacemaker}

module _ (jobs : JobLibrary) (specs : SpecLibrary) (lib : HashLibrary) (secret_key : Bytes)
    (rounds : List (List ProtcolPeer)) (config : JobSourceConfig) (polls : List (List QueueItem))
    (signer : PrivateKey) (service : String → Bool) where
  abbrev run_start : Body Pacemaker (Unit {0})
  run_start = start_pacemaker jobs specs lib secret_key rounds config polls signer service
