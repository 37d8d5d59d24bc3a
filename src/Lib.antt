-- ===== src/Lib.antt =====
-- Verification of eavesdrop, an off-chain reporting oracle: nodes elect a leader for each epoch, the
-- leader asks them to observe jobs, collects their observations and their reports, assembles a final
-- report that f + 1 nodes agree on, and sends it out for attestation.
--
-- How the files correspond to the code, with paths from the repository's root:
--
--   Consensus          ocr/leader.go, assembleFinalReport; ocr/report.go. The loop
--                      over reports is `tally` (`count_report`, `count_entry`, `record_vote`), the loop
--                      over jobs `settle` (`settle_job`, `first_agreed`, `settle_hash`).
--   LeaderSelection    ocr/leader_selection.go, findLeader and hashPeer; exponentialBackoff of
--                      ocr/pacemaker.go.
--   Reporter           ocr/reporter.go: `Engine` is ReportingEngine. `Reporter.Process` has
--                      ProcessMessage and its prechecks, `Reporter.Follower`, `Reporter.Finals` and
--                      `Reporter.Leader` the cases of its type switch, `Reporter.Steps` what they share, and
--                      `Reporter.Lifecycle` initReporter and Start. LeaderState stands in
--                      ocr/leader.go, ObservationSafeMap in ocr/observation_map.go. `Reporter.Phases`
--                      has the leader's phase handlers of ocr/leader.go, handleObserve to
--                      handleTransmit, and `Reporter.Orchestra` what orchestrateLeadership does with
--                      them, as a step relation; `Reporter.Transmission` is ocr/transmitter.go.
--   Pacemaker          ocr/pacemaker.go: EpochStats, processNewEpochMsg and switchToNewEpoch, whose
--                      calls of the reporting engine are `Reporter.Steps.stop_engine` and
--                      `Reporter.Lifecycle.start_engine`. `Pacemaker.Startup` has Start,
--                      launchJobListeners and waitForEvents, and `Pacemaker.Loop` the loop of its goroutine.
--   Rpc, Rpc.Codec     rpc/, the messages and RPCMessageBuilder, and DefaultRPCDecoder of
--                      ocr/server_rpc_processor.go; `Rpc.Builder` is MessageBuilder.
--   Jobs               ocr/jobs/: direct requests, how a job is run, and the mean assembler;
--                      `Jobs.Reader` is job_reader.go, with the file system and TOML as parameters.
--   Crypto             crypto/keypairs.go, with `Crypto.Keys` for private keys and key addresses;
--                      `Crypto.Address` is crypto/address.go.
--   Transport          network/libp2p_transport.go: SendMsg, Broadcast, readLoop, HandlePeerFound.
--   Server             ocr/server.go: handleNewPeer, the loops of Start, IsPeer, SendMsg; and the server's
--                      own topic in ProcessMessage of ocr/server_rpc_processor.go; `Server.Loops` has the goroutines of
--                      Start as a step relation.
--   Ocr                ocr/ocr.go: NewOCR and Start; `deliver` and `route` are the server's loop over
--                      messages and ProcessMessage of ocr/server_rpc_processor.go. `Ocr.World` is a whole node with
--                      its goroutines, as a step relation.
--   Timer, Utils       ocr/timer.go, with `Timer.Ticking` for the goroutine of NewTimer, and
--                      utils/common.go.
--   Go, GoMap          what Go itself does: calls that return, panic or wait for ever, and maps.
--   Scenarios          small runs of the code, at which the results below are applied.
--
-- How they interact: `Ocr.receive` takes bytes from the transport through the server and its decoder to
-- the server's own handler, the pacemaker or the reporting engine. `Reporter.Process.process_message`
-- takes a decoded message (`Rpc`) to a handler; the handlers verify signatures (`Crypto`), run jobs and
-- assemble their values (`Jobs`), and at the leader call `Consensus.assemble_final_report`.
-- `LeaderSelection` says who the leader is. `Pacemaker.Startup` reads the jobs (`Jobs.Reader`), queues
-- their events and starts the engine. A channel of the server is the list of what was not received from
-- it yet.
--
-- The style of the model. A method on a pointer is a function from a state to a `Flow` (Go.antt): it
-- goes on, or it ends by returning, panicking or waiting for ever, with the state it leaves. What is
-- sent goes to `outbox`, what is sent on the phase channel to `signals`. Go leaves the order of a range
-- over a map open, so `MapOrder` gives any permutation of the entries. A statement about a state is
-- about every state, reachable or not, and every `Env`.
--
-- Loops are recursion on the list that is ranged over. The retry loop of exponentialBackoff, which has
-- no bound, runs over the list of the peers as they are in each round, and gives no result where that
-- list ends first: a list with one round that has peers is enough. The
-- pacemaker's uint64 counters wrap at 2 ^ 64. Elsewhere integers are compared and incremented only, and
-- are unbounded: f + 1 does not overflow for any number of nodes.
--
-- Parameters. Packages that the code only calls are arguments: the elliptic curve, SHA-256 and hex
-- (`CryptoLibrary`, `KeyLibrary`, `HashLibrary`), JSON (`Hashing`, `Codec`, `Env`), HTTP, strconv and
-- floats (`JobLibrary`), context.WithTimeout, the libp2p host (`HostLibrary`), files and TOML
-- (`SpecLibrary`) and the AVL tree of peers (`AvlLibrary`), which the leader selection takes as the list
-- of its values. Goroutines that observe jobs run to their end, one after the other, and what they send is
-- read in any order. The leader's goroutines and its grace timers interleave in any order, each as one
-- step.
--
-- Not modelled: the start of the transport, which only sets up libp2p, keys on disk, the config reader
-- and logging.
pub mod Prelude
pub mod GoMap
pub mod Crypto
pub mod Jobs
pub mod Rpc
pub mod Consensus
pub mod LeaderSelection
pub mod Go
pub mod Timer
pub mod Utils
pub mod Transport
pub mod Server
pub mod Reporter
pub mod Pacemaker
pub mod Ocr
mod Scenarios
