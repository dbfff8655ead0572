-- ===== src/Lib.antt =====
-- A verification library for the Go backend of SyncSpace: devices that find each other on the
-- local network, pair by a verification code that both users compare, and then send each other
-- files.
--
-- The parts. Discovery (backend/internal/discovery) hears advertisements and keeps a registry of
-- peers; it gives presence and no trust. Pairing (backend/internal/pairing) opens a signed
-- exchange with a discovered peer, derives a secret and a code on both sides, and stores the
-- peer as trusted when both users have confirmed. Every other part asks pairing whether a peer
-- is trusted and for its key.
--
-- Base holds what all modules share: Boolean tests, equality as an instance, lists, texts, the
-- association lists that stand for Go's maps (Base/Dict), and the integers of 64 bits with their
-- wrap (Base/Int). Models is backend/internal/models and the identity of
-- backend/internal/services/identity.go.
--
-- Registry is backend/internal/discovery/registry.go: `new_registry`, `upsert` and `sweep` are
-- NewRegistry, Upsert and Sweep on a record of the registry, `step` and `run` make histories of
-- them. Its field `made` lists the events in the order in which the sections under the lock make
-- them; the code publishes them later, so Registry/Replay takes the published events as any
-- sequence that keeps the order for each device. Registry/Validity says what a well-formed
-- registry is, Registry/Invariant, Registry/Liveness and Registry/Replay prove.
--
-- Pairing/Models, Pairing/Crypto and Pairing/Store are models.go with events.go, crypto.go and
-- sqlite_store.go. Pairing/Sessions is the state of service.go with finalizeLocked,
-- applyPeerDecision and pruneLocked; Pairing/Service has the handlers: Begin for RequestPairing,
-- Receive for ReceiveBegin, Confirm for Accept, Refresh, ReceiveProof and Reject, Manage for the
-- table of trusted devices. A handler that talks to the peer between two locked sections is two
-- functions, and Pairing/History runs sections in any order, each with its own clock, peers,
-- draws and answers. Pairing/Trust, Pairing/Agreement, Pairing/Access, Pairing/Answering,
-- Pairing/Rejected, Pairing/Expiry and Pairing/Timestamps prove.
--
-- Broker is backend/internal/websocket/broker.go, whose code pairing_broker.go and
-- transfer_broker.go repeat: publish, subscribe and cancel on the open channels, and a client's
-- reads. Broker/Numbering and Broker/Delivery prove.
--
-- Settings is backend/internal/settings/store.go: validation, migration, update and the
-- acceptance of the privacy policy, over a file whose operations may fail. Settings/Privacy
-- proves.
--
-- Network is backend/internal/discovery/network.go: which interface's address this device
-- advertises, by what the methods of net.IP say of it. Database is
-- backend/internal/database/migrations.go: the run of a list of migrations. Api is the privacy
-- gate of backend/internal/api/router.go and the guard of the local routes in pairing.go.
-- Network/Preferred, Database/Repeated and Api/Closed prove.
--
-- Transfer is backend/internal/transfer. Transfer/Models is models.go and errors.go;
-- Transfer/Store is sqlite_store.go, with transfers, files, chunks and the four tables that
-- mirror the states; Transfer/Paths is validateRelativePath and secureJoin of files.go,
-- Transfer/Conflicts its resolveConflict, Transfer/Chunks its chunkCount with the offset and the
-- size of a chunk; Transfer/Externals is auth.go with the tests of tokens and addresses. Of
-- service.go, Transfer/Control has the handlers that move a transfer from state to state
-- (Reject, Pause, Resume, Cancel, Retry, ProtocolCancel and DeleteHistory), Transfer/Requests
-- Queue and Accept, Transfer/Offers ReceiveOffer, Transfer/Receiving ReceiveChunk,
-- refreshProgress and ProtocolStatus, Transfer/Parts the part files that they write,
-- Transfer/Finalizing Finalize, Transfer/Dispatch dispatch, Transfer/Recovery what a restart
-- does, Transfer/Throttle the pacing of the sender, Transfer/Nonces the cache of authentication
-- nonces, Transfer/Clock the check of timestamps. Transfer/Sending is sendChunk of sender.go and
-- Transfer/Sending/Outbound processOutbound, which sends the chunks that Transfer/Sending/Tasks
-- lists; Transfer/Staging is staging.go. Their children, Transfer/Steps, Transfer/Final and
-- Transfer/Mirrors prove.
--
-- How sender and receiver meet: both cut a file by Transfer/Chunks; the sender's request of
-- Transfer/Sending is the argument of Transfer/Receiving, which writes the part files that
-- Transfer/Finalizing checks and moves. The part files are a map from paths to bytes; the rest
-- of the disk is answers to questions, given as arguments.
--
-- Numbers. Times are natural numbers of nanoseconds since 1970; the protocol's timestamps are
-- integers of 64 bits, with the wrap of their difference. Sizes and indices of transfers are
-- integers of 64 bits. Every loop is over a list, but for four that count: the indices of a
-- file's chunks, the retries of a chunk (three attempts), the search for a free name (9999
-- candidates), all as in the code, and the digits of a number (twenty, enough for 64 bits).
--
-- Parameters. The functions of Go's crypto, encoding and strconv packages, of HKDF, of uuid and
-- of net.ParseIP are fields of `Primitives`, `Parsers`, `Externals`, `Contents` and `Encoding`,
-- the path functions of Go's filepath, which differ by platform, of `Platform`; a theorem that
-- needs one of their laws names it. What a database call answers when it fails, the peer's
-- answers and random draws are arguments.
--
-- Not modelled: log lines, JSON and SQL texts, files and sockets, the command line, the desktop
-- shell, the simulator; of file transfer the walk of a directory for its manifest, the TLS
-- client, the HTTP requests, which are answers here, and the copying of a file into place. In
-- the histories of Transfer/Control each handler is one step, and workers, chunks and Finalize
-- are not among the steps: a history of the whole transfer service is not modelled. What Reject,
-- Cancel and ProtocolCancel do after their read, which they make without the lock of the save,
-- is a function of its own, so that Transfer/Overtaken can put the end of the transfer in
-- between. Sending uses one worker for the chunks of a transfer, where the code may run several.
-- Discovery over mDNS, the HTTP handlers and the identity files are not modelled.
pub mod Base
pub mod Models
pub mod Registry
pub mod Pairing
pub mod Api
pub mod Broker
pub mod Database
pub mod Network
pub mod Settings
pub mod Transfer
