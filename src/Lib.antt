-- ===== src/Lib.antt =====
-- Betterkey: a key server for confidential machines whose nodes share one master key.
--
-- A node (internal/cluster) joins a memberlist of peers. A fresh cluster is seeded: the first of the
-- configured seed nodes draws the master key, the seed nodes exchange it, and a node that has it from
-- every other one stores it and is READY. Any other node asks a READY one for the key; a restarted node
-- checks its key by a challenge. READY nodes send heartbeats, which prove that they hold the key. The
-- key lies in a sealed file (internal/sgx); all other values lie in Valkey, sealed by the key
-- (internal/db). The web server (internal/web) hands out derived keys to machines that attest.
--
-- The files and the code:
--   Prelude and its modules: lists, byte strings and association lists over the native numbers.
--   Common/Model, Common/Services, Common/KeyStore: internal/common/common.go and services.go; a
--     `Platform` is the code of other packages, AES-GCM, HKDF, the SGX seals and the JSON of a member,
--     and `IsLawful` (Common/Laws) is what is relied on of it.
--   Common/Result: errors and panics. A panic ends the process of a node.
--   Common/Hex: encoding/hex of the standard library. Common/Set: internal/common/set.go; a map
--     is the list of its keys, in the order in which they came.
--   Sgx/KeyStore: the store of the master key in internal/sgx/enclave.go.
--   Db: internal/db/valkey.go; a `Valkey` is the client library and the server.
--   Cluster/Message: the constants and messages of internal/cluster/state.go. Cluster/Seed: seed.go.
--     Cluster/HeartBeat: heartbeat.go. Cluster/Node: node.go, with the loops of state.go, query.go and
--     validate.go; Cluster/Node/Handlers: the handlers of messages and the goroutines, which are tasks
--     of a node; Cluster/Node/Retrying: the loops that answer, round after round. Cluster/Election: who
--     generates the key.
--   Cluster/System: a whole cluster, with a network of messages. An `Event` is one step of one node:
--     it starts, looks for a key, takes a message, handles one, or runs a goroutine. Any list of events
--     is a run, so that messages may be lost, repeated or late and goroutines run in any order. The
--     `World` of an event holds what the outside decides: randomness, clock, disk, members and which
--     sends succeed.
--   Tdx: internal/tdx/quote.go and eventlog.go; `Quoting` is what parses quotes and logs and checks
--     signatures. Tdx/Measured: what a log must say, without the loops; Tdx/Summary: what of a quote
--     goes to the journal.
--   Crypto: internal/crypto/keygen.go and pkg/aes/encrypt.go, over the standard packages in
--     `Toolkit`. Crypto/Signing: internal/crypto/sign.go, over crypto/ecdsa and encoding/asn1 in
--     `Signer`.
--   Web/Session: store.go, session.go, Init of attestation.go and the session id of
--     internal/crypto/random.go. Web/Attestation: Verify of attestation.go;
--     Web/Attestation/Accepted: the quotes that it lets pass. Web/KeyService: key_service.go, with
--     SignWithECDSA in Web/KeyService/Signing. Web/KeyServer and Web/SealServer: the handlers of
--     key_handlers.go and seal_handlers.go, with the settings of server.go. Web/KeyServer/Release,
--     Replay, Completing and Sharing: what a key is given for, to whom, and by which nodes.
--     Web/CertStorage: cert/cert_storage.go. All of these are in internal/web. A handler takes the
--     request that the body decodes to and gives an answer, the store and the journal entries.
--   Sgx/Report: the checks of reports and peer certificates in internal/sgx/enclave.go, and
--     internal/crypto/x509.go. Cluster/Bootstrap: internal/cluster/bootstrap.go. Journal:
--     providers/journal/journal.go and s3.go, over the results of the uploads.
--   Cluster/Transport: internal/cluster/transport/tls.go, the frames and tcpListen, whose accepted
--     connections and errors are a list of events; Routing: what reaches memberlist; Pausing: the
--     delay after errors and the end of the loop. The time of a delay is counted in milliseconds.
--   Cluster/Lifecycle: notifyStateChange of state.go, and a node with its listener as a process,
--     whose goroutines, messages and timers act in any order; Moves and Rounds: what each operation
--     does to the state; History: the states one after the other; Telling: what the listener hears.
--   Sgx/Tls: NewNodeTlsConfig and the TLS settings of internal/sgx/enclave.go; `server_admits` is
--     what crypto/tls makes of them. Sgx/Tls/Mutual: which peers a node admits.
--   Common/Config: ClusterConfig. Cluster/Transport/Addresses: NewNetTransport, GetAutoBindPort and
--     FinalAdvertiseAddr, and internal/common/net.go. Cluster/Startup: the whole of NewNode over
--     them, whose panics and log.Fatalf end the process; Cluster/Startup/Advertised: what a started
--     node is.
--   Web/Http: request.go, response.go and middleware.go of internal/web, over encoding/json; a
--     `Writer` is the response as net/http has it. Web/Requests: pkg/api/model.go. Web/Server:
--     NewKeyServer of server.go. Web/Endpoint: the routes of server.go, and handlers.go, from a
--     request to the response, the store and the journal; Endpoint/Replies, Endpoint/Justified: what
--     a response is and what stands behind it; Endpoint/Attesting: the quote of the server and its
--     client. Web/Cert: cert/cert.go, over certmagic.
--   Cluster/Lifecycle/Keyed and ReadyKey: the key of a READY node. Program: Start of
--     internal/cluster/bootstrap.go, which joins the node and the web server; Program/Opening: when
--     the server is opened.
--   Tests: concrete platforms, stores and runs, to which the theorems are applied.
--
-- Strings and byte slices are lists of numbers. Integers are natural numbers: times, lengths and counters,
-- far from the bounds of a machine word; the 16 bits of a product id and the scalars of keys, which are
-- big integers in the code, are written out. The digits of a number are read on fuel, which is the number
-- itself, since a number has no more digits than its value. No other definition takes fuel: a retry loop
-- is one round, which leaves a task for the next round. The locks of the code make each handler one step.
--
-- Not modelled: the sockets and handshakes of TLS, and the memberlist library, which is what the world
-- of an event says of it, so that the loops which wait for a first peer are not there; the shutdown of a
-- node and of its transport, and the start and the stop of the web servers, which are calls of libraries
-- and signals; the reading of the configuration by env, toml and flag, the settings of certmagic and
-- the providers of DNS; logging, temporary files, and the main function of cmd/bootstrap.
pub mod Prelude
pub mod Common
pub mod Sgx
pub mod Db
pub mod Cluster
pub mod Tdx
pub mod Crypto
pub mod Web
pub mod Journal
pub mod Program
pub mod Tests
