-- ===== src/Lib.antt =====
-- A model of the relayer of the Eywa bridge, a node that watches blockchains for requests, agrees
-- on each with the other nodes by BLS multisignatures, and forwards it.
--
-- The parts and their files:
--   Consensus/Mask, Consensus/Message, Consensus/Session: consensus/session/tlc.go, session.go and
--     message.go, the agreement on one event. `Session.Config` and `Session.Session` are the struct
--     `Session`; `Session.Run` adds the locals of `WaitForProtocolMsg`: whether its mutex is held,
--     whether its context is done, who waits for the agreement, the goroutines that are stuck, and
--     what was broadcast. `handle` is the goroutine that it starts for a message, with
--     `handle_announce`, `handle_prepare` and `handle_prepared` for the cases of its switch; `step`
--     adds what happens around it; `run` is a sequence of such steps, in any order.
--   Consensus/Topics: consensus/consensus.go, the topics that a node has joined and its
--     subscriptions; what go-libp2p-pubsub answers is an argument of the methods.
--   Node/QuitHandlers: node/bridge/quit_handlers.go, the registry of the channels that end a
--     running protocol when a newer one starts on the same topic.
--   Node/Setup: `BlsSetup` of node/bridge/node.go, which gathers the membership key of an epoch.
--   Node/Requests, Node/Distribute: `NewSession`, `HandleOracleRequest` with the protocol that it
--     starts, `HandleNewEpoch` and `ReceiveRequestV2` of node/bridge/node.go, and
--     node/bridge/distribute.go. Rounds of waiting are lists; `start_protocol_by_oracle_request`
--     tells whether a function that adds to its wait group comes to its end.
--   Node/Contracts: node/contracts, the bridges, the forwarders and the registry of the nodes.
--   Node/Start: `NewNodeWithClients` and `RegisterNode` of node/bridge/init.go, over Eth/Clients and
--     Node/Contracts.
--   Node/Run: `RunNode` of node/bridge/init.go, which adds the watchers to the clients, over Eth/Watchers,
--     Eth/Clients and Node/Start.
--   Node/Epoch: `StartEpoch` and `SpreadNewEpoch` of node/bridge/node.go, over Node/Setup,
--     Node/QuitHandlers and Consensus/Topics.
--   Gsn: libp2p/rpc/gsn, and forward/bridge.go, which makes the requests: a client and a server of
--     the gas station network. `Delivered` puts them together, `Discovery` is how a client finds a
--     server.
--   Eth/LogCache: extChains/eth/log_cache.go, by which a watcher skips the logs that it has seen.
--   Eth/Client, Eth/Methods, Eth/Watchers: extChains/eth/client.go, client_methods.go and watcher.go.
--     `Client.Client` has the connection of a client and `Watchers.Service` what its watchers and
--     their loop add; `Client.get_client` is `getClient`, and each method of `Methods` calls it.
--   Eth/Clients: extChains/clients.go, the clients by chain.
--   Chain/Merkle: chain/merkle_tree.go, the tree over the transactions of a block.
--   Chain/Header: chain/header.go and chain/epoch.go, the header of a block.
--   Chain/Rawdb: chain/rawdb, the keys of the key-value store (schema.go) and what is read and
--     written under them (accessors_chain.go). `Rawdb.Accessors.Database` is the interface to the
--     store, and `Rawdb.RoundTrips.IsStore` what is asked of it; `Rawdb.Entry.Entry` names what is
--     kept, whatever its key.
--     Chain/Rawdb/Lookup is chain/rawdb/indexes.go, where transactions are found.
--   Chain/Storage: chain/storage, the store over goleveldb, which chain/rawdb can use.
--   Chain/Block: chain/block.go, a block with its hash.
--   Chain/Transaction: chain/transaction.go, what travels in a block.
--   Chain/Pool: chain/tx_list.go and chain/tx_pool.go, the pool of the transactions that wait.
--     `Pool.Heap` is nonceHeap with container/heap, `Pool.TxMap` txSortedMap, `Pool.TxList` txList,
--     and `Pool.TxPool` the pool, whose goroutine is `TxPool.loop` over the messages that it receives.
--     `TxPool.Log.Implements` relates a pool to the log of the requests that came.
--   P2p/Schedule: libp2p/schedule/time.go, when a stream of times starts.
--   P2p/Leader: libp2p/leader_provider.go, the choice of the node that acts on an event.
--   P2p/Uptime: libp2p/rpc/uptime/client.go, the list of uptimes that the leader of an epoch makes
--     out of its own meters and the other nodes' reports.
--   Common/Bytes32: common/bytes32.go, texts in arrays of 32 bytes.
--   Base: the Boolean tests, lists, maps and outcomes that the models share. An `Outcome` is a
--     result or a panic of the Go runtime, with its cause. Base/Dict has maps as association lists.
--   Tests: the models at small inputs.
-- For each part, the file of its name holds the definitions, and the files in the folder of that
-- name hold what is proved of them.
--
-- Bounds: the word loop of `Popcount` runs on fuel 65, one test more than a word has bits, and its
-- list of words on the number itself as a bound, which is no less than the number of its words. So
-- do the bytes of a `big.Int`. The rounds of container/heap's `up` and `down` run on the length of
-- the heap, and the loop of `Ready` on the length of the index, which each round shortens. `getClient` calls
-- itself at most once, so it runs on fuel 2. No other definition has fuel. Integers of 64 bits that are only
-- compared, and indices into slices, are natural numbers; the index that a message carries is an
-- integer, since it may be negative. The masks are arbitrarily long, as `big.Int` is.
--
-- Concurrency: what runs under one mutex is one step. The goroutine of a message reads and writes
-- the shared state of its session under one mutex, so the goroutines' order is the order of the
-- steps. A return without an unlock leaves the mutex held, and a goroutine that comes to it later
-- is counted as stuck. What the other goroutines of a client do while one of its methods is between
-- two locks, or waits at the channel of signals, is told by `Client.Network`: `read_again` is what they
-- leave in the field that `getClient` reads after its unlock, and `drains` whether the loop takes a
-- signal. A failed receive in `BlsSetup`, or a nil head of the chain, is an argument too.
--
-- Parameters: the multisignatures of bls-crypto and the encoding of message bodies are the fields of
-- `Message.Crypto`; what one theorem needs of them is `Liveness.CryptoLaws`. The hash of the Merkle
-- tree and of the leaders, the text of a peer's identity, the hexadecimal text of a hash, rlp and
-- `BytesToHash` are functions or records of them. `Transaction.Requests` has what is read of a
-- request of the package wrappers, `Storage.LevelDb` is goleveldb,
-- `Client.Network` what the nodes of a chain answer, and
-- `Methods.Backend` the calls of go-ethereum.
--
-- Not modelled: the network and its set-up (libp2p), generated bindings of contracts,
--   configuration, commands, logging and metrics, which are input and output; the conversion of
--   messages to bytes and typed data (forward/base.go), which are calls of libraries; and what is yet
--   to be written: the server of libp2p/rpc/uptime.
pub mod Base
pub mod Node
pub mod Chain
pub mod Eth
pub mod Gsn
pub mod Consensus
pub mod Tests
pub mod P2p
pub mod Common
