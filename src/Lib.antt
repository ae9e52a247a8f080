-- ===== src/Lib.antt =====
-- hyperdht: models of the parts of this repository that keep state or read bytes.
--
-- lib/private is an anonymous routing layer beside the DHT in lib. Its parts meet as follows: cells
-- arrive with authenticated counters, which lib/private/counters.js orders or checks for replays,
-- once lib/private/cell-codec.js opened them; their payloads are objects of two wire registries,
-- lib/private/peer-protocol.js and lib/private/protocol.js; what a route may send is computed,
-- reserved and spent in lib/private/peer-ledger.js. lib/private/private-peer-controller.js carries
-- the streams of one circuit in logical frames and shares the credit of the circuit among them.
-- Who can be reached is published in signed records of lib/private/blinded-presence.js. In lib,
-- lib/nat.js classifies the NAT in front of a socket, which decides how a connection is made, and
-- lib/semaphore.js bounds the work in flight. Nodes of the DHT keep records for others in
-- lib/persistent.js, and lib/router.js passes the handshakes and holepunches of peers on, both in
-- the messages of lib/messages.js.
--
-- Files:
--   Prelude, Prelude/*     Boolean tests, lists, bits, integers and association lists over native
--                          numbers.
--   Errors                 lib/private/errors.js: the codes, and calls that return or throw one.
--   Values                 the JavaScript values that checks tell apart; every other value is
--                          `other`.
--   Counters, Counters/*   lib/private/counters.js. Counters.Sender is `SenderCounter`,
--                          Counters.Receiver is `OrderedReceiver`, Counters.Window is
--                          `DatagramReplayWindow`. Private fields are record fields of the same
--                          names; a method is a function from a state to a result and a state. The
--                          clock and the observer callback are arguments. Receiver/History and
--                          Window/Run are sequences of calls.
--   Wire, Wire/*           the framing that peer-protocol.js and protocol.js each write out.
--   PeerProtocol,          lib/private/peer-protocol.js: `PEER_MESSAGE_ID`, `PEER_OBJECT_LAYOUT`,
--   PeerProtocol/*         `encodePeerObject`, `decodePeerObject`.
--   M3Protocol,            lib/private/protocol.js: `M3_OBJECT_LAYOUT`, `encodeM3Object`,
--   M3Protocol/*           `decodeM3Object`.
--   Ledger, Ledger/Budget, lib/private/peer-ledger.js: the argument checks, and the sizes of a
--   Ledger/Budget/*        route from `computePeerSemanticOwnedBytes` to `computePeerRouteBudget`.
--   Ledger/Accounts,       lib/private/peer-ledger.js: the ledgers from `createPeerLedger` to
--   Ledger/Accounts/*      `isPeerLedgerWithin`. Handles are numbers in the order of creation.
--   Ledger/Memory,         lib/private/peer-ledger.js: the memory pools from `createPeerMemoryPool` to
--   Ledger/Memory/*        `readPeerMemory`.
--   Ledger/Branches,       lib/private/peer-ledger.js: the branch slots, from `createPeerBranchSlots`
--   Ledger/Branches/*      to `readPeerBranchSlots`. Branches/Run is any sequence of calls on pools,
--                          branches and their ledgers.
--   Ledger/Narrow,         lib/private/peer-ledger.js: `narrowPeerReservations`.
--   Ledger/Narrow/*
--   Nat, Nat/*             lib/nat.js: the class `Nat` and `addSample`.
--   Cells, Cells/*         lib/private/cell-codec.js: `seal` and `open` of the class `CellCodec`, with
--                          the cipher as the parameter `Crypto`.
--   Circuits, Circuits/*   lib/private/private-peer-controller.js: the class `CircuitCreditPool`.
--                          Circuits/Calls is any sequence of its calls.
--   Guards, Guards/*       lib/private/private-peer-controller.js: the class `PinnedGuards`.
--                          Guards/Pinned has sequences of its calls.
--   Logical, Logical/*     lib/private/private-peer-controller.js: `encodeLogical`, `decodeLogical`,
--                          `sendCredit`, the route contexts, and `counterOrigin`.
--   Blinding, Blinding/*   lib/private/blinded-presence.js: the blinded keys and signers, over the
--                          package sodium as the parameter `Sodium`.
--   Presence, Presence/*   lib/private/blinded-presence.js: presence records, the state of a reader,
--                          and the periods, over the parameter `Suite`. Presence/Lookup puts a
--                          record at a node of Persistent and gets it there.
--   Messages, Messages/*   lib/messages.js: one `Encoding` for each message over the package
--                          compact-encoding, which is the parameter `Compact` with the `Laws` that
--                          it keeps. `Messages.Tests` has an instance of it.
--   Dht, Dht/Tests         what lib/router.js and lib/persistent.js use of the node, of caches, hashes
--                          and signatures: the parameter `Node` and its laws, and an instance.
--   Router, Router/*       lib/router.js: the forward table of the class `Router`, and its methods from
--                          `peerHandshake` to `onpeerholepunch`. Router/Route runs `onpeerhandshake`
--                          at the nodes that a request is relayed to.
--   Persistent,            lib/persistent.js: the handlers of the class `Persistent`, as functions from
--   Persistent/*           a request and a state to a state and a response. Persistent/Run is any
--                          sequence of the requests that change the state.
--   StreamSet, StreamSet/* lib/raw-stream-set.js: the class `RawStreamSet`. The ids that are drawn are
--                          an argument.
--   Semaphore, Semaphore/* lib/semaphore.js: the class `Semaphore`, and sequences of its calls.
--
-- Fuel: the drain of the receiver's buffer takes as many rounds as the buffer has entries and one
-- more, since each round but the last removes an entry (Counters/Receiver/Order). The loops over
-- the ancestors of a ledger take as many rounds as there are ledgers, since a parent is created
-- before its children, and so does the recursion of a release. Memory is released likewise, with
-- the number of pools. A handshake takes four steps at most, since each relaying raises its mode in
-- the order of the way (Router/Route). A distribution of credit takes as many rounds as credit is
-- asked for and legs stand in the queue, since each round grants credit or shortens the queue, and
-- what `onGrant` calls during it adds to neither (Circuits/Sharing).
--
-- Numbers: counters and amounts are exact. Where the source computes with Numbers, every value
-- above 2 ^ 32 - 1 or 2 ^ 53 - 1 that could lose digits is refused. Subtraction on ℕ stops at 0;
-- where the source could go below, the test stands in the model, or the invariant excludes it.
--
-- Not modelled: the reusable contexts of cell-codec.js, which differ from `seal` and `open` in the
-- memory they use; buffers are lists of bytes, so that copying and zeroing them does not show.
-- Property descriptors are read once and without effects; a trap that throws is a refused value.
-- Caches may drop entries, handlers of servers are parameters, and asynchronous waits and sockets
-- do not show. Of private-peer-controller.js the links, streams and routes, which drive sockets, are
-- left out, and `onGrant` of the credit pool adds no leg and asks for no credit. Signing in
-- lib/persistent.js, `autoSample` of lib/nat.js, and the files of lib that drive sockets, timers and
-- cryptography are left out.
pub mod Prelude
pub mod Errors
pub mod Values
pub mod Counters
pub mod Wire
pub mod PeerProtocol
pub mod M3Protocol
pub mod Ledger
pub mod Nat
pub mod Blinding
pub mod Cells
pub mod Circuits
pub mod Dht
pub mod Guards
pub mod Logical
pub mod Messages
pub mod Persistent
pub mod Presence
pub mod Router
pub mod Semaphore
pub mod StreamSet
