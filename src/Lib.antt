-- ===== src/Lib.antt =====
-- Orv, the Slims implementation (implementations/slims/slims): a tree of Vaultkeepers that know which
-- child offers which service. This library models the versions and the header of a packet, the
-- state of a Vaultkeeper, the handlers of its packets, what it does of its own accord, and the clients
-- that talk to it, and the older proof of concept (implementations/proof/proof) in the same way.
--
-- The parts and the code that they model, whose paths are under implementations/slims/slims
-- where nothing else is said:
-- * Version (protocol/version/version.go): versions as bytes, and sets of versions.
-- * Protocol (protocol/protocol.go): the header of a packet on the wire, and its validation.
--   Protocol.Transport has the bytes of a packet, and what comes of writing and reading it.
-- * Errnos (slims.go): errors that bear the number of a fault.
-- * Vk.State, Vk.Table, Vk.Timers (vk/vaultkeeper.go, vk/options.go): the state of a Vaultkeeper, the
--   interface of the third-party tables whose entries expire, and Go's timers.
-- * Vk.Options (vk/options.go): the options of New, and its defaults.
-- * Vk.Providers, Vk.Children (vk/children.go): the two views of the children, what each child offers
--   and who provides each service, and the operations that change them.
-- * Vk.Handlers (vk/handlers.go): the twelve handlers. Joining has HELLO, JOIN and LEAVE; Tree has
--   MERGE, INCREMENT and VK_HEARTBEAT; Services has REGISTER, DEREGISTER and SERVICE_HEARTBEAT;
--   Clients has LIST and GET; Status has STATUS.
-- * Vk.Dispatch (vk/vaultkeeper.go): one datagram, from its bytes to the answer or the fault.
-- * Vk.Requests (vk/requests.go, vk/vaultkeeper.go): New, Start, Stop, the automatic heartbeat, and the
--   requests MERGE and LEAVE.
-- * Vk.Interleaved (vk/children.go, vk/vaultkeeper.go): packets, ticks, ends of timers and late callbacks,
--   in any order.
-- * Vk.Registry (vk/handlers.go, seen from outside): the abstract registry that a Vaultkeeper keeps for
--   its children, and each step as a command to that registry.
-- * Client (client/client.go, slims.go): the requests of a leaf or of any node, and how each reads its
--   answer. Client.Requests has HELLO to STATUS, Client.Queries has LIST and GET, Client.Leaf has
--   RegisterNewLeaf and AutoServiceHeartbeat; Client.Parent has Join of a Vaultkeeper (vk/requests.go).
--   Client.Served puts a client and a Vaultkeeper together: the network is the Vaultkeeper's dispatch.
-- * Proof (implementations/proof/proof): the older proof of concept, over HTTP, whose Vaultkeeper has a state
--   of its own.
-- * Proof.Children (implementations/proof/proof/children.go): its children, their timers and what is read.
-- * Proof.Keeper (implementations/proof/proof/vaultkeeper.go, errors.go, packets.go): its state, errors and
--   packet types. Lifecycle has NewVaultKeeper, Start, Terminate, Hello and a round of each background task,
--   Joining has Join.
-- * Proof.Endpoints (implementations/proof/proof/endpoints.go): its handlers. The parent has HELLO, STATUS and
--   JOIN; Services has REGISTER and the heartbeats; Queries has LIST and GET; Operations has buildEndpoints.
--   Proof.Messages has the requests and the answers.
-- * Proof.Requests (implementations/proof/proof/requests.go): the requests Status, List and Get of any client.
-- * Proof.Runs, Proof.Hops, Proof.Echo, Proof.Served (implementations/proof/proof, several nodes or steps):
--   the steps of one Vaultkeeper in any order; a branch up which a LIST or a GET goes; a branch up which a
--   REGISTER goes; and a Join whose network is the other Vaultkeeper.
-- * Examples has concrete tables, texts and Vaultkeepers at which the definitions are run.
--
-- A handler is one step on the state: its critical sections are not interleaved with others. A packet
-- that is sent is an entry of the state's field `sent`. Machine integers are natural numbers with
-- their wrap-around written out: 8 bits for bytes, 16 for heights, 32 for the heights of messages and
-- the count of bad heartbeats, 64 for IDs. All loops are structural recursion, so there is no fuel.
-- Go's maps are association lists, and the statements hold for whatever order they stand in.
--
-- Parameters: the tables of github.com/rflandau/expiring (records Expiring and Tokens, with the laws
-- that the code relies on), the order in which the goroutines of an INCREMENT send their packets (the field
-- interleave of Platform, any permutation), the reading of messages, addresses and durations (record Wire, without
-- laws), the same on the side of a client (record ClientWire), and the sockets of a client (record
-- Network, over any state). Where a client meets a Vaultkeeper the laws of Agree say that each side reads
-- what the other wrote. When an entry or a timer runs out is left open: it is a step that may come at any
-- moment (Vk.Interleaved).
--
-- In the proof of concept a lock is a part of the state only as far as somebody keeps it for ever, and a call
-- that meets such a lock is blocked. The goroutine that passes a REGISTER on is two steps, around the answer
-- of the parent; its URL is made of the address that it copied. The network of a REGISTER up a branch is defined
-- by recursion on the number of Vaultkeepers above, which is the length of the list of them.
--
-- Parameters of the proof of concept: what it takes from the standard library (record Platform), with the laws
-- of Printing where texts go from one node to another, and the HTTP client (record Http, over any state).
--
-- Not modelled: the inside of sockets and of HTTP, how huma checks a request against its type, logging,
-- deadlines, the texts of errors but that of an errno and the additional info of a fault, the leaf library, whose file holds no code, and the
-- example program and the version of the proof of concept.
mod Base
pub mod Version
pub mod Protocol
pub mod Errnos
pub mod Vk
pub mod Client
pub mod Proof
pub mod Examples
