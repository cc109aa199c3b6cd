-- ===== src/Vk/Dispatch.antt =====
-- `dispatch` and `respondError` of implementations/slims/slims/vk/vaultkeeper.go: one packet, from its
-- bytes to the handler of its type and the answer. `receive_packet` is what
-- `protocol.ReceivePacket` makes of a datagram that has arrived.
pub mod Entries
pub mod Coherence
pub mod Sizes
pub mod Runs
use orv.Base.{
  ℕ, ◌+◌, ◌-◌, Bool, true, false, String, List, [], ◌∷◌, Option, none, some, ◌==◌, nat_eq, ltb,
  if◌then◌else◌, take, Result, ok, err,
}
use orv.Protocol.{Header, deserialize, DeserializeError, max_packet_size}
use orv.Protocol.MessageType
use orv.Vk.State.{
  AddrPort, Errno, unknown_type, fault, Wire, Platform, VaultKeeper, respond_success,
}
use orv.Vk.Handlers.Outcome.{Outcome, MessageHandler, fail}
use orv.Vk.Handlers.Joining.{serve_hello, serve_join, serve_leave}
use orv.Vk.Handlers.Tree.{serve_merge, serve_increment, serve_vk_heartbeat}
use orv.Vk.Handlers.Services.{serve_register, serve_deregister, serve_service_heartbeat}
use orv.Vk.Handlers.Status.{serve_status}
use orv.Vk.Handlers.Clients.{Link, serve_list, serve_get}

-- The buffer of a datagram holds `MaxPacketSize` bytes: what lies beyond is lost.
unfoldable pub receive_packet : List ℕ → Result DeserializeError (Header × List ℕ)
receive_packet datagram = deserialize (take max_packet_size datagram)

module _ {P : Platform} where
  -- The fault that answers a packet of the type.
  unfoldable pub respond_error : AddrPort → ℕ → Errno → VaultKeeper P → VaultKeeper P
  respond_error to type errno vk =
      respond_success vk to vk.version_set.highest MessageType.fault (fault type errno)

  -- The table of handlers.
  unfoldable pub handler : Wire → Link → ℕ → Option (MessageHandler P)
  handler w link type =
      if type == MessageType.hello
      then some serve_hello
      else if type == MessageType.join
      then some (serve_join w)
      else if type == MessageType.merge
      then some (serve_merge w)
      else if type == MessageType.increment
      then some (serve_increment w)
      else if type == MessageType.leave
      then some serve_leave
      else if type == MessageType.register
      then some (serve_register w)
      else if type == MessageType.deregister
      then some (serve_deregister w)
      else if type == MessageType.service_heartbeat
      then some (serve_service_heartbeat w)
      else if type == MessageType.vk_heartbeat
      then some serve_vk_heartbeat
      else if type == MessageType.status
      then some (serve_status w)
      else if type == MessageType.list
      then some (serve_list w link)
      else if type == MessageType.get
      then some (serve_get w)
      else none

  -- What a handler leaves, with the fault of one that failed.
  unfoldable pub finish : AddrPort → ℕ → Outcome P → VaultKeeper P
  finish sender type (vk, none) = vk
  finish sender type (vk, some errno) = respond_error sender type errno vk

  -- The handler that the table gave answers, or the fault that says that there is none.
  unfoldable pub serve_with :
      Option (MessageHandler P) → Header → List ℕ → AddrPort → VaultKeeper P → VaultKeeper P
  serve_with none hdr body sender vk = respond_error sender hdr.type unknown_type vk
  serve_with (some serve) hdr body sender vk = finish sender hdr.type (serve hdr body sender vk)

  -- A packet whose header was read. One that bears our own ID is ignored.
  unfoldable pub dispatch : Wire → Link → Header → List ℕ → AddrPort → VaultKeeper P → VaultKeeper P
  dispatch w link hdr body sender vk =
      if hdr.id == vk.id then vk else serve_with (handler w link hdr.type) hdr body sender vk

  -- What a datagram was read as: one whose header cannot be read is dropped.
  unfoldable pub dispatch_received :
      Wire
      → Link
      → Result DeserializeError (Header × List ℕ)
      → AddrPort
      → VaultKeeper P
      → VaultKeeper P
  dispatch_received w link (err e) sender vk = vk
  dispatch_received w link (ok (hdr, body)) sender vk = dispatch w link hdr body sender vk

  unfoldable pub dispatch_datagram : Wire → Link → List ℕ → AddrPort → VaultKeeper P → VaultKeeper P
  dispatch_datagram w link datagram sender vk =
      dispatch_received w link (receive_packet datagram) sender vk
