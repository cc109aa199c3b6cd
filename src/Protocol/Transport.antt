-- ===== src/Protocol/Transport.antt =====
-- implementations/slims/slims/protocol/protocol.go: a packet as bytes (`Serialize`), and what
-- `WritePacket` and `ReceivePacket` make of the outcome of a socket. The socket and the context's end
-- are arguments.
use orv.Base.{ℕ, List, ◌++◌, Option, none, some, take, Result, ok, err}
use orv.Protocol.{Header, serialize, deserialize, DeserializeError, max_packet_size}

-- A `context.Context`: nil, one that has ended, or one that has not.
pub data Context : Type 0 where
  no_context done_context live_context : Context

-- What writing to a socket comes to; the context may end first.
pub data Write : Type 0 where
  write_cancelled write_failed written : Write

-- What reading from a socket comes to.
pub data Read : Type 0 where
  read_cancelled read_failed : Read
  arrives : List ℕ → Read

pub data TransportError : Type 0 where
  nil_ctx unserializable cancelled socket_failed : TransportError
  malformed : DeserializeError → TransportError

-- `Serialize`: the header, and behind it the payload, if there is one. `marshal` is `proto.Marshal`.
unfoldable pub serialize_packet :
    {M : Type 0} → (M → Option (List ℕ)) → Header → Option M → Option (List ℕ)
serialize_packet marshal hdr none = some (serialize hdr)
serialize_packet marshal hdr (some m) = elim (marshal m) [
  | none ↦ none
  | some body ↦ some (serialize hdr ++ body)
]

-- The first half of `WritePacket`: the bytes that are to be written.
unfoldable pub compose_packet :
    {M : Type 0}
    → (M → Option (List ℕ))
    → Context
    → Header
    → Option M
    → Result TransportError (List ℕ)
compose_packet marshal no_context hdr payload = err nil_ctx
compose_packet marshal done_context hdr payload = elim (serialize_packet marshal hdr payload) [
  | none ↦ err unserializable
  | some packet ↦ ok packet
]
compose_packet marshal live_context hdr payload = elim (serialize_packet marshal hdr payload) [
  | none ↦ err unserializable
  | some packet ↦ ok packet
]

-- `ReceivePacket`. A context that has ended is not waited for. The buffer holds `MaxPacketSize` bytes.
unfoldable pub receive : Context → Read → Result TransportError (Header × List ℕ)
receive no_context r = err nil_ctx
receive done_context r = err cancelled
receive live_context read_cancelled = err cancelled
receive live_context read_failed = err socket_failed
receive live_context (arrives datagram) = elim (deserialize (take max_packet_size datagram)) [
  | err e ↦ err (malformed e)
  | ok packet ↦ ok packet
]
