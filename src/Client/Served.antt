-- ===== src/Client/Served.antt =====
-- A client whose requests reach a Vaultkeeper: the network is the Vaultkeeper's `dispatch`, and an
-- answer is the first packet that it sends back.
pub mod Handshake
pub mod Joining
pub mod Registration
pub mod NewLeaf
use orv.Base.{
  ℕ, ◌+◌, ◌^◌, ◌<◌, ◌≤◌, ◌≡◌, refl, arith, Bool, true, false, not, String, List, [], ◌∷◌, ◌++◌,
  Option, none, some, ◌==◌, nat_eq, text_eq, if◌then◌else◌, Result, ok, err, length, take, take_all,
  length-append, bind-eq-ok, ◌∙◌,
}
use orv.Base.Int.{ℤ}
use orv.Version.{Version}
use orv.Version.Byte.{IsNibbles, IsBytes}
use orv.Protocol.{Header, serialize, deserialize, max_packet_size}
use orv.Protocol.Codec.{FitsWire, received, deserialize-serialize, serialize_bytes}
use orv.Protocol.Transport.{
  Context, live_context, written, Read, read_cancelled, arrives, receive, compose_packet,
  serialize_packet,
}
use orv.Vk.State.{
  AddrPort, addr_port, is_valid, addr_eq, addr_beq_iff, Payload, hello_ack, join_accept,
  register_accept, Packet, JoinBody, RegisterBody, Wire, Platform, VaultKeeper,
}
use orv.Vk.Handlers.Outcome.{is_nil}
use orv.Vk.Handlers.Clients.{Link}
use orv.Vk.Dispatch.{receive_packet, dispatch, dispatch_received, dispatch_datagram}
use orv.Client.{
  Message, join_request, register_request, ClientWire, Network, ClientError, transport, exchange,
  await_answer,
}

-- What both sides rely on: protobuf reads what it wrote, a message with a text in it is not empty, and
-- a printed address is not empty. The acknowledgements of HELLO and JOIN, which hold a height alone, are
-- short.
pub record Agree (client : ClientWire) (server : Wire) (body_of : Payload → List ℕ) : Type 0 where
  pub join_read :
      (j : JoinBody) (b : List ℕ)
      → client.marshal (join_request j) ≡ some b
      → server.unmarshal_join b ≡ some j
  pub join_full :
      (j : JoinBody) (b : List ℕ)
      → client.marshal (join_request j) ≡ some b
      → j.vk_addr == "" ≡ false
      → is_nil b ≡ false
  pub register_read :
      (r : RegisterBody) (b : List ℕ)
      → client.marshal (register_request r) ≡ some b
      → server.unmarshal_register b ≡ some r
  pub register_full :
      (r : RegisterBody) (b : List ℕ)
      → client.marshal (register_request r) ≡ some b
      → r.service == "" ≡ false
      → is_nil b ≡ false
  pub printed : (a : AddrPort) → client.print_addr a == "" ≡ false
  pub hello_ack_read : (n : ℕ) → client.read_hello_ack (body_of (hello_ack n)) ≡ some n
  pub join_accept_read : (n : ℕ) → client.read_join_accept (body_of (join_accept n)) ≡ some n
  pub hello_ack_short : (n : ℕ) → length (body_of (hello_ack n)) ≤ 1014
  pub join_accept_short : (n : ℕ) → length (body_of (join_accept n)) ≤ 1014

-- The bytes of a packet.
abbrev pub encode : (Payload → List ℕ) → Packet → List ℕ
encode body_of p = serialize p.header ++ body_of p.payload

-- The first packet to an address.
unfoldable pub first_to : AddrPort → List Packet → Option Packet
first_to a [] = none
first_to a (p ∷ ps) = let later = first_to a ps in if p.to == a then some p else later

-- A packet in long form that fits one buffer is received as it was sent.
pub receive_packet-serialize :
    (h : Header) (body : List ℕ)
    → FitsWire h
    → h.shorthand ≡ false
    → length body ≤ 1014
    → receive_packet (serialize h ++ body) ≡ ok (h, body)
unfolding receive_packet
receive_packet-serialize h body fits long short =
    let bytes : IsBytes h.version = record {
      major_byte = omega (arith, fits.nibbles.major_nibble);
      minor_byte = omega (arith, fits.nibbles.minor_nibble);
    } in
    let whole : take max_packet_size (serialize h ++ body) ≡ serialize h ++ body =
      take_all max_packet_size (serialize h ++ body)
        (ground (arith, length-append (serialize h) body, (serialize_bytes h bytes).0)) in
    ground (arith, whole, deserialize-serialize h body fits)

receive-receive_packet :
    (bytes : List ℕ) (h : Header) (body : List ℕ)
    → receive_packet bytes ≡ ok (h, body)
    → receive live_context (arrives bytes) ≡ ok (h, body)
unfolding receive receive_packet
receive-receive_packet bytes h body e = ground arith

-- What has been sent is on its way.
abbrev pub taken : {P : Platform} → VaultKeeper P → VaultKeeper P
taken vk = record vk { sent = [] }

module _ {P : Platform} (server : Wire) (link : Link) (body_of : Payload → List ℕ)
    (client : AddrPort) where
  abbrev pub answer_to : VaultKeeper P → Read
  answer_to vk = elim (first_to client vk.sent) [
    | none ↦ read_cancelled
    | some p ↦ arrives (encode body_of p)
  ]

  -- The network of a client at an address, in which the Vaultkeeper is all there is.
  abbrev pub network : Network (VaultKeeper P)
  network = record {
    dial = λ a vk. a == vk.addr;
    write = λ a bytes vk. (written, dispatch_datagram server link bytes client (taken vk));
    read = λ a vk. (answer_to vk, vk);
    listen = λ vk. none;
    arrivals = λ vk. [];
  }

  -- A request that the Vaultkeeper answers.
  pub exchange-served :
      (wire : ClientWire) (h : Header) (m : Option Message) (body : List ℕ) (vk : VaultKeeper P)
      (p : Packet)
      → serialize_packet wire.marshal h m ≡ some (serialize h ++ body)
      → FitsWire h
      → h.shorthand ≡ false
      → length body ≤ 1014
      → first_to client (dispatch server link h body client (taken vk)).sent ≡ some p
      → FitsWire p.header
      → p.header.shorthand ≡ false
      → length (body_of p.payload) ≤ 1014
      → exchange wire network live_context vk.addr h m vk
        ≡ (ok (p.header, body_of p.payload), dispatch server link h body client (taken vk))
  unfolding exchange await_answer compose_packet dispatch_datagram dispatch_received
  exchange-served wire h m body vk p e fits long short first fits' long' short' = ground (
    arith,
    (addr_beq_iff vk.addr vk.addr).1,
    receive_packet-serialize h body fits long short,
    receive-receive_packet (encode body_of p) p.header (body_of p.payload)
        (receive_packet-serialize p.header (body_of p.payload) fits' long' short'),
  )
