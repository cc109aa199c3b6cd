-- ===== src/Client/Served/Handshake.antt =====
-- HELLO and JOIN of a client at a Vaultkeeper: `Hello` and `Join` of
-- implementations/slims/slims/client/client.go meet `serveHello` and `serveJoin`.
use orv.Base.{
  ℕ, ◌^◌, ◌<◌, ◌≡◌, ◌≢◌, refl, arith, true, false, List, [], none, some, nat_eq, text_eq, ok,
  nat_beq_iff,
}
use mathlib.Core.List.{append-nil}
use orv.Base.Map.{beq_refl}
use orv.Version.{supports}
use orv.Version.Byte.{IsNibbles}
use orv.Protocol.{Header, serialize}
use orv.Protocol.MessageType
use orv.Protocol.Codec.{FitsWire}
use orv.Protocol.Transport.{live_context, serialize_packet}
use orv.Vk.State.{
  AddrPort, is_valid, addr_eq, addr_beq_iff, Payload, hello_ack, Packet, Wire, Platform,
  VaultKeeper, send, respond_success,
}
use orv.Vk.Providers.{library_version}
use orv.Vk.Handlers.Clients.{Link}
use orv.Vk.Handlers.Joining.{serve_hello}
use orv.Vk.Handlers.Admission.{greeted}
use orv.Vk.Dispatch.{handler, finish, serve_with, dispatch}
use orv.Client.{ClientWire, read_answer, answer_of, request_header}
use orv.Client.Requests.{hello_answer, hello}
use orv.Client.Served.{Agree, first_to, taken, network, exchange-served}

-- What a node that takes part in an exchange over the wire has: an ID of 64 bits, and at a Vaultkeeper
-- a valid address and versions whose highest fits a byte and among which is the library's.
pub record OnWire {P : Platform} (vk : VaultKeeper P) (my_id : ℕ) : Type 0 where
  pub my_id_64 : my_id < 2 ^ 64
  pub vk_id_64 : vk.id < 2 ^ 64
  pub others : my_id ≢ vk.id
  pub addressed : is_valid vk.addr ≡ true
  pub nibbles : IsNibbles vk.version_set.highest
  pub supported : supports vk.version_set library_version ≡ true

abbrev pub FitsRequest : ℕ → ℕ → Type 0
FitsRequest type my_id = FitsWire (request_header type my_id)

pub request-FitsWire :
    (type my_id : ℕ) → type < 128 → my_id < 2 ^ 64 → FitsWire (request_header type my_id)
request-FitsWire type my_id t i = record {
  nibbles = record { major_nibble = omega arith; minor_nibble = omega arith };
  seven_bits = t;
  id_64 = i;
}

-- The header of an answer.
abbrev pub answer_header : {P : Platform} → ℕ → VaultKeeper P → Header
answer_header type vk = record {
  version = vk.version_set.highest;
  shorthand = false;
  type = type;
  id = vk.id;
}

pub answer-FitsWire :
    {P : Platform} (type my_id : ℕ) (vk : VaultKeeper P)
    → type < 128
    → OnWire vk my_id
    → FitsWire (answer_header type vk)
answer-FitsWire type my_id vk t w = record {
  nibbles = w.nibbles;
  seven_bits = t;
  id_64 = w.vk_id_64;
}

module _ {P : Platform} (server : Wire) (link : Link) (client : AddrPort) where
  -- A packet that is no node's own goes to the handler of its type.
  pub dispatch-serve :
      (h : Header) (body : List ℕ) (vk : VaultKeeper P)
      → h.id ≢ vk.id
      → dispatch server link h body client vk
        ≡ serve_with (handler server link h.type) h body client vk
  unfolding dispatch
  dispatch-serve h body vk n = ground (arith, nat_beq_iff h.id vk.id)

  -- The Vaultkeeper once it has answered a HELLO.
  unfoldable pub greeting : ℕ → VaultKeeper P → VaultKeeper P
  greeting my_id vk = (serve_hello (request_header MessageType.hello my_id) [] client (taken vk)).0

  abbrev hello_packet : VaultKeeper P → Packet
  hello_packet vk = record {
    to = client;
    header = answer_header MessageType.hello_ack vk;
    payload = hello_ack vk.structure.height;
  }

  dispatch-hello :
      (my_id : ℕ) (vk : VaultKeeper P)
      → my_id ≢ vk.id
      → dispatch server link (request_header MessageType.hello my_id) [] client (taken vk)
        ≡ greeting my_id vk
  unfolding greeting handler serve_with finish serve_hello
  dispatch-hello my_id vk n =
      ground (arith, dispatch-serve (request_header MessageType.hello my_id) [] (taken vk) n)

  greeting-sent :
      (my_id : ℕ) (vk : VaultKeeper P)
      → first_to client (greeting my_id vk).sent ≡ some (hello_packet vk)
  unfolding greeting serve_hello respond_success send first_to
  greeting-sent my_id vk = ground (arith, (addr_beq_iff client client).1)

  -- After a HELLO the node is greeted, and all else is as before.
  pub greeting-greeted :
      (my_id : ℕ) (vk : VaultKeeper P)
      → (greeted my_id (greeting my_id vk) ≡ true)
        × ((greeting my_id vk).children ≡ vk.children)
        × ((greeting my_id vk).structure ≡ vk.structure)
        × ((greeting my_id vk).version_set ≡ vk.version_set)
        × ((greeting my_id vk).id ≡ vk.id)
        × ((greeting my_id vk).addr ≡ vk.addr)
  unfolding greeting serve_hello respond_success send
  greeting-greeted my_id vk = ground (
    arith,
    beq_refl my_id,
    P.hello_table.load-store my_id my_id true vk.prune_time.hello vk.pending_hellos,
  )

  module _ (wire : ClientWire) (body_of : Payload → List ℕ)
      (agree : Agree wire server body_of) where
    -- Hello of a node that is not the Vaultkeeper gets the ID, the version and the height of the
    -- Vaultkeeper.
    pub hello-served :
        (my_id : ℕ) (vk : VaultKeeper P)
        → OnWire vk my_id
        → hello wire (network server link body_of client) live_context my_id vk.addr vk
          ≡ ((vk.id, vk.version_set.highest, ok vk.structure.height), greeting my_id vk)
    unfolding hello hello_answer answer_of read_answer serialize_packet
    hello-served my_id vk w =
        let h = request_header MessageType.hello my_id in
        let sent : first_to client (dispatch server link h [] client (taken vk)).sent
            ≡ some (hello_packet vk) =
          rw (dispatch-hello my_id vk w.others) (greeting-sent my_id vk) in
        ground (
          arith,
          w.addressed,
          exchange-served server link body_of client wire h none [] vk (hello_packet vk)
              (ground (arith, append-nil (serialize h)))
              (request-FitsWire MessageType.hello my_id (omega arith) w.my_id_64) refl (omega arith)
              sent (answer-FitsWire MessageType.hello_ack my_id vk (omega arith) w) refl
              (agree.hello_ack_short vk.structure.height),
          dispatch-hello my_id vk w.others,
          agree.hello_ack_read vk.structure.height,
        )
