-- ===== src/Client.antt =====
-- implementations/slims/slims/client/client.go: the requests that any node may send. A request is a
-- function on the state of the network, whose sockets are a parameter, as are the messages' bodies. The
-- texts of errors are left out. Faults are errors as `FormatFault` of implementations/slims/slims/slims.go
-- makes them.
pub mod Requests
pub mod Queries
pub mod Leaf
pub mod Laws
pub mod Waiting
pub mod Heartbeats
pub mod Served
pub mod Parent
use orv.Base.{
  ℕ, ◌+◌, ◌%◌, ◌^◌, Bool, true, false, not, ◌&&◌, String, List, [], ◌∷◌, Option, none, some, ◌==◌,
  nat_eq, ltb, if◌then◌else◌, Result, ok, err,
}
use orv.Base.Int.{ℤ}
use orv.Version.{Version}
use orv.Protocol.{Header, max_packet_size, long_header_len}
use orv.Protocol.MessageType
use orv.Protocol.Transport.{
  Context, no_context, done_context, live_context, Write, write_cancelled, write_failed, written,
  Read, TransportError, nil_ctx, cancelled, socket_failed, compose_packet, receive,
}
use orv.Vk.State.{AddrPort, is_valid, Errno, JoinBody, RegisterBody, ListBody, GetBody, StatusBody}
use orv.Vk.Providers.{library_version}

-- The bodies that a client sends.
pub data Message : Type 0 where
  join_request : JoinBody → Message
  register_request : RegisterBody → Message
  heartbeat_request : List String → Message
  list_request : ListBody → Message
  get_request : GetBody → Message

-- `pb.Fault`, without the type of the packet that it answers.
pub record Fault : Type 0 where
  pub errno : Errno
  pub additional_info : Option String

-- `slims.Errno`.
pub record FaultError : Type 0 where
  pub num : Errno
  pub additional_info : String

unfoldable pub format_fault : Fault → FaultError
format_fault f = record {
  num = f.errno;
  additional_info = elim f.additional_info [ none ↦ "" | some info ↦ info ];
}

-- What this code takes from protobuf and from Go's standard library on texts.
pub record ClientWire : Type 0 where
  pub marshal : Message → Option (List ℕ)
  -- `proto.Size` of the body of a SERVICE_HEARTBEAT.
  pub heartbeat_size : List String → ℕ
  pub print_addr : AddrPort → String
  pub print_duration : ℤ → String
  pub read_fault : List ℕ → Option Fault
  pub read_hello_ack : List ℕ → Option ℕ
  pub read_join_accept : List ℕ → Option ℕ
  pub read_register_accept : List ℕ → Option String
  pub read_heartbeat_ack : List ℕ → Option (List String × List String)
  pub read_status : List ℕ → Option StatusBody
  pub read_list_resp : List ℕ → Option (String × List String)
  pub read_get_resp : List ℕ → Option (String × String)

-- The sockets. `write` and `read` are those of a new socket that is connected to the address;
-- `listen` gives the text of the local address of a new listener, and `arrivals` the packets that reach
-- it, in their order, with their senders.
pub record Network (S : Type 0) : Type 0 where
  pub dial : AddrPort → S → Bool
  pub write : AddrPort → List ℕ → S → Write × S
  pub read : AddrPort → S → Read × S
  pub listen : S → Option String
  pub arrivals : S → List (AddrPort × Read)

pub data ClientError : Type 0 where
  invalid_addr_port vk_address_required too_large dial_failed listen_failed : ClientError
  empty_token unreadable : ClientError
  transport : TransportError → ClientError
  remote_fault : FaultError → ClientError
  unhandled_type : ℕ → ClientError

abbrev pub is_no_context : Context → Bool
is_no_context no_context = true
is_no_context done_context = false
is_no_context live_context = false

-- The header of a request in long form.
abbrev pub request_header : ℕ → ℕ → Header
request_header type id = record {
  version = library_version;
  shorthand = false;
  type = type;
  id = id;
}

-- The header of a request whose sender may stay unnamed: it is then in shorthand.
abbrev pub optional_header : ℕ → Option ℕ → Header
optional_header type none = record {
  version = library_version;
  shorthand = true;
  type = type;
  id = 0;
}
optional_header type (some id) = request_header type id

-- An answer: the ID of its sender, which is 0 where none arrived, and what it says.
abbrev pub Answer : Type 0 → Type 0
Answer A = ℕ × Result ClientError A

module _ (wire : ClientWire) where
  -- The switch on the type of an answer.
  unfoldable pub read_answer :
      {A : Type 0} → ℕ → (List ℕ → Option A) → Header → List ℕ → Result ClientError A
  read_answer ack read hdr body =
      if hdr.type == MessageType.fault
      then elim (wire.read_fault body) [
        | none ↦ err unreadable
        | some f ↦ err (remote_fault (format_fault f))
      ]
      else if hdr.type == ack
      then elim (read body) [ none ↦ err unreadable | some a ↦ ok a ]
      else err (unhandled_type hdr.type)

  unfoldable pub answer_of :
      {A : Type 0} → ℕ → (List ℕ → Option A) → Result ClientError (Header × List ℕ) → Answer A
  answer_of ack read (err e) = (0, err e)
  answer_of ack read (ok (hdr, body)) = (hdr.id, read_answer ack read hdr body)

  module _ {S : Type 0} (net : Network S) where
    -- What follows the write of a request: the answer is awaited.
    unfoldable pub await_answer :
        Context → AddrPort → Write × S → Result ClientError (Header × List ℕ) × S
    await_answer ctx target (write_cancelled, s) = (err (transport cancelled), s)
    await_answer ctx target (write_failed, s) = (err (transport socket_failed), s)
    await_answer ctx target (written, s) =
        let (r, s') = net.read target s in
        elim (receive ctx r) [ err e ↦ (err (transport e), s') | ok packet ↦ (ok packet, s') ]

    -- The request is sent over a new socket, and its answer received.
    unfoldable pub exchange :
        Context → AddrPort → Header → Option Message → S → Result ClientError (Header × List ℕ) × S
    exchange ctx target hdr message s =
        if not (net.dial target s)
        then (err dial_failed, s)
        else elim (compose_packet wire.marshal ctx hdr message) [
          | err e ↦ (err (transport e), s)
          | ok packet ↦ await_answer ctx target (net.write target packet s)
        ]

    -- A request, from the tests of its target on, and its answer.
    unfoldable pub request :
        {A : Type 0}
        → ℕ
        → (List ℕ → Option A)
        → Context
        → AddrPort
        → Header
        → Option Message
        → S
        → Answer A × S
    request ack read ctx target hdr message s =
        if not (is_valid target)
        then ((0, err invalid_addr_port), s)
        else let (r, s') = exchange ctx target hdr message s in (answer_of ack read r, s')
