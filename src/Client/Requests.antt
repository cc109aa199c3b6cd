-- ===== src/Client/Requests.antt =====
-- implementations/slims/slims/client/client.go: `Hello`, `Join`, `Register`, `ServiceHeartbeat`, `Leave`
-- and `Status`.
use orv.Base.{
  ℕ, ◌+◌, Bool, true, false, not, ◌&&◌, String, List, [], ◌∷◌, Option, none, some, ltb,
  if◌then◌else◌, Result, ok, err,
}
use orv.Base.Int.{ℤ}
use orv.Version.{Version}
use orv.Protocol.{Header, max_packet_size, long_header_len}
use orv.Protocol.MessageType
use orv.Protocol.Transport.{Context, nil_ctx}
use orv.Vk.State.{AddrPort, is_valid, StatusBody}
use orv.Client.{
  join_request, register_request, heartbeat_request, ClientWire, Network, ClientError,
  invalid_addr_port, vk_address_required, too_large, dial_failed, transport, is_no_context,
  request_header, optional_header, Answer, answer_of, exchange, request,
}

abbrev pub no_version : Version
no_version = record { major = 0; minor = 0 }

-- `JoinInfo`.
pub record JoinInfo : Type 0 where
  pub is_vk : Bool
  pub vk_addr : AddrPort
  pub height : ℕ

-- What Hello returns: the ID and the version of the node that answered, and the height that it gave.
abbrev pub HelloAnswer : Type 0
HelloAnswer = ℕ × Version × Result ClientError ℕ

abbrev pub is_empty_list : List String → Bool
is_empty_list [] = true
is_empty_list (x ∷ xs) = false

module _ (wire : ClientWire) {S : Type 0} (net : Network S) where
  -- The answer of Hello, by what was received.
  unfoldable pub hello_answer : Result ClientError (Header × List ℕ) → HelloAnswer
  hello_answer (err e) = (0, no_version, err e)
  hello_answer (ok (hdr, body)) =
      let (id, r) = answer_of wire MessageType.hello_ack wire.read_hello_ack (ok (hdr, body)) in
      (id, hdr.version, r)

  unfoldable pub hello : Context → ℕ → AddrPort → S → HelloAnswer × S
  hello ctx my_id target s =
      if is_no_context ctx
      then ((0, no_version, err (transport nil_ctx)), s)
      else if not (is_valid target)
      then ((0, no_version, err invalid_addr_port), s)
      else let (r, s') =
          exchange wire net ctx target (request_header MessageType.hello my_id) none s in
        (hello_answer r, s')

  -- `Join`. The height is a `uint16`.
  unfoldable pub join : Context → ℕ → AddrPort → JoinInfo → S → Answer ℕ × S
  join ctx my_id target req s =
      if is_no_context ctx
      then ((0, err (transport nil_ctx)), s)
      else if not (is_valid target)
      then ((0, err invalid_addr_port), s)
      else if req.is_vk && not (is_valid req.vk_addr)
      then ((0, err vk_address_required), s)
      else request wire net MessageType.join_accept wire.read_join_accept ctx target
          (request_header MessageType.join my_id)
          (some (
            join_request (record {
              is_vk = req.is_vk;
              vk_addr = wire.print_addr req.vk_addr;
              height = req.height;
            })))
          s

  unfoldable pub register : Context → ℕ → AddrPort → String → AddrPort → ℤ → S → Answer String × S
  register ctx my_id target service addr stale s =
      if is_no_context ctx
      then ((0, err (transport nil_ctx)), s)
      else request wire net MessageType.register_accept wire.read_register_accept ctx target
          (request_header MessageType.register my_id)
          (some (
            register_request (record {
              service = service;
              address = wire.print_addr addr;
              stale = wire.print_duration stale;
            })))
          s

  -- The packet of a heartbeat must fit the buffer of its receiver.
  abbrev pub heartbeat_fits : List String → Bool
  heartbeat_fits services =
      not (ltb max_packet_size (long_header_len + wire.heartbeat_size services))

  unfoldable pub service_heartbeat :
      Context → ℕ → AddrPort → List String → S → Answer (List String × List String) × S
  service_heartbeat ctx my_id parent services s =
      if is_no_context ctx
      then ((0, err (transport nil_ctx)), s)
      else if not (is_valid parent)
      then ((0, err invalid_addr_port), s)
      else if is_empty_list services
      then ((0, err invalid_addr_port), s)
      else if not (net.dial parent s)
      then ((0, err dial_failed), s)
      else if not (heartbeat_fits services)
      then ((0, err too_large), s)
      else request wire net MessageType.service_heartbeat_ack wire.read_heartbeat_ack ctx parent
          (request_header MessageType.service_heartbeat my_id) (some (heartbeat_request services)) s

  -- `Leave`, which gives an error or nothing. LEAVE_ACK has no body.
  unfoldable pub leave : Context → AddrPort → ℕ → S → Result ClientError Bool × S
  leave ctx target my_id s =
      let ((id, r), s') =
        request wire net MessageType.leave_ack (λ body. some true) ctx target
          (request_header MessageType.leave my_id) none s in
      (r, s')

  unfoldable pub status : AddrPort → Context → Option ℕ → S → Answer StatusBody × S
  status target ctx sender s =
      request wire net MessageType.status_resp wire.read_status ctx target
        (optional_header MessageType.status sender) none s
