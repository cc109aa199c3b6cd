-- ===== src/Client/Queries.antt =====
-- implementations/slims/slims/client/client.go: `List` and `Get`, which send their request from one
-- socket and await the response on another.
use orv.Base.{
  ℕ, not, String, List, [], ◌∷◌, Option, none, some, ◌==◌, nat_eq, text_eq, if◌then◌else◌, Result,
  ok, err,
}
use orv.Protocol.{Header}
use orv.Protocol.MessageType
use orv.Protocol.Transport.{
  Context, Write, write_cancelled, write_failed, written, Read, cancelled, socket_failed,
  compose_packet, receive,
}
use orv.Vk.State.{AddrPort, is_valid}
use orv.Client.{
  Message, list_request, get_request, ClientWire, Network, ClientError, invalid_addr_port,
  listen_failed, dial_failed, empty_token, unreadable, transport, remote_fault, format_fault,
  optional_header,
}

-- The response to a query, with the address of its sender. There is none yet while the listener waits.
abbrev pub Response : Type 0 → Type 0
Response A = Option (Result ClientError (AddrPort × A))

-- A packet that reaches the listener, or the error of receiving it.
abbrev pub received : Context → Read → Result ClientError (Header × List ℕ)
received ctx r = elim (receive ctx r) [ err e ↦ err (transport e) | ok packet ↦ ok packet ]

module _ (wire : ClientWire) {A : Type 0} (type : ℕ) (read : List ℕ → Option (String × A)) where
  -- One packet that reaches the listener, where `later` is what those after it come to: an error, a
  -- fault, and a response that bears the token end the wait; anything else does not.
  unfoldable pub hear :
      String → AddrPort → Result ClientError (Header × List ℕ) → Response A → Response A
  hear token from (err e) later = some (err e)
  hear token from (ok (hdr, body)) later =
      if hdr.type == MessageType.fault
      then elim (wire.read_fault body) [
        | none ↦ some (err unreadable)
        | some f ↦ some (err (remote_fault (format_fault f)))
      ]
      else if hdr.type == type
      then elim (read body) [
        | none ↦ some (err unreadable)
        | some (t, a) ↦ if t == token then some (ok (from, a)) else later
      ]
      else later

  -- The loop of the listener.
  unfoldable pub hear_all : Context → String → List (AddrPort × Read) → Response A
  hear_all ctx token [] = none
  hear_all ctx token ((from, r) ∷ rest) =
      let later = hear_all ctx token rest in hear token from (received ctx r) later

  module _ {S : Type 0} (net : Network S) where
    -- What follows the write of the query.
    unfoldable pub await_response : Context → String → Write × S → Response A × S
    await_response ctx token (write_cancelled, s) = (some (err (transport cancelled)), s)
    await_response ctx token (write_failed, s) = (some (err (transport socket_failed)), s)
    await_response ctx token (written, s) = (hear_all ctx token (net.arrivals s), s)

    -- A query: the listener is opened, and its address sent along with the query.
    unfoldable pub query :
        Context → AddrPort → String → Header → (String → Message) → S → Response A × S
    query ctx target token hdr message s =
        if token == ""
        then (some (err empty_token), s)
        else if not (is_valid target)
        then (some (err invalid_addr_port), s)
        else elim (net.listen s) [
          | none ↦ (some (err listen_failed), s)
          | some local ↦
              if not (net.dial target s)
              then (some (err dial_failed), s)
              else elim (compose_packet wire.marshal ctx hdr (some (message local))) [
                | err e ↦ (some (err (transport e)), s)
                | ok packet ↦ await_response ctx token (net.write target packet s)
              ]
        ]

module _ (wire : ClientWire) {S : Type 0} (net : Network S) where
  -- `List`. The hop count is a `uint16`.
  unfoldable pub list : AddrPort → Context → String → ℕ → Option ℕ → S → Response (List String) × S
  list target ctx token hop_count sender s =
      query wire MessageType.list_resp wire.read_list_resp net ctx target token
        (optional_header MessageType.list sender)
        (λ local.
          list_request (record { token = token; hop_count = hop_count; response_addr = local }))
        s

  -- `Get`, which gives the text of an address.
  unfoldable pub get : Context → String → AddrPort → String → ℕ → Option ℕ → S → Response String × S
  get ctx service target token hop_limit sender s =
      query wire MessageType.get_resp wire.read_get_resp net ctx target token
        (optional_header MessageType.get sender)
        (λ local. get_request (record {
          token = token;
          hop_limit = hop_limit;
          response_addr = local;
          service = service;
        }))
        s
