-- ===== src/Client/Heartbeats.antt =====
-- The goroutine of `AutoServiceHeartbeat` when a heartbeat is lost.
use orv.Base.{ℕ, ◌≡◌, ◌≢◌, arith, true, String, List, [], ◌∷◌, ◌++◌, some, nat_eq, ok, err}
use orv.Protocol.{Header, serialize}
use orv.Protocol.MessageType
use orv.Protocol.Transport.{
  live_context, written, read_cancelled, cancelled, serialize_packet, compose_packet, receive,
}
use orv.Vk.State.{AddrPort, is_valid}
use orv.Client.{
  Message, heartbeat_request, ClientWire, Network, transport, request_header, answer_of, exchange,
  request, await_answer,
}
use orv.Client.Requests.{service_heartbeat, heartbeat_fits}
use orv.Client.Leaf.{
  ParentInfo, Wake, elapsed, heartbeat_failed, parent_mismatch, after_heartbeat, heartbeat_loop,
}

module _ (wire : ClientWire) {S : Type 0} (net : Network S) where
  -- The packet of a heartbeat, whose body is given.
  abbrev pub heartbeat_packet : ℕ → List ℕ → List ℕ
  heartbeat_packet my_id body =
      serialize (request_header MessageType.service_heartbeat my_id) ++ body

  compose_live :
      (h : Header) (m : Message) (body : List ℕ)
      → wire.marshal m ≡ some body
      → compose_packet wire.marshal live_context h (some m) ≡ ok (serialize h ++ body)
  unfolding compose_packet serialize_packet
  compose_live h m body e = ground arith

  service_heartbeat-lost :
      (my_id : ℕ) (parent : AddrPort) (service : String) (services : List String) (body : List ℕ)
      (s s' s'' : S)
      → is_valid parent ≡ true
      → net.dial parent s ≡ true
      → heartbeat_fits wire net (service ∷ services) ≡ true
      → wire.marshal (heartbeat_request (service ∷ services)) ≡ some body
      → net.write parent (heartbeat_packet my_id body) s ≡ (written, s')
      → net.read parent s' ≡ (read_cancelled, s'')
      → service_heartbeat wire net live_context my_id parent (service ∷ services) s
        ≡ ((0, err (transport cancelled)), s'')
  unfolding service_heartbeat request exchange await_answer answer_of receive
  service_heartbeat-lost my_id parent service services body s s' s'' v d f m w r = ground (
    arith,
    compose_live (request_header MessageType.service_heartbeat my_id)
        (heartbeat_request (service ∷ services)) body m,
    w,
    r,
  )

  -- A heartbeat that is sent and not answered before its time is over ends the heartbeats for all
  -- services, unless the parent has the ID 0: whatever would wake the goroutine later, it reports the
  -- lost heartbeat and that the ID 0 is not the parent's, and is done.
  pub lost_heartbeat_ends :
      (my_id : ℕ) (p : ParentInfo) (service : String) (services : List String) (wakes : List Wake)
      (left : List String) (more : String) (body : List ℕ) (s s' s'' : S)
      → p.id ≢ 0
      → is_valid p.addr ≡ true
      → net.dial p.addr s ≡ true
      → heartbeat_fits wire net (service ∷ services) ≡ true
      → wire.marshal (heartbeat_request (service ∷ services)) ≡ some body
      → net.write p.addr (heartbeat_packet my_id body) s ≡ (written, s')
      → net.read p.addr s' ≡ (read_cancelled, s'')
      → heartbeat_loop wire net my_id p (service ∷ services) (elapsed ∷ wakes) (more ∷ left) s
        ≡ (heartbeat_failed (transport cancelled) ∷ parent_mismatch p.id 0 ∷ [], s'')
  unfolding heartbeat_loop after_heartbeat
  lost_heartbeat_ends my_id p service services wakes left more body s s' s'' n v d f m w r =
      ground (arith, service_heartbeat-lost my_id p.addr service services body s s' s'' v d f m w r)
