-- ===== src/Client/Served/Registration.antt =====
-- REGISTER at a Vaultkeeper, and the whole way of a new leaf: `Register` and `RegisterNewLeaf` of
-- implementations/slims/slims/client/client.go meet `serveRegister`.
use orv.Base.{
  ℕ, ◌≤◌, ◌≡◌, refl, arith, true, false, String, List, [], Option, none, some, is_some, ◌==◌,
  nat_eq, text_eq, if◌then◌else◌, ok, length, ◌∙◌,
}
use orv.Base.Int.{ℤ}
use orv.Base.Map.{beq_refl}
use orv.Version.{supports}
use orv.Protocol.MessageType
use orv.Protocol.Transport.{live_context, serialize_packet}
use orv.Vk.State.{
  AddrPort, addr_eq, addr_beq_iff, Errno, Payload, register_accept, Packet, RegisterBody, Wire,
  Platform, VaultKeeper, send, respond_success,
}
use orv.Vk.Providers.{message_parent, add_provider}
use orv.Vk.Children.{load_leaf, add_service, add_leaf_service, add_cvk_service}
use orv.Vk.Children.Views.{offers, is_child, add_service_views}
use orv.Vk.Children.Coherent.{Coherent, add_service_kinds, add_service-Coherent}
use orv.Vk.Handlers.Coherence.{Coherent-children}
use orv.Vk.Handlers.Clients.{Link}
use orv.Vk.Handlers.Services.{accept_register, serve_register}
use orv.Vk.Handlers.ServiceFootprints.{accept_register-children}
use orv.Vk.Handlers.Discovery.{offers-children, serve_register-add_service, accept_register-error}
use orv.Vk.Dispatch.{handler, finish, serve_with, dispatch}
use orv.Client.{register_request, ClientWire, read_answer, answer_of, request_header, request}
use orv.Client.Requests.{register}
use orv.Client.Leaf.{LeafOffer}
use orv.Client.Served.{Agree, first_to, taken, network, exchange-served}
use orv.Client.Served.Handshake.{
  OnWire, request-FitsWire, answer_header, answer-FitsWire, dispatch-serve,
}
use orv.Client.Served.Joining.{SameNode}

-- The body of a REGISTER.
abbrev pub register_body : ClientWire → String → LeafOffer → RegisterBody
register_body wire service offer = record {
  service = service;
  address = wire.print_addr offer.addr;
  stale = wire.print_duration offer.stale;
}

-- A service that can be registered: it has a name, Go reads its address and its time as it printed them,
-- protobuf its acceptance, and the packets about it fit.
pub record Registrable (wire : ClientWire) (server : Wire) (body_of : Payload → List ℕ)
    (service : String) (offer : LeafOffer) : Type 0 where
  pub named : service == "" ≡ false
  pub addr_read : server.parse_addr_port (wire.print_addr offer.addr) ≡ some offer.addr
  pub duration_read : server.parse_duration (wire.print_duration offer.stale) ≡ some offer.stale
  pub accept_read : wire.read_register_accept (body_of (register_accept service)) ≡ some service
  pub body : List ℕ
  pub marshalled : wire.marshal (register_request (register_body wire service offer)) ≡ some body
  pub short : length body ≤ 1014
  pub accept_short : length (body_of (register_accept service)) ≤ 1014

pub OnWire-SameNode :
    {P : Platform} (v w : VaultKeeper P) (my_id : ℕ)
    → SameNode v w
    → OnWire v my_id
    → OnWire w my_id
OnWire-SameNode v w my_id s o = record {
  my_id_64 = o.my_id_64;
  vk_id_64 = ground (arith, s, o.vk_id_64);
  others = rw (s.2) o.others;
  addressed = ground (arith, s, o.addressed);
  nibbles = rw (s.1) o.nibbles;
  supported = rw (s.1) o.supported;
}

module _ {P : Platform} (server : Wire) (link : Link) (client : AddrPort) (wire : ClientWire)
    (body_of : Payload → List ℕ) (agree : Agree wire server body_of) where
  add_service-SameNode :
      (i : ℕ) (s : String) (a : AddrPort) (d : ℤ) (vk : VaultKeeper P)
      → SameNode vk (add_service i s a d vk).1 × ((add_service i s a d vk).1.sent ≡ vk.sent)
  unfolding add_service add_leaf_service add_cvk_service add_provider
  add_service-SameNode i s a d vk = ground arith

  -- The Vaultkeeper once it has answered a REGISTER.
  unfoldable pub registering : ℕ → String → LeafOffer → VaultKeeper P → VaultKeeper P
  registering my_id service offer vk =
      (accept_register service offer.addr client
        (add_service my_id service offer.addr offer.stale (taken vk))).0

  abbrev accept_packet : String → VaultKeeper P → Packet
  accept_packet service vk = record {
    to = client;
    header = answer_header MessageType.register_accept vk;
    payload = register_accept service;
  }

  accept_register-ok :
      (s : String) (a : AddrPort) (o : Option Errno × VaultKeeper P)
      → o.0 ≡ none
      → o.1.sent ≡ []
      → SameNode o.1 (accept_register s a client o).0
        × (first_to client (accept_register s a client o).0.sent ≡ some (accept_packet s o.1))
  unfolding accept_register message_parent respond_success send first_to
  accept_register-ok s a (some x, vk) e f = absurd (ground arith)
  accept_register-ok s a (none, vk) e f = ground (arith, f, (addr_beq_iff client client).1)

  -- What the Vaultkeeper is after the REGISTER of one of its leaves: the node is still a leaf, the
  -- children are coherent if they were, and the leaf offers the service, beside what it did.
  pub record Offered (my_id : ℕ) (s : String) (o : LeafOffer) (vk : VaultKeeper P) : Type 0 where
    pub leaf : is_some (load_leaf my_id (registering my_id s o vk)) ≡ true
    pub same : SameNode vk (registering my_id s o vk)
    pub coherent : Coherent vk → Coherent (registering my_id s o vk)
    pub offered :
        (t : String)
        → offers t my_id (registering my_id s o vk)
          ≡ (if s == t then some o.addr else offers t my_id vk)
    pub answered : first_to client (registering my_id s o vk).sent ≡ some (accept_packet s vk)

  pub registering-Offered :
      (my_id : ℕ) (s : String) (o : LeafOffer) (vk : VaultKeeper P)
      → is_some (load_leaf my_id vk) ≡ true
      → Offered my_id s o vk
  unfolding registering
  registering-Offered my_id s o vk l =
      let added = add_service my_id s o.addr o.stale (taken vk) in
      let w = (accept_register s o.addr client added).0 in
      let kept = accept_register-children s o.addr client added in
      let child : is_child my_id (taken vk) ≡ true = ground arith in
      let same = add_service-SameNode my_id s o.addr o.stale (taken vk) in
      let answer =
        accept_register-ok s o.addr added
          (ground (arith, (add_service_views my_id s o.addr o.stale (taken vk) s my_id).0))
          (ground (arith, same.1)) in
      record {
        leaf = ground (arith, kept, add_service_kinds my_id s o.addr o.stale (taken vk) my_id);
        same = ground (arith, answer, same);
        coherent = λ c. Coherent-children added.1 w kept (
            add_service-Coherent my_id s o.addr o.stale (taken vk)
              (Coherent-children vk (taken vk) refl c));
        offered = λ t.
            offers-children added.1 w t my_id kept
            ∙ ground (
              arith,
              add_service_views my_id s o.addr o.stale (taken vk) t my_id,
              beq_refl my_id,
              offers-children vk (taken vk) t my_id refl,
            );
        answered = ground (arith, answer, same);
      }

  serve-registering :
      (my_id : ℕ) (s : String) (o : LeafOffer) (vk : VaultKeeper P)
      (r : Registrable wire server body_of s o)
      → supports vk.version_set (request_header MessageType.register my_id).version ≡ true
      → serve_register server (request_header MessageType.register my_id) r.body client vk
        ≡ accept_register s o.addr client (add_service my_id s o.addr o.stale vk)
  serve-registering my_id s o vk r v =
      let sent = register_body wire s o in
      serve_register-add_service server (request_header MessageType.register my_id) r.body client vk
        sent o.stale o.addr refl (agree.register_full sent r.body r.marshalled r.named) v
        (agree.register_read sent r.body r.marshalled) r.named r.duration_read r.addr_read

  dispatch-registering :
      (my_id : ℕ) (s : String) (o : LeafOffer) (vk : VaultKeeper P)
      (r : Registrable wire server body_of s o)
      → OnWire vk my_id
      → is_some (load_leaf my_id vk) ≡ true
      → dispatch server link (request_header MessageType.register my_id) r.body client (taken vk)
        ≡ registering my_id s o vk
  unfolding handler serve_with finish registering
  dispatch-registering my_id s o vk r w l =
      let added = add_service my_id s o.addr o.stale (taken vk) in
      ground (
        arith,
        dispatch-serve server link client (request_header MessageType.register my_id) r.body
            (taken vk) w.others,
        serve-registering my_id s o (taken vk) r w.supported,
        accept_register-error s o.addr client added,
        (add_service_views my_id s o.addr o.stale (taken vk) s my_id).0,
      )

  -- Register of a service by a leaf of the Vaultkeeper is accepted.
  pub register-served :
      (my_id : ℕ) (s : String) (o : LeafOffer) (vk : VaultKeeper P)
      (r : Registrable wire server body_of s o)
      → OnWire vk my_id
      → is_some (load_leaf my_id vk) ≡ true
      → register wire
          (network server link body_of client)
          live_context
          my_id
          vk.addr
          s
          o.addr
          o.stale
          vk
        ≡ ((vk.id, ok s), registering my_id s o vk)
  unfolding register request answer_of read_answer serialize_packet
  register-served my_id s o vk r w l =
      let h = request_header MessageType.register my_id in
      let d = dispatch-registering my_id s o vk r w l in
      let sent : first_to client (dispatch server link h r.body client (taken vk)).sent
          ≡ some (accept_packet s vk) =
        rw d (registering-Offered my_id s o vk l).answered in
      ground (
        arith,
        w.addressed,
        r.marshalled,
        exchange-served server link body_of client wire h
            (some (register_request (register_body wire s o))) r.body vk (accept_packet s vk)
            (ground (arith, r.marshalled))
            (request-FitsWire MessageType.register my_id (omega arith) w.my_id_64) refl r.short sent
            (answer-FitsWire MessageType.register_accept my_id vk (omega arith) w) refl
            r.accept_short,
        d,
        r.accept_read,
      )
