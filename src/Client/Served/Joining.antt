-- ===== src/Client/Served/Joining.antt =====
-- JOIN of a leaf at a Vaultkeeper: `Join` of implementations/slims/slims/client/client.go meets
-- `serveJoin`.
use orv.Base.{
  ℕ, ◌≤◌, ◌≡◌, refl, arith, true, false, String, List, [], ◌∷◌, ◌++◌, none, some, is_some, nat_eq,
  text_eq, ok, length, ◌∙◌,
}
use orv.Base.Map.{beq_refl}
use orv.Version.{supports}
use orv.Protocol.MessageType
use orv.Protocol.Transport.{live_context, serialize_packet}
use orv.Vk.State.{
  AddrPort, no_addr, addr_eq, addr_beq_iff, Payload, join_accept, Packet, JoinBody, Wire, Platform,
  VaultKeeper, send, respond_success,
}
use orv.Vk.Children.{load_cvk, load_leaf, add_leaf, install_leaf}
use orv.Vk.Children.Views.{offers}
use orv.Vk.Children.Coherent.{Coherent}
use orv.Vk.Handlers.Outcome.{Outcome}
use orv.Vk.Handlers.Clients.{Link}
use orv.Vk.Handlers.Joining.{serve_join, accept_join, join_leaf, take_hello}
use orv.Vk.Handlers.Discovery.{offers-children}
use orv.Vk.Handlers.Admission.{greeted, join_leaf_lem}
use orv.Vk.Handlers.Coherence.{Coherent-children, join_leaf-Coherent}
use orv.Vk.Dispatch.{handler, finish, serve_with, dispatch}
use orv.Client.{join_request, ClientWire, read_answer, answer_of, request_header, request}
use orv.Vk.Registry.Handlers.{join_leaf-offers}
use orv.Client.Requests.{join}
use orv.Client.Leaf.{leaf_info}
use orv.Client.Served.{Agree, first_to, taken, network, exchange-served}
use orv.Client.Served.Handshake.{
  OnWire, request-FitsWire, answer_header, answer-FitsWire, dispatch-serve,
}

-- The body of the JOIN of a leaf.
abbrev pub leaf_body : ClientWire → JoinBody
leaf_body wire = record { is_vk = false; vk_addr = wire.print_addr no_addr; height = 0 }

-- What a JOIN leaves of a Vaultkeeper, but its children and its HELLOs.
abbrev pub SameNode : {P : Platform} → VaultKeeper P → VaultKeeper P → Type 0
SameNode v w =
    (w.structure ≡ v.structure)
    × (w.version_set ≡ v.version_set)
    × (w.id ≡ v.id)
    × (w.addr ≡ v.addr)

module _ {P : Platform} (server : Wire) (link : Link) (client : AddrPort) (wire : ClientWire)
    (body_of : Payload → List ℕ) (agree : Agree wire server body_of) where
  join_leaf-SameNode :
      (i : ℕ) (vk : VaultKeeper P)
      → SameNode vk (join_leaf i vk).0 × ((join_leaf i vk).0.sent ≡ vk.sent)
  unfolding join_leaf
  join_leaf-SameNode i vk = unfold take_hello add_leaf install_leaf in ground arith

  -- The Vaultkeeper once it has answered the JOIN of a leaf.
  unfoldable pub joining : ℕ → VaultKeeper P → VaultKeeper P
  joining my_id vk = (accept_join client (join_leaf my_id (taken vk))).0

  abbrev accept_packet : VaultKeeper P → Packet
  accept_packet vk = record {
    to = client;
    header = answer_header MessageType.join_accept vk;
    payload = join_accept vk.structure.height;
  }

  serve-join_leaf :
      (my_id : ℕ) (b : List ℕ) (vk : VaultKeeper P)
      → supports vk.version_set (request_header MessageType.join my_id).version ≡ true
      → wire.marshal (join_request (leaf_body wire)) ≡ some b
      → serve_join server (request_header MessageType.join my_id) b client vk
        ≡ accept_join client (join_leaf my_id vk)
  unfolding serve_join
  serve-join_leaf my_id b vk s m = ground (
    arith,
    agree.join_read (leaf_body wire) b m,
    agree.join_full (leaf_body wire) b m (agree.printed no_addr),
  )

  accept_join-ok :
      (o : Outcome P)
      → o.1 ≡ none
      → ((accept_join client o).1 ≡ none)
        × SameNode o.0 (accept_join client o).0
        × ((accept_join client o).0.children ≡ o.0.children)
        × ((accept_join client o).0.sent ≡ o.0.sent ++ accept_packet o.0 ∷ [])
  unfolding accept_join respond_success send
  accept_join-ok (v, none) e = (refl, (refl, refl, refl, refl), refl, refl)
  accept_join-ok (v, some x) e = absurd (ground arith)

  -- What the Vaultkeeper is after the JOIN of a greeted node that is no child VK: the node is a leaf,
  -- the children are coherent if they were, and offer what they did.
  pub record Joined (my_id : ℕ) (vk : VaultKeeper P) : Type 0 where
    pub leaf : is_some (load_leaf my_id (joining my_id vk)) ≡ true
    pub same : SameNode vk (joining my_id vk)
    pub coherent : Coherent vk → Coherent (joining my_id vk)
    pub offered : (t : String) (j : ℕ) → offers t j (joining my_id vk) ≡ offers t j vk
    pub answered : first_to client (joining my_id vk).sent ≡ some (accept_packet vk)

  joining-error :
      (my_id : ℕ) (vk : VaultKeeper P)
      → greeted my_id vk ≡ true
      → load_cvk my_id vk ≡ none
      → ((join_leaf my_id (taken vk)).1 ≡ none)
        × (is_some (load_leaf my_id (join_leaf my_id (taken vk)).0) ≡ true)
  joining-error my_id vk g n = ground (arith, beq_refl my_id, join_leaf_lem my_id (taken vk) my_id)

  pub joining-Joined :
      (my_id : ℕ) (vk : VaultKeeper P)
      → greeted my_id vk ≡ true
      → load_cvk my_id vk ≡ none
      → Joined my_id vk
  unfolding joining
  joining-Joined my_id vk g n =
      let o = join_leaf my_id (taken vk) in
      let e = joining-error my_id vk g n in
      let k = accept_join-ok o e.0 in
      let same = join_leaf-SameNode my_id (taken vk) in
      record {
        leaf = ground (arith, e, k);
        same = ground (arith, k, same);
        coherent = λ c.
            Coherent-children o.0 (accept_join client o).0 k.2
              (join_leaf-Coherent my_id (taken vk) (Coherent-children vk (taken vk) refl c));
        offered = λ t j.
            offers-children o.0 (accept_join client o).0 t j k.2
            ∙ join_leaf-offers my_id (taken vk) t j
            ∙ offers-children vk (taken vk) t j refl;
        answered = unfold first_to in ground (arith, k, same, (addr_beq_iff client client).1);
      }

  dispatch-joining :
      (my_id : ℕ) (b : List ℕ) (vk : VaultKeeper P)
      → OnWire vk my_id
      → greeted my_id vk ≡ true
      → load_cvk my_id vk ≡ none
      → wire.marshal (join_request (leaf_body wire)) ≡ some b
      → dispatch server link (request_header MessageType.join my_id) b client (taken vk)
        ≡ joining my_id vk
  unfolding handler serve_with finish joining
  dispatch-joining my_id b vk w g n m =
      let o = join_leaf my_id (taken vk) in
      ground (
        arith,
        dispatch-serve server link client (request_header MessageType.join my_id) b (taken vk)
            w.others,
        serve-join_leaf my_id b (taken vk) w.supported m,
        accept_join-ok o (joining-error my_id vk g n).0,
      )

  -- Join of a greeted node as a leaf is accepted, with the height of the Vaultkeeper.
  pub join-served :
      (my_id : ℕ) (b : List ℕ) (vk : VaultKeeper P)
      → OnWire vk my_id
      → greeted my_id vk ≡ true
      → load_cvk my_id vk ≡ none
      → wire.marshal (join_request (leaf_body wire)) ≡ some b
      → length b ≤ 1014
      → join wire (network server link body_of client) live_context my_id vk.addr leaf_info vk
        ≡ ((vk.id, ok vk.structure.height), joining my_id vk)
  unfolding join request answer_of read_answer serialize_packet
  join-served my_id b vk w g n m short =
      let h = request_header MessageType.join my_id in
      let d = dispatch-joining my_id b vk w g n m in
      let sent : first_to client (dispatch server link h b client (taken vk)).sent
          ≡ some (accept_packet vk) =
        rw d (joining-Joined my_id vk g n).answered in
      ground (
        arith,
        w.addressed,
        exchange-served server link body_of client wire h (some (join_request (leaf_body wire))) b
            vk (accept_packet vk) (ground arith)
            (request-FitsWire MessageType.join my_id (omega arith) w.my_id_64) refl short sent
            (answer-FitsWire MessageType.join_accept my_id vk (omega arith) w) refl
            (agree.join_accept_short vk.structure.height),
        d,
        agree.join_accept_read vk.structure.height,
      )
