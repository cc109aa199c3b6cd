-- ===== src/Vk/Handlers/Admission.antt =====
-- Who a JOIN admits, and what LEAVE forgets.
use orv.Base.{
  ℕ, ◌≡◌, arith, Bool, true, false, not, ◌||◌, ◌==◌, nat_eq, String, List, [], ◌∷◌, ◌++◌, none,
  some, is_some, if◌then◌else◌, ◌&&◌,
}
use orv.Base.Map.{lookup-insert, beq_refl}
use orv.Version.{supports}
use orv.Protocol.{Header}
use orv.Protocol.MessageType
use orv.Vk.State.{
  AddrPort, hello_required, id_in_use, bad_height, unknown_child_id, JoinBody, Wire, Platform,
  VaultKeeper, Packet, no_body, send, respond_success,
}
use orv.Vk.Providers.Laws.{provider}
use orv.Vk.Children.{load_cvk, load_leaf, add_cvk, add_leaf, install_leaf}
use orv.Vk.Children.Views.{is_child}
use orv.Vk.Children.Coherent.{Coherent}
use orv.Vk.Handlers.Outcome.{is_nil}
use orv.Vk.Handlers.Joining.{
  child_height, take_hello, serve_hello, install_cvk, join_cvk, join_leaf, accept_join, serve_join,
  drop_child, serve_leave,
}
use orv.Vk.Handlers.Dropping.{drop_child_lem, drop_child-id, drop_child_miss}

module _ {P : Platform} where
  -- Has the node said HELLO lately?
  abbrev pub greeted : ℕ → VaultKeeper P → Bool
  greeted i vk = is_some (P.hello_table.load i vk.pending_hellos)

  -- The JOIN of a leaf is accepted exactly if it has said HELLO and is no child VK, also if it is a leaf
  -- already; its HELLO is used up whether it is accepted or refused, so a JOIN that it repeats
  -- without a new HELLO is refused. Once accepted it is a leaf, and no other node becomes or ceases to
  -- be one.
  pub join_leaf_lem :
      (i : ℕ) (vk : VaultKeeper P) (j : ℕ)
      → ((join_leaf i vk).1 ≡ (
          if not (greeted i vk)
          then some hello_required
          else if is_some (load_cvk i vk)
          then some id_in_use
          else none))
        × (greeted i (join_leaf i vk).0 ≡ false)
        × (is_some (load_leaf j (join_leaf i vk).0) ≡ (
            is_some (load_leaf j vk)
            || (if i == j then greeted i vk && not (is_some (load_cvk i vk)) else false)))
        × (is_some (load_cvk j (join_leaf i vk).0) ≡ is_some (load_cvk j vk))
  unfolding join_leaf take_hello add_leaf install_leaf
  join_leaf_lem i vk j = ground (
    arith,
    beq_refl i,
    P.hello_table.delete-found i vk.pending_hellos,
    P.hello_table.load-delete i i vk.pending_hellos,
    lookup-insert i j (record { serviceless_pruner = vk.clock.next_timer; services = [] })
        vk.children.leaves,
  )

  -- The JOIN of a child VK whose address can be read is accepted if its height is one below ours, and
  -- it is known already, or has said HELLO and is no leaf. It is then a child VK; a new one is
  -- recorded at the address that it gave, and a known one as it was.
  pub join_cvk_lem :
      (w : Wire) (b : JoinBody) (i : ℕ) (vk : VaultKeeper P) (a : AddrPort)
      → w.parse_addr_port b.vk_addr ≡ some a
      → ((join_cvk w b i vk).1 ≡ (
          if not (b.height == child_height vk.structure.height)
          then some bad_height
          else if is_some (load_cvk i vk)
          then none
          else if not (greeted i vk)
          then some hello_required
          else if is_some (load_leaf i vk)
          then some id_in_use
          else none))
        × (load_cvk i (join_cvk w b i vk).0 ≡ (
            if b.height == child_height vk.structure.height
              && not (is_some (load_cvk i vk))
              && greeted i vk
              && not (is_some (load_leaf i vk))
            then some (record { services = []; addr = a })
            else load_cvk i vk))
  unfolding join_cvk install_cvk take_hello add_cvk
  join_cvk_lem w b i vk a e =
      let t = (P.cvk_table.refresh i vk.prune_time.child_vk vk.children.cvks).1 in
      ground (
        arith,
        beq_refl i,
        P.cvk_table.refresh-found i vk.prune_time.child_vk vk.children.cvks,
        P.cvk_table.load-refresh i i vk.prune_time.child_vk vk.children.cvks,
        P.hello_table.delete-found i vk.pending_hellos,
        P.cvk_table.load-store i i (record { services = []; addr = a }) vk.prune_time.child_vk t,
      )

  -- The answer to a LEAVE.
  abbrev pub leave_ack_packet : AddrPort → VaultKeeper P → Packet
  leave_ack_packet a vk = record {
    to = a;
    header = record {
      version = vk.version_set.highest;
      shorthand = false;
      type = MessageType.leave_ack;
      id = vk.id;
    };
    payload = no_body;
  }

  -- Where the two views of the children agree and no service is listed without a provider, a LEAVE
  -- that is well formed and of a supported version is accepted if it comes from a child, and its
  -- sender is then sent a LEAVE_ACK after what the removal of the child sent; it is refused if not,
  -- and no LEAVE_ACK is sent. From then on the sender is no child and no provider of any service.
  pub serve_leave_lem :
      (h : Header) (a : AddrPort) (vk : VaultKeeper P) (t : String)
      → h.shorthand ≡ false
      → supports vk.version_set h.version ≡ true
      → Coherent vk
      → ((serve_leave h [] a vk).1 ≡ (if is_child h.id vk then none else some unknown_child_id))
        × ((serve_leave h [] a vk).0.sent ≡ (
            if is_child h.id vk
            then (drop_child h.id vk).1.sent ++ leave_ack_packet a vk ∷ []
            else vk.sent))
        × (is_child h.id (serve_leave h [] a vk).0 ≡ false)
        × (provider t h.id (serve_leave h [] a vk).0 ≡ none)
  unfolding serve_leave respond_success send
  serve_leave_lem h a vk t short sup c =
      unfold provider in
      ground (arith, drop_child_lem h.id vk t c, drop_child-id h.id vk, drop_child_miss h.id vk)

  -- A node that no child VK is, and that says HELLO, may then JOIN as a leaf: it is accepted and is a
  -- leaf, where the packets are well formed and their version is supported.
  pub hello_then_join :
      (w : Wire) (h k : Header) (b : List ℕ) (a : AddrPort) (vk : VaultKeeper P) (j : JoinBody)
      → h.shorthand ≡ false
      → k.shorthand ≡ false
      → h.id ≡ k.id
      → is_nil b ≡ false
      → supports vk.version_set k.version ≡ true
      → w.unmarshal_join b ≡ some j
      → j.is_vk ≡ false
      → load_cvk k.id vk ≡ none
      → let out = serve_join w k b a (serve_hello h [] a vk).0 in
        (out.1 ≡ none) × (is_some (load_leaf k.id out.0) ≡ true)
  unfolding serve_hello respond_success send
  hello_then_join w h k b a vk j sh sk same body sup read leaf n =
      let v = (serve_hello h [] a vk).0 in
      let t = P.hello_table.load-store h.id k.id true vk.prune_time.hello vk.pending_hellos in
      unfold serve_join accept_join in ground (arith, t, beq_refl k.id, join_leaf_lem k.id v k.id)
