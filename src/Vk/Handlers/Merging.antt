-- ===== src/Vk/Handlers/Merging.antt =====
-- Which MERGE a root accepts, and how an INCREMENT goes down the tree.
use orv.Base.{
  ℕ, ◌+◌, ◌^◌, ◌≡◌, ◌<◌, arith, Bool, true, false, not, ◌||◌, ◌&&◌, ◌==◌, nat_eq, String, map, List,
  [], ◌∷◌, ◌++◌, Option, none, some, if◌then◌else◌, ltb, is_some, Option-cases, inl, inr,
}
use mathlib.Core.List.{Perm, append-nil}
use mathlib.Core.List.Perm
use orv.Protocol.MessageType
use orv.Version.{supports}
use orv.Protocol.{Header}
use orv.Vk.State.{
  AddrPort, no_addr, bad_height, merge_accept, Wire, Structure, Platform, Packet, VaultKeeper, send,
  respond_success,
}
use orv.Vk.Children.Views.{is_child}
use orv.Vk.Handlers.Outcome.{is_nil}
use orv.Vk.Handlers.Joining.{take_hello}
use orv.Vk.Handlers.Tree.{
  serve_increment, merge_height, merge_request, merge_again, merge_under, merge_root, serve_merge,
  apply_increment,
}
use orv.Vk.Handlers.Admission.{greeted}
use orv.Vk.Handlers.Increments.{told_packet, told_ack, told-raised}

abbrev apply_if : Bool → (List Packet → List Packet) → List Packet → List Packet
apply_if true f ps = f ps
apply_if false f ps = ps

apply_if-perm :
    (f : List Packet → List Packet)
    → ((ps : List Packet) → Perm (f ps) ps)
    → (b : Bool) (ps : List Packet) → Perm (apply_if b f ps) ps
apply_if-perm f h true ps = h ps
apply_if-perm f h false ps = Perm.refl ps

-- What the body of a MERGE asks for, if it can be read: its height and the address of the requestor, if
-- that can be read. No body is height 0 at the empty text, and no address is that of the sender.
abbrev pub asked : Wire → List ℕ → AddrPort → Option (ℕ × Option AddrPort)
asked w [] a = some (0, w.parse_addr_port "")
asked w (x ∷ b) a = elim (w.unmarshal_merge (x ∷ b)) [
  | none ↦ none
  | some m ↦ elim m.vk_address [
    | none ↦ some (m.height, w.parse_addr_port (w.print_addr a))
    | some s ↦ some (m.height, w.parse_addr_port s)
  ]
]

abbrev holds_height : ℕ → Option ℕ → Bool
holds_height n none = false
holds_height n (some m) = m == n

-- The height could be read and is ours.
abbrev pub asks_height : ℕ → Option (ℕ × Option AddrPort) → Bool
asks_height n none = false
asks_height n (some (m, p)) = m == n

asked-unread :
    (w : Wire) (b : List ℕ) (a : AddrPort) → merge_request w b a ≡ none → asked w b a ≡ none
unfolding merge_request
asked-unread w [] a e = ground (arith, e)
asked-unread w (x ∷ b) a e = ground (arith, e)

asked-read :
    (w : Wire) (b : List ℕ) (a : AddrPort) (n : ℕ) (s : String)
    → merge_request w b a ≡ some (n, s)
    → asked w b a ≡ some (n, w.parse_addr_port s)
unfolding merge_request
asked-read w [] a n s e = ground (arith, e)
asked-read w (x ∷ b) a n s e = ground (arith, e)

asks_height-merge_height :
    (w : Wire) (b : List ℕ) (a : AddrPort) (n : ℕ)
    → asks_height n (asked w b a) ≡ holds_height n (merge_height w b)
asks_height-merge_height w [] a n = ground arith
asks_height-merge_height w (x ∷ b) a n = ground arith

-- The structure of a root with a parent, if it has one now.
abbrev pub under : ℕ → Option AddrPort → Structure → Structure
under i none s = s
under i (some p) s = record { height = s.height; parent_id = i; parent_addr = p }

module _ {P : Platform} where
  -- The packet is one that a MERGE may be.
  abbrev pub merge_welcome : Header → VaultKeeper P → Bool
  merge_welcome h vk = not h.shorthand && supports vk.version_set h.version

  -- The parent that a root takes: the requestor has said HELLO and is no child, its height is ours and
  -- at most 65534, and its address can be read.
  abbrev pub new_parent : Wire → ℕ → List ℕ → AddrPort → VaultKeeper P → Option AddrPort
  new_parent w i b a vk = elim (asked w b a) [
    | none ↦ none
    | some (n, p) ↦
        if greeted i vk && not (is_child i vk) && n == vk.structure.height && not (ltb 65534 n)
        then p
        else none
  ]

  abbrev pub merge_accepts : Wire → Header → List ℕ → AddrPort → VaultKeeper P → Bool
  merge_accepts w h b a vk =
      merge_welcome h vk
      && (if h.id == 0
          then asks_height vk.structure.height (asked w b a)
          else is_some (new_parent w h.id b a vk))

  abbrev pub merge_accept_packet : AddrPort → VaultKeeper P → Packet
  merge_accept_packet a vk = record {
    to = a;
    header = record {
      version = vk.version_set.highest;
      shorthand = false;
      type = MessageType.merge_accept;
      id = vk.id;
    };
    payload = merge_accept vk.structure.height;
  }

  merge_root_lem :
      (w : Wire) (i : ℕ) (b : List ℕ) (a : AddrPort) (vk : VaultKeeper P) (j : ℕ)
      → let out = merge_root w i b a vk in
        (is_some out.1 ≡ not (is_some (new_parent w i b a vk)))
        × (out.0.structure ≡ under i (new_parent w i b a vk) vk.structure)
        × (greeted j out.0 ≡ (greeted j vk && not (i == j)))
        × (out.0.sent ≡ (
            if is_some (new_parent w i b a vk)
            then vk.sent ++ merge_accept_packet a vk ∷ []
            else vk.sent))
  unfolding merge_root merge_under take_hello respond_success send
  merge_root_lem w i b a vk j =
      let found = P.hello_table.delete-found i vk.pending_hellos in
      let gone = P.hello_table.load-delete i j vk.pending_hellos in
      elim (Option-cases (merge_request w b a)) [
        | inl e ↦ ground (arith, found, gone, asked-unread w b a e)
        | inr ((n, s), e) ↦ elim (Option-cases (w.parse_addr_port s)) [
          | inl f ↦ ground (arith, found, gone, asked-read w b a n s e)
          | inr (p, f) ↦ ground (arith, found, gone, asked-read w b a n s e)
        ]
      ]

  -- A MERGE at a root, whatever its header and its body. It is accepted if it is no shorthand and of a
  -- supported version and, where its ID is 0, which is the ID that a root has for its parent, if its
  -- height is ours, and otherwise if its sender has said HELLO and is no child, its height is ours and
  -- at most 65534, and its address can be read; that sender is then the parent at that address. In
  -- every other case, ID 0 included, the structure stays as it was. The HELLO of the sender is used up
  -- by each MERGE that is no shorthand, of a supported version and of another ID than 0, accepted or
  -- not, and no other HELLO is. A MERGE_ACCEPT with our height is sent exactly where it is accepted.
  pub serve_merge_root_lem :
      (w : Wire) (h : Header) (b : List ℕ) (a : AddrPort) (vk : VaultKeeper P) (j : ℕ)
      → vk.structure.parent_id ≡ 0
      → vk.structure.parent_addr ≡ no_addr
      → let out = serve_merge w h b a vk in
        let asks = merge_welcome h vk && not (h.id == 0) in
        (is_some out.1 ≡ not (merge_accepts w h b a vk))
        × (out.0.structure
            ≡ (if asks then under h.id (new_parent w h.id b a vk) vk.structure else vk.structure))
        × (greeted j out.0 ≡ (greeted j vk && not (asks && h.id == j)))
        × (out.0.sent ≡ (
            if merge_accepts w h b a vk then vk.sent ++ merge_accept_packet a vk ∷ [] else vk.sent))
  unfolding serve_merge merge_again respond_success send
  serve_merge_root_lem w h b a vk j root bare =
      let read = asks_height-merge_height w b a vk.structure.height in
      elim (Option-cases (merge_height w b)) [
        | inl e ↦ ground (arith, read, merge_root_lem w h.id b a vk j)
        | inr (n, e) ↦ ground (arith, read, merge_root_lem w h.id b a vk j)
      ]

  -- Where an empty text is no address, a root never gets a parent by a MERGE without a body. It accepts
  -- one only under the ID 0, at height 0, where the packet is no shorthand and of a supported version,
  -- and refuses every other.
  pub serve_merge_no_body :
      (w : Wire) (h : Header) (a : AddrPort) (vk : VaultKeeper P)
      → vk.structure.parent_id ≡ 0
      → vk.structure.parent_addr ≡ no_addr
      → w.parse_addr_port "" ≡ none
      → (is_some (serve_merge w h [] a vk).1
          ≡ not (merge_welcome h vk && h.id == 0 && vk.structure.height == 0))
        × ((serve_merge w h [] a vk).0.structure ≡ vk.structure)
  serve_merge_no_body w h a vk root bare e =
      ground (arith, serve_merge_root_lem w h [] a vk 0 root bare)

  -- The packets that an INCREMENT is answered and passed on with.
  abbrev pub increment_answers : ℕ → AddrPort → VaultKeeper P → List Packet
  increment_answers n a vk =
      let entries = P.cvk_table.entries vk.children.cvks in
      if n == vk.structure.height
      then told_ack a n vk ∷ []
      else if n == vk.structure.height + 1
      then told_ack a n vk ∷ map (λ e. told_packet vk.structure.height vk e.1) entries
      else []

  pub apply_increment_lem :
      (n : ℕ) (a : AddrPort) (vk : VaultKeeper P)
      → vk.structure.height + 1 < 2 ^ 16
      → ((apply_increment n a vk).1 ≡ (
          if n == vk.structure.height || n == vk.structure.height + 1
          then none
          else some bad_height))
        × ((apply_increment n a vk).0.structure ≡ (
            if n == vk.structure.height + 1
            then record (vk.structure) { height = n }
            else vk.structure))
        × ((ps : List Packet) × ((apply_increment n a vk).0.sent ≡ vk.sent ++ ps)
            × Perm ps (increment_answers n a vk))
  unfolding apply_increment send
  apply_increment_lem n a vk small =
      let raises = n == vk.structure.height + 1 in
      let answers = increment_answers n a vk in
      (
        ground arith,
        ground arith,
        (
          apply_if raises P.interleave answers,
          ground (
            arith,
            append-nil vk.sent,
            told-raised (P.cvk_table.entries vk.children.cvks) vk small,
          ),
          apply_if-perm P.interleave P.interleave-perm raises answers,
        ),
      )

  -- A root, whose parent ID is 0, obeys an INCREMENT whose header bears the ID 0: where the packet is
  -- well formed, its version is supported and its height is one more than ours, in 16 bits, the
  -- height of the root rises.
  pub serve_increment_unparented :
      (w : Wire) (h : Header) (b : List ℕ) (a : AddrPort) (vk : VaultKeeper P)
      → vk.structure.parent_id ≡ 0
      → h.id ≡ 0
      → h.shorthand ≡ false
      → is_nil b ≡ false
      → supports vk.version_set h.version ≡ true
      → w.unmarshal_increment b ≡ some (vk.structure.height + 1)
      → vk.structure.height + 1 < 2 ^ 16
      → ((serve_increment w h b a vk).1 ≡ none)
        × ((serve_increment w h b a vk).0.structure.height ≡ vk.structure.height + 1)
  unfolding serve_increment
  serve_increment_unparented w h b a vk root zero sh full sup read small =
      ground (arith, apply_increment_lem (vk.structure.height + 1) a vk small)
