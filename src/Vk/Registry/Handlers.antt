-- ===== src/Vk/Registry/Handlers.antt =====
-- The registry of Vk/Registry, and each handler.
use orv.Base.{
  ℕ, ◌≡◌, ◌⊎◌, inl, inr, refl, arith, String, List, none, some, nat_eq, text_eq, ◌==◌,
  if◌then◌else◌, ◌∙◌, Option-cases, Bool-cases,
}
use orv.Base.Int.{ℤ}
use orv.Protocol.{Header}
use orv.Protocol.MessageType
use orv.Vk.State.{AddrPort, JoinBody, RegisterBody, Wire, Platform, VaultKeeper}
use orv.Vk.Children.{load_cvk, load_leaf, add_cvk, add_leaf, add_service}
use orv.Vk.Children.Views.{
  offers, is_child, Disjoint, offers-add_cvk, offers-add_leaf, add_service_views,
}
use orv.Vk.Children.Removal.{remove_cvk_views, remove_leaf_views}
use orv.Vk.Children.Leaving.{remove_cvk_miss, no_cvk_of_leaf}
use orv.Vk.Handlers.Outcome.{MessageHandler}
use orv.Vk.Handlers.Joining.{install_cvk, join_cvk, join_leaf, drop_child, serve_join, serve_leave}
use orv.Vk.Handlers.Tree.{serve_vk_heartbeat}
use orv.Vk.Handlers.Services.{apply_register, serve_register, serve_deregister}
use orv.Vk.Handlers.Coherence.{
  refreshed, install_cvk-children, join_cvk-children, join_cvk_bad_address, join_leaf-children,
}
use orv.Vk.Handlers.Forgetting.{deregistered, deregistered-views}
use orv.Vk.Handlers.Discovery.{offers-children}
use orv.Vk.Handlers.Footprints.{
  joined, serve_leave-children, serve_join-children, serve_join_unread, serve_vk_heartbeat-children,
}
use orv.Vk.Handlers.ServiceFootprints.{
  apply_register-children, apply_register_refused, serve_register-children, serve_register_unread,
  serve_deregister-children, serve_deregister_unread,
}
use orv.Vk.Registry.{
  keep_all, offer_at, withdraw, forget, obey, nothing, registers, deregisters, leaves, Obeys,
}

module _ {P : Platform} where
  -- A handler that follows the registry on packets of a type.
  abbrev pub Follows : Wire → ℕ → MessageHandler P → Type 0
  Follows w type serve =
      (h : Header) (b : List ℕ) (a : AddrPort) (vk : VaultKeeper P)
      → h.type ≡ type
      → Disjoint vk
      → Obeys w h b vk (serve h b a vk).0

  keeps_offers :
      (w : Wire) (h : Header) (b : List ℕ) (vk out : VaultKeeper P)
      → ((t : String) (j : ℕ) → offers t j out ≡ offers t j vk)
      → Obeys w h b vk out
  keeps_offers w h b vk out e = record {
    command = keep_all;
    asked = nothing;
    obeyed = λ t j. unfold obey in e t j;
  }

  pub keeps_children :
      (w : Wire) (h : Header) (b : List ℕ) (vk out : VaultKeeper P)
      → out.children ≡ vk.children
      → Obeys w h b vk out
  keeps_children w h b vk out e = keeps_offers w h b vk out (λ t j. offers-children vk out t j e)

  -- What holds of a state holds of any that has its children.
  pub Obeys-children :
      (w : Wire) (h : Header) (b : List ℕ) (vk u out : VaultKeeper P)
      → out.children ≡ u.children
      → Obeys w h b vk u
      → Obeys w h b vk out
  Obeys-children w h b vk u out e o = record {
    command = o.command;
    asked = o.asked;
    obeyed = λ t j. offers-children u out t j e ∙ o.obeyed t j;
  }

  either :
      (w : Wire) (h : Header) (b : List ℕ) (vk u out : VaultKeeper P)
      → (out.children ≡ vk.children) ⊎ (out.children ≡ u.children)
      → Obeys w h b vk u
      → Obeys w h b vk out
  either w h b vk u out (inl e) o = keeps_children w h b vk out e
  either w h b vk u out (inr e) o = Obeys-children w h b vk u out e o

  -- Starting the time of a child VK anew.
  refreshed-offers :
      (i : ℕ) (vk : VaultKeeper P) (t : String) (j : ℕ)
      → offers t j (refreshed i vk) ≡ offers t j vk
  unfolding offers
  refreshed-offers i vk t j =
      ground (arith, P.cvk_table.load-refresh i j vk.prune_time.child_vk vk.children.cvks)

  refreshed-load_leaf : (i : ℕ) (vk : VaultKeeper P) → load_leaf i (refreshed i vk) ≡ load_leaf i vk
  refreshed-load_leaf i vk = refl

  add_cvk-offers :
      (i : ℕ) (a : AddrPort) (vk : VaultKeeper P) (t : String) (j : ℕ)
      → load_cvk i vk ≡ none
      → offers t j (add_cvk i a vk).1 ≡ offers t j vk
  add_cvk-offers i a vk t j n = unfold offers in ground (arith, offers-add_cvk i j a t vk)

  install_cvk-offers :
      (i : ℕ) (a : AddrPort) (vk : VaultKeeper P) (t : String) (j : ℕ)
      → load_cvk i vk ≡ none
      → offers t j (install_cvk i a vk).0 ≡ offers t j vk
  install_cvk-offers i a vk t j n = elim (install_cvk-children i a vk) [
    | inl e ↦ offers-children vk (install_cvk i a vk).0 t j e
    | inr e ↦
        offers-children (add_cvk i a vk).1 (install_cvk i a vk).0 t j e
        ∙ add_cvk-offers i a vk t j n
  ]

  pub join_leaf-offers :
      (i : ℕ) (vk : VaultKeeper P) (t : String) (j : ℕ)
      → offers t j (join_leaf i vk).0 ≡ offers t j vk
  join_leaf-offers i vk t j = elim (join_leaf-children i vk) [
    | inl e ↦ offers-children vk (join_leaf i vk).0 t j e
    | inr e ↦ offers-children (add_leaf i vk).1 (join_leaf i vk).0 t j e ∙ offers-add_leaf i j t vk
  ]

  join_cvk-offers :
      (w : Wire) (x : JoinBody) (i : ℕ) (vk : VaultKeeper P) (t : String) (j : ℕ)
      → offers t j (join_cvk w x i vk).0 ≡ offers t j vk
  join_cvk-offers w x i vk t j =
      let out = (join_cvk w x i vk).0 in
      elim (Option-cases (w.parse_addr_port x.vk_addr)) [
        | inl e ↦ offers-children vk out t j (join_cvk_bad_address w x i vk e)
        | inr (a, e) ↦ elim (join_cvk-children w x i vk a e) [
          | inl same ↦ offers-children vk out t j same
          | inr (inl same) ↦
              offers-children (refreshed i vk) out t j same ∙ refreshed-offers i vk t j
          | inr (inr (same, new)) ↦
              offers-children (install_cvk i a (refreshed i vk)).0 out t j same
              ∙ install_cvk-offers i a (refreshed i vk) t j new
              ∙ refreshed-offers i vk t j
        ]
      ]

  joined-offers :
      (w : Wire) (x : JoinBody) (i : ℕ) (vk : VaultKeeper P) (t : String) (j : ℕ)
      → offers t j (joined w x i vk).0 ≡ offers t j vk
  unfolding join_cvk
  joined-offers w x i vk t j = elim (Bool-cases x.is_vk) [
    | inl e ↦ rw e (join_cvk-offers w x i vk t j)
    | inr e ↦ rw e (join_leaf-offers i vk t j)
  ]

  drop_child-offers :
      (i : ℕ) (vk : VaultKeeper P) (t : String) (j : ℕ)
      → Disjoint vk
      → offers t j (drop_child i vk).1 ≡ (if i == j then none else offers t j vk)
  unfolding drop_child
  drop_child-offers i vk t j d = elim (Option-cases (load_leaf i vk)) [
    | inl e ↦ elim (Option-cases (load_cvk i vk)) [
      | inl n ↦ ground (arith, remove_cvk_miss i vk n, remove_leaf_views i vk t j n)
      | inr (c, f) ↦ ground (arith, remove_cvk_views i vk t j e)
    ]
    | inr (l, e) ↦
        let n = no_cvk_of_leaf i l vk d e in
        ground (arith, remove_cvk_miss i vk n, remove_leaf_views i vk t j n)
  ]

  pub serve_leave-Follows : (w : Wire) → Follows w MessageType.leave serve_leave
  serve_leave-Follows w h b a vk t c =
      either w h b vk (drop_child h.id vk).1 (serve_leave h b a vk).0
        (serve_leave-children h b a vk)
        (record {
          command = forget h.id;
          asked = leaves t;
          obeyed = λ s j. unfold obey in drop_child-offers h.id vk s j c;
        })

  pub serve_join-Follows : (w : Wire) → Follows w MessageType.join (serve_join w)
  serve_join-Follows w h b a vk t c = elim (Option-cases (w.unmarshal_join b)) [
    | inl e ↦ keeps_children w h b vk (serve_join w h b a vk).0 (serve_join_unread w h b a vk e)
    | inr (x, e) ↦
        either w h b vk (joined w x h.id vk).0 (serve_join w h b a vk).0
          (serve_join-children w h b a vk x e)
          (keeps_offers w h b vk (joined w x h.id vk).0 (λ s j. joined-offers w x h.id vk s j))
  ]

  pub serve_vk_heartbeat-Follows :
      (w : Wire) → Follows w MessageType.vk_heartbeat serve_vk_heartbeat
  serve_vk_heartbeat-Follows w h b a vk t c =
      either w h b vk (refreshed h.id vk) (serve_vk_heartbeat h b a vk).0
        (serve_vk_heartbeat-children h b a vk)
        (keeps_offers w h b vk (refreshed h.id vk) (λ s j. refreshed-offers h.id vk s j))

  -- REGISTER: a command if the ID is a child's, and nothing if it is not.
  added :
      (w : Wire) (h : Header) (b : List ℕ) (vk : VaultKeeper P) (r : RegisterBody) (p : AddrPort)
      (d : ℤ)
      → h.type ≡ MessageType.register
      → w.unmarshal_register b ≡ some r
      → w.parse_addr_port r.address ≡ some p
      → Obeys w h b vk (add_service h.id r.service p d vk).1
  added w h b vk r p d t u e = elim (Bool-cases (is_child h.id vk)) [
    | inl child ↦ record {
      command = offer_at h.id r.service p;
      asked = registers r p t u e child;
      obeyed = λ s j. unfold obey in ground (arith, add_service_views h.id r.service p d vk s j);
    }
    | inr other ↦
        keeps_offers w h b vk (add_service h.id r.service p d vk).1
          (λ s j. ground (arith, add_service_views h.id r.service p d vk s j))
  ]

  applied :
      (w : Wire) (h : Header) (b : List ℕ) (a : AddrPort) (vk : VaultKeeper P) (r : RegisterBody)
      → h.type ≡ MessageType.register
      → w.unmarshal_register b ≡ some r
      → Obeys w h b vk (apply_register w r h.id a vk).0
  applied w h b a vk r t u =
      let out = (apply_register w r h.id a vk).0 in
      elim (Option-cases (w.parse_duration r.stale)) [
        | inl e ↦ keeps_children w h b vk out (apply_register_refused w r h.id a vk (inl e))
        | inr (d, e) ↦ elim (Option-cases (w.parse_addr_port r.address)) [
          | inl f ↦ keeps_children w h b vk out (apply_register_refused w r h.id a vk (inr f))
          | inr (p, f) ↦
              either w h b vk (add_service h.id r.service p d vk).1 out
                (apply_register-children w r h.id a vk d p e f) (added w h b vk r p d t u f)
        ]
      ]

  pub serve_register-Follows : (w : Wire) → Follows w MessageType.register (serve_register w)
  serve_register-Follows w h b a vk t c = elim (Option-cases (w.unmarshal_register b)) [
    | inl e ↦
        keeps_children w h b vk (serve_register w h b a vk).0 (serve_register_unread w h b a vk e)
    | inr (r, e) ↦
        either w h b vk (apply_register w r h.id a vk).0 (serve_register w h b a vk).0
          (serve_register-children w h b a vk r e) (applied w h b a vk r t e)
  ]

  pub serve_deregister-Follows : (w : Wire) → Follows w MessageType.deregister (serve_deregister w)
  serve_deregister-Follows w h b a vk t c = elim (Option-cases (w.unmarshal_deregister b)) [
    | inl e ↦
        keeps_children w h b vk (serve_deregister w h b a vk).0
          (serve_deregister_unread w h b a vk e)
    | inr (s, e) ↦
        either w h b vk (deregistered h.id s vk) (serve_deregister w h b a vk).0
          (serve_deregister-children w h b a vk s e)
          (record {
            command = withdraw h.id s;
            asked = deregisters s t e;
            obeyed = λ u j. unfold obey in (deregistered-views h.id s vk u j c).0;
          })
  ]
