-- ===== src/Vk/Handlers/Invariants.antt =====
-- What an invariant of the children is asked for, so that every handler keeps it: it must be one of the
-- children and of the callbacks that wait for their lock, and each operation on the children must keep it.
use orv.Base.{ℕ, ◌≡◌, inl, inr, arith, String, none, ◌∙◌, sym, Option-cases, Bool-cases}
use orv.Base.Int.{ℤ}
use orv.Vk.State.{AddrPort, JoinBody, Wire, Platform, VaultKeeper}
use orv.Vk.Children.{load_cvk, add_cvk, add_leaf, add_service, remove_cvk, remove_leaf}
use orv.Vk.Children.Waiting.{
  waiting, add_cvk-waiting, add_leaf-waiting, remove_cvk-waiting, remove_leaf-waiting,
}
use orv.Vk.Children.Coherent.{Coherent, add_cvk-Coherent, add_leaf-Coherent, add_service-Coherent}
use orv.Vk.Children.Leaving.{remove_cvk-Coherent, remove_leaf-Coherent}
use orv.Vk.Handlers.Joining.{install_cvk, join_cvk, join_leaf, drop_child}
use orv.Vk.Handlers.Coherence.{
  Coherent-children, refreshed, refresh-Coherent, drop_child-children, install_cvk-children,
  join_cvk-children, join_cvk_bad_address, join_leaf-children,
}
use orv.Vk.Handlers.Forgetting.{deregistered, deregistered-Coherent}
use orv.Vk.Handlers.Footprints.{joined}
use orv.Vk.Handlers.Waiting.{drop_child-waiting, join_cvk-waiting, join_leaf-waiting}

pub record ChildrenInvariant {P : Platform} (Holds : VaultKeeper P → Type 0) : Type 0 where
  pub transfer :
      (v w : VaultKeeper P) → w.children ≡ v.children → waiting w ≡ waiting v → Holds v → Holds w
  pub on_refreshed : (i : ℕ) (vk : VaultKeeper P) → Holds vk → Holds (refreshed i vk)
  pub on_add_cvk :
      (i : ℕ) (a : AddrPort) (vk : VaultKeeper P)
      → load_cvk i vk ≡ none
      → Holds vk
      → Holds (add_cvk i a vk).1
  pub on_add_leaf : (i : ℕ) (vk : VaultKeeper P) → Holds vk → Holds (add_leaf i vk).1
  pub on_remove_cvk : (i : ℕ) (vk : VaultKeeper P) → Holds vk → Holds (remove_cvk i vk).1
  pub on_remove_leaf : (i : ℕ) (vk : VaultKeeper P) → Holds vk → Holds (remove_leaf i vk).1
  pub on_add_service :
      (i : ℕ) (s : String) (a : AddrPort) (d : ℤ) (vk : VaultKeeper P)
      → Holds vk
      → Holds (add_service i s a d vk).1
  pub on_deregistered :
      (i : ℕ) (s : String) (vk : VaultKeeper P) → Holds vk → Holds (deregistered i s vk)

module _ {P : Platform} {Holds : VaultKeeper P → Type 0} (inv : ChildrenInvariant Holds) where
  pub drop_child-Holds : (i : ℕ) (vk : VaultKeeper P) → Holds vk → Holds (drop_child i vk).1
  drop_child-Holds i vk h =
      let w = (remove_cvk i vk).1 in
      let k = inv.on_remove_cvk i vk h in
      let same = drop_child-waiting i vk in
      elim (drop_child-children i vk) [
        | inl e ↦ inv.transfer w (drop_child i vk).1 e (same ∙ sym (remove_cvk-waiting i vk)) k
        | inr e ↦
            inv.transfer (remove_leaf i w).1 (drop_child i vk).1 e
              (ground (arith, same, remove_cvk-waiting i vk, remove_leaf-waiting i w))
              (inv.on_remove_leaf i w k)
      ]

  join_leaf-Holds : (i : ℕ) (vk : VaultKeeper P) → Holds vk → Holds (join_leaf i vk).0
  join_leaf-Holds i vk h = elim (join_leaf-children i vk) [
    | inl e ↦ inv.transfer vk (join_leaf i vk).0 e (join_leaf-waiting i vk) h
    | inr e ↦
        inv.transfer (add_leaf i vk).1 (join_leaf i vk).0 e
          (join_leaf-waiting i vk ∙ sym (add_leaf-waiting i vk)) (inv.on_add_leaf i vk h)
  ]

  -- What a JOIN of a child VK may leave of the children.
  install_cvk-cases :
      (i : ℕ) (a : AddrPort) (vk out : VaultKeeper P)
      → load_cvk i vk ≡ none
      → out.children ≡ (install_cvk i a vk).0.children
      → waiting out ≡ waiting vk
      → Holds vk
      → Holds out
  install_cvk-cases i a vk out n e same h = elim (install_cvk-children i a vk) [
    | inl f ↦ inv.transfer vk out (e ∙ f) same h
    | inr f ↦
        inv.transfer (add_cvk i a vk).1 out (e ∙ f) (same ∙ sym (add_cvk-waiting i a vk))
          (inv.on_add_cvk i a vk n h)
  ]

  join_cvk-Holds :
      (w : Wire) (j : JoinBody) (i : ℕ) (vk : VaultKeeper P)
      → Holds vk
      → Holds (join_cvk w j i vk).0
  join_cvk-Holds w j i vk h =
      let out = (join_cvk w j i vk).0 in
      let same = join_cvk-waiting w j i vk in
      elim (Option-cases (w.parse_addr_port j.vk_addr)) [
        | inl e ↦ inv.transfer vk out (join_cvk_bad_address w j i vk e) same h
        | inr (a, e) ↦ elim (join_cvk-children w j i vk a e) [
          | inl f ↦ inv.transfer vk out f same h
          | inr (inl f) ↦ inv.transfer (refreshed i vk) out f same (inv.on_refreshed i vk h)
          | inr (inr (f, new)) ↦
              install_cvk-cases i a (refreshed i vk) out new f same (inv.on_refreshed i vk h)
        ]
      ]

  pub joined-Holds :
      (w : Wire) (j : JoinBody) (i : ℕ) (vk : VaultKeeper P) → Holds vk → Holds (joined w j i vk).0
  unfolding join_cvk
  joined-Holds w j i vk h = elim (Bool-cases j.is_vk) [
    | inl e ↦ rw e (join_cvk-Holds w j i vk h)
    | inr e ↦ rw e (join_leaf-Holds i vk h)
  ]

pub Coherent-ChildrenInvariant : {P : Platform} → ChildrenInvariant (Coherent {P = P})
Coherent-ChildrenInvariant = record {
  transfer = λ v w e f c. Coherent-children v w e c;
  on_refreshed = refresh-Coherent;
  on_add_cvk = add_cvk-Coherent;
  on_add_leaf = add_leaf-Coherent;
  on_remove_cvk = remove_cvk-Coherent;
  on_remove_leaf = remove_leaf-Coherent;
  on_add_service = add_service-Coherent;
  on_deregistered = deregistered-Coherent;
}
