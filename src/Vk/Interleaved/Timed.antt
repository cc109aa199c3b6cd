-- ===== src/Vk/Interleaved/Timed.antt =====
-- The invariant of Vk/Interleaved/Listed when time passes: timers and the times of child VKs end, and the
-- callbacks that wait run, early or late.
use orv.Base.{
  ℕ, ◌≡◌, ◌⊎◌, inl, inr, refl, arith, Bool, true, false, ◌&&◌, ◌||◌, String, List, [], ◌∷◌, ◌++◌,
  none, some, nat_eq, text_eq, ◌==◌, if◌then◌else◌, Option-cases,
}
use orv.Base.Map.{Map, lookup, keys}
use orv.Vk.State.{
  AddrPort, Cvk, Callback, Timers, prune_service, prune_leaf, cleanup_cvk, Platform, VaultKeeper,
}
use orv.Vk.Timers.{elapse}
use orv.Vk.Providers.{remove_providers}
use orv.Vk.Providers.Laws.{
  provider, remove_provider-SameElse, provider-remove_provider, remove_providers-SameElse,
  provider-remove_providers,
}
use orv.Vk.Children.{
  load_cvk, load_leaf, set_clock, run_callback, expire_cvk, prune_service_from_leaf,
  prune_serviceless_leaf,
}
use orv.Vk.Children.Views.{offers, Disjoint, offers-remove_provider, offers-remove_providers}
use orv.Vk.Children.Removal.{
  among-keys, expire_cvk_views, prune_service_from_leaf_views, prune_serviceless_leaf_views,
}
use orv.Vk.Children.Leaving.{one_kind, prune_service-Disjoint, prune_leaf-Disjoint}
use orv.Vk.Children.Waiting.{
  waiting, prune_service_from_leaf-waiting, prune_serviceless_leaf-waiting,
}
use orv.Vk.Requests.{heartbeat_tick, check_limit, heartbeat_parent, note_heartbeat}
use orv.Vk.Providers.{message_parent}
use orv.Vk.State.{send}
use orv.Vk.Interleaved.{set_waiting}
use orv.Vk.Interleaved.Listed.{cleans, awaits, Listed}

awaits-append :
    (t : String) (j : ℕ) (fs gs : List Callback)
    → awaits t j (fs ++ gs) ≡ (awaits t j fs || awaits t j gs)
awaits-append t j [] gs = refl
awaits-append t j (f ∷ fs) gs = ground (arith, awaits-append t j fs gs)

pub awaits-split :
    (t : String) (j : ℕ) (before : List Callback) (f : Callback) (after : List Callback)
    → awaits t j (before ++ f ∷ after) ≡ (cleans t j f || awaits t j (before ++ after))
awaits-split t j before f after =
    ground (arith, awaits-append t j before (f ∷ after), awaits-append t j before after)

elapse-awaits :
    (n : ℕ) (c : Timers) (t : String) (j : ℕ)
    → awaits t j c.waiting ≡ true
    → awaits t j (elapse n c).waiting ≡ true
unfolding elapse
elapse-awaits n c t j h = elim (Option-cases (lookup n c.timers)) [
  | inl e ↦ ground arith
  | inr (x, e) ↦ ground (arith, awaits-append t j c.waiting (x.callback ∷ []))
]

module _ {P : Platform} where
  pub heartbeat_tick-waiting :
      (b : Bool) (vk : VaultKeeper P) → waiting (heartbeat_tick b vk) ≡ waiting vk
  unfolding heartbeat_tick check_limit heartbeat_parent note_heartbeat message_parent send
  heartbeat_tick-waiting b vk = ground arith

  -- The same children, and no clean-up less.
  more_waiting :
      (v w : VaultKeeper P)
      → w.children ≡ v.children
      → ((t : String) (j : ℕ) → awaits t j (waiting v) ≡ true → awaits t j (waiting w) ≡ true)
      → Listed v
      → Listed w
  more_waiting v w e more l = record {
    disjoint = λ j. ground (arith, l.disjoint j, e);
    listed = λ t j. unfold provider offers in ground (arith, l.listed t j, e, more t j);
  }

  pub elapse-Listed :
      (n : ℕ) (vk : VaultKeeper P) → Listed vk → Listed (set_clock (elapse n vk.clock) vk)
  elapse-Listed n vk =
      more_waiting vk (set_clock (elapse n vk.clock) vk) refl (elapse-awaits n vk.clock)

  -- A child VK whose time ends is still listed for what it offered, and its clean-up waits.
  expired-Listed :
      (i : ℕ) (c : Cvk) (vk : VaultKeeper P)
      → load_cvk i vk ≡ some c
      → load_leaf i vk ≡ none
      → Listed vk
      → Listed (expire_cvk i vk)
  unfolding expire_cvk
  expired-Listed i c vk e n l = record {
    disjoint = λ j. ground (arith, e, l.disjoint j, P.cvk_table.load-expire i j vk.children.cvks);
    listed = λ t j.
        unfold offers in
        ground (
          arith,
          e,
          n,
          l.listed t j,
          expire_cvk_views i vk t j n,
          awaits-append t j (waiting vk) (cleanup_cvk i c.services ∷ []),
        );
  }

  pub expire_cvk_miss : (i : ℕ) (vk : VaultKeeper P) → load_cvk i vk ≡ none → expire_cvk i vk ≡ vk
  unfolding expire_cvk
  expire_cvk_miss i vk e = ground arith

  pub expire_cvk-Listed : (i : ℕ) (vk : VaultKeeper P) → Listed vk → Listed (expire_cvk i vk)
  expire_cvk-Listed i vk l = elim (Option-cases (load_cvk i vk)) [
    | inl e ↦ rw (expire_cvk_miss i vk e) l
    | inr (c, e) ↦ expired-Listed i c vk e (ground (arith, e, l.disjoint i)) l
  ]

  -- The timer of a service runs late: its leaf may be gone, and a child VK bear its ID.
  prune_service-views :
      (i : ℕ) (s : String) (vk : VaultKeeper P) (t : String) (j : ℕ)
      → Disjoint vk
      → (provider t j (prune_service_from_leaf i s vk)
          ≡ (if s == t && i == j then none else provider t j vk))
        × ((s == t && i == j ≡ true)
            ⊎ (offers t j (prune_service_from_leaf i s vk) ≡ offers t j vk))
  prune_service-views i s vk t j d = elim (one_kind i vk d) [
    | inl n ↦ ground (arith, prune_service_from_leaf_views i s vk t j n)
    | inr n ↦
        unfold prune_service_from_leaf in
        ground (
          arith,
          n,
          remove_provider-SameElse s i vk,
          provider-remove_provider s t i j vk,
          offers-remove_provider s t i j vk,
        )
  ]

  prune_service-Listed :
      (i : ℕ) (s : String) (vk : VaultKeeper P)
      → Listed vk
      → Listed (prune_service_from_leaf i s vk)
  prune_service-Listed i s vk l = record {
    disjoint = prune_service-Disjoint i s vk l.disjoint;
    listed = λ t j. ground (
      arith,
      l.listed t j,
      prune_service-views i s vk t j l.disjoint,
      prune_service_from_leaf-waiting i s vk,
    );
  }

  prune_leaf-Listed :
      (i : ℕ) (vk : VaultKeeper P) → Listed vk → Listed (prune_serviceless_leaf i vk)
  prune_leaf-Listed i vk l = record {
    disjoint = prune_leaf-Disjoint i vk l.disjoint;
    listed = λ t j. ground (
      arith,
      l.listed t j,
      prune_serviceless_leaf_views i vk t j (one_kind i vk l.disjoint),
      prune_serviceless_leaf-waiting i vk,
    );
  }

  set_waiting-views :
      (fs : List Callback) (vk : VaultKeeper P) (t : String) (j : ℕ)
      → (offers t j (set_waiting fs vk) ≡ offers t j vk)
        × (provider t j (set_waiting fs vk) ≡ provider t j vk)
  unfolding offers provider
  set_waiting-views fs vk t j = (refl, refl)

  -- A clean-up takes the child off the lists of what it offered, and is then no longer awaited.
  cleanup-Listed :
      (i : ℕ) (m : Map String AddrPort) (fs : List Callback) (vk : VaultKeeper P)
      → ((t : String) (j : ℕ)
          → awaits t j (waiting vk) ≡ (cleans t j (cleanup_cvk i m) || awaits t j fs))
      → Listed vk
      → Listed (remove_providers (keys m) i (set_waiting fs vk))
  cleanup-Listed i m fs vk split l =
      let v = set_waiting fs vk in
      record {
        disjoint = λ j. ground (arith, l.disjoint j, remove_providers-SameElse (keys m) i v);
        listed = λ t j. ground (
          arith,
          l.listed t j,
          split t j,
          among-keys t m,
          set_waiting-views fs vk t j,
          offers-remove_providers (keys m) t i j v,
          provider-remove_providers (keys m) t i j v,
          remove_providers-SameElse (keys m) i v,
        );
      }

  -- A callback that cleans up after no child VK may leave the list.
  other-Listed :
      (f : Callback) (fs : List Callback) (vk : VaultKeeper P)
      → ((t : String) (j : ℕ) → cleans t j f ≡ false)
      → ((t : String) (j : ℕ) → awaits t j (waiting vk) ≡ (cleans t j f || awaits t j fs))
      → Listed vk
      → Listed (set_waiting fs vk)
  other-Listed f fs vk other split =
      more_waiting vk (set_waiting fs vk) refl (λ t j h. ground (arith, split t j, other t j, h))

  pub callback-Listed :
      (f : Callback) (fs : List Callback) (vk : VaultKeeper P)
      → ((t : String) (j : ℕ) → awaits t j (waiting vk) ≡ (cleans t j f || awaits t j fs))
      → Listed vk
      → Listed (run_callback f (set_waiting fs vk))
  unfolding run_callback
  callback-Listed (prune_service i s) fs vk split l =
      prune_service-Listed i s (set_waiting fs vk)
        (other-Listed (prune_service i s) fs vk (λ t j. refl) split l)
  callback-Listed (prune_leaf i) fs vk split l =
      prune_leaf-Listed i (set_waiting fs vk)
        (other-Listed (prune_leaf i) fs vk (λ t j. refl) split l)
  callback-Listed (cleanup_cvk i m) fs vk split l = cleanup-Listed i m fs vk split l
