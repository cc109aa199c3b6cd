-- ===== src/Vk/Registry/Runs.antt =====
-- The steps of a Vaultkeeper, in whatever order they come, and the commands to the registry of Vk/Registry.
use orv.Base.{
  ℕ, ◌≡◌, ◌⊎◌, inl, inr, refl, arith, true, String, List, none, some, is_some, Result, ok, err, ◌∙◌,
  nat_eq, text_eq, Option-cases, ◌++◌, if◌then◌else◌,
}
use orv.Base.Map.{keys}
use orv.Version.{VersionSet}
use orv.Protocol.{Header, DeserializeError}
use orv.Vk.State.{
  AddrPort, PruneTimes, Heartbeat, Callback, prune_leaf, prune_service, cleanup_cvk, Wire, Platform,
  VaultKeeper,
}
use orv.Vk.Timers.{elapse}
use orv.Vk.Providers.Laws.{provider, remove_provider-SameElse}
use orv.Vk.Children.{load_cvk, set_clock, run_callback, expire_cvk, prune_service_from_leaf}
use orv.Vk.Children.Views.{Disjoint, offers-remove_provider, offers-remove_providers}
use orv.Vk.Children.Removal.{
  expire_cvk_views, prune_service_from_leaf_views, prune_serviceless_leaf_views,
}
use orv.Vk.Children.Leaving.{one_kind}
use orv.Vk.Children.Waiting.{waiting}
use orv.Vk.Handlers.Clients.{Link}
use orv.Vk.Handlers.Discovery.{offers-children}
use orv.Vk.Dispatch.{receive_packet, dispatch_datagram, dispatch_received}
use orv.Vk.Dispatch.Runs.{heartbeat_tick-children}
use orv.Vk.Requests.{new_vault_keeper, heartbeat_tick}
use orv.Vk.Interleaved.{
  Step, packet, tick, timer_ends, cvk_expires, callback_runs, Reaches, set_waiting,
}
use orv.Vk.Interleaved.Listed.{awaits}
use orv.Vk.Interleaved.Timed.{expire_cvk_miss}
use orv.Vk.Interleaved.Runs.{Step-Listed, reachable-Listed}
use orv.Vk.Registry.{Registry, Command, keep_all, offer_at, withdraw, forget, obey, registry, Asks}
use orv.Vk.Registry.Dispatch.{dispatch-Obeys}

-- The commands that a callback may be: the timer of a service withdraws that service, if it is still a
-- leaf's.
abbrev pub CallbackPermits : Callback → Command → Type 0
CallbackPermits (prune_service i s) c = (c ≡ keep_all) ⊎ (c ≡ withdraw i s)
CallbackPermits (prune_leaf i) c = c ≡ keep_all
CallbackPermits (cleanup_cvk i services) c = c ≡ keep_all

-- Registries that say the same still do once they obey a command.
obey_same :
    (c : Command) (q r : Registry)
    → ((t : String) (j : ℕ) → q t j ≡ r t j)
    → (t : String) (j : ℕ) → obey c q t j ≡ obey c r t j
unfolding obey
obey_same keep_all q r e t j = e t j
obey_same (offer_at i s a) q r e t j = ground (arith, e t j)
obey_same (withdraw i s) q r e t j = ground (arith, e t j)
obey_same (forget i) q r e t j = ground (arith, e t j)

module _ {P : Platform} where
  -- The commands that a step may be: of a datagram, those that the packet in it may give; the end of a
  -- child VK's time forgets that child.
  abbrev pub Permits : (v w : VaultKeeper P) → Step v w → Command → Type 0
  Permits v w (packet x k d a vk) c =
      (c ≡ keep_all)
      ⊎ ((h : Header) × (b : List ℕ) × (receive_packet d ≡ ok (h, b)) × Asks x h b vk c)
  Permits v w (tick b vk) c = c ≡ keep_all
  Permits v w (timer_ends n vk) c = c ≡ keep_all
  Permits v w (cvk_expires i vk) c = c ≡ (if is_some (load_cvk i vk) then forget i else keep_all)
  Permits v w (callback_runs before f after vk e) c = CallbackPermits f c

  -- A state that follows another by one of some commands.
  pub record Follow (Allowed : Command → Type 0) (v w : VaultKeeper P) : Type 0 where
    pub command : Command
    pub permitted : Allowed command
    pub obeyed : (t : String) (j : ℕ) → registry w t j ≡ obey command (registry v) t j

  packet-Follow :
      (x : Wire) (k : Link) (d : List ℕ) (a : AddrPort) (vk : VaultKeeper P)
      (r : Result DeserializeError (Header × List ℕ))
      → receive_packet d ≡ r
      → Disjoint vk
      → Follow
          (Permits vk (dispatch_datagram x k d a vk) (packet x k d a vk))
          vk
          (dispatch_datagram x k d a vk)
  unfolding dispatch_datagram dispatch_received
  packet-Follow x k d a vk (err e) f c = record {
    command = keep_all;
    permitted = inl refl;
    obeyed = λ t j. unfold obey in ground (arith, f);
  }
  packet-Follow x k d a vk (ok (h, b)) f c =
      let o = dispatch-Obeys x k h b a vk c in
      record {
        command = o.command;
        permitted = inr (h, b, f, o.asked);
        obeyed = λ t j. rw f (o.obeyed t j);
      }

  expire_cvk-Follow :
      (i : ℕ) (vk : VaultKeeper P)
      → Disjoint vk
      → Follow (Permits vk (expire_cvk i vk) (cvk_expires i vk)) vk (expire_cvk i vk)
  expire_cvk-Follow i vk d = elim (Option-cases (load_cvk i vk)) [
    | inl e ↦ record {
      command = keep_all;
      permitted = ground arith;
      obeyed = λ t j. unfold obey in ground (arith, expire_cvk_miss i vk e);
    }
    | inr (c, e) ↦ record {
      command = forget i;
      permitted = ground arith;
      obeyed = λ t j. unfold obey in (expire_cvk_views i vk t j (ground (arith, e, d i))).0;
    }
  ]

  prune_service-Follow :
      (i : ℕ) (s : String) (vk : VaultKeeper P)
      → Disjoint vk
      → Follow (CallbackPermits (prune_service i s)) vk (prune_service_from_leaf i s vk)
  prune_service-Follow i s vk d = elim (one_kind i vk d) [
    | inl n ↦ record {
      command = withdraw i s;
      permitted = inr refl;
      obeyed = λ t j. unfold obey in (prune_service_from_leaf_views i s vk t j n).0;
    }
    | inr n ↦ record {
      command = keep_all;
      permitted = inl refl;
      obeyed = λ t j.
          unfold obey prune_service_from_leaf in
          ground (arith, n, remove_provider-SameElse s i vk, offers-remove_provider s t i j vk);
    }
  ]

  callback-Follow :
      (f : Callback) (vk : VaultKeeper P)
      → Disjoint vk
      → Follow (CallbackPermits f) vk (run_callback f vk)
  unfolding run_callback
  callback-Follow (prune_service i s) vk d = prune_service-Follow i s vk d
  callback-Follow (prune_leaf i) vk d = record {
    command = keep_all;
    permitted = refl;
    obeyed = λ t j. unfold obey in (prune_serviceless_leaf_views i vk t j (one_kind i vk d)).0;
  }
  callback-Follow (cleanup_cvk i m) vk d = record {
    command = keep_all;
    permitted = refl;
    obeyed = λ t j. unfold obey in offers-remove_providers (keys m) t i j vk;
  }

  -- A state whose children are those of the first.
  Follow-children :
      (Allowed : Command → Type 0) (u v w : VaultKeeper P)
      → v.children ≡ u.children
      → Follow Allowed v w
      → Follow Allowed u w
  Follow-children Allowed u v w e o = record {
    command = o.command;
    permitted = o.permitted;
    obeyed = λ t j.
        o.obeyed t j
        ∙ obey_same o.command (registry v) (registry u) (λ s i. offers-children u v s i e) t j;
  }

  Step-Follow : (v w : VaultKeeper P) (s : Step v w) → Disjoint v → Follow (Permits v w s) v w
  Step-Follow v w (packet x k d a vk) l = packet-Follow x k d a vk (receive_packet d) refl l
  Step-Follow v w (tick b vk) l = record {
    command = keep_all;
    permitted = refl;
    obeyed = λ t j.
        unfold obey in offers-children vk (heartbeat_tick b vk) t j (heartbeat_tick-children b vk);
  }
  Step-Follow v w (timer_ends n vk) l = record {
    command = keep_all;
    permitted = refl;
    obeyed = λ t j. unfold obey in offers-children vk (set_clock (elapse n vk.clock) vk) t j refl;
  }
  Step-Follow v w (cvk_expires i vk) l = expire_cvk-Follow i vk l
  Step-Follow v w (callback_runs before f after vk e) l =
      let u = set_waiting (before ++ after) vk in
      Follow-children (CallbackPermits f) vk u (run_callback f u) refl (callback-Follow f u l)

  -- From a new Vaultkeeper on, after whatever packets, ticks, ends of timers and of the times of child
  -- VKs, and callbacks that ran late, each further such step is one command to the registry of what the
  -- children offer. A packet may only add an offer of a child whose REGISTER it is, with the service and
  -- the address of its body, withdraw the service that its sender's DEREGISTER names, or forget the
  -- sender of a LEAVE; the end of its time forgets a child VK, if it is one still; the callback of a service's timer
  -- withdraws that service or does nothing; and nothing else changes the registry. The list of
  -- providers that the Vaultkeeper answers from has only entries of that registry, and those of child
  -- VKs whose time has ended and whose clean-up waits.
  pub reachable_refines :
      (id : ℕ) (addr : AddrPort) (vs : VersionSet) (pt : PruneTimes) (hb : Heartbeat)
      (u v w : VaultKeeper P)
      → new_vault_keeper id addr vs pt hb ≡ some u
      → Reaches u v
      → (s : Step v w)
      → Follow (Permits v w s) v w
        × ((t : String) (j : ℕ)
            → (provider t j w ≡ none)
              ⊎ (provider t j w ≡ registry w t j)
              ⊎ (awaits t j (waiting w) ≡ true))
  reachable_refines id addr vs pt hb u v w e r s =
      let l = reachable-Listed id addr vs pt hb u v e r in
      (Step-Follow v w s l.disjoint, (Step-Listed v w s l).listed)
