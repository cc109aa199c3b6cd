-- ===== src/Vk/Dispatch/Coherence.antt =====
-- Invariants of the children under `dispatch`.
use orv.Base.{
  ℕ, ◌≡◌, inl, inr, refl, List, Option, none, some, Result, ok, err, nat_eq, ◌==◌, Bool-cases,
}
use orv.Protocol.{Header, DeserializeError}
use orv.Protocol.MessageType
use orv.Vk.State.{AddrPort, fault, unknown_type, Wire, Platform, VaultKeeper}
use orv.Vk.Children.Waiting.{waiting}
use orv.Vk.Handlers.Outcome.{MessageHandler, Outcome}
use orv.Vk.Handlers.Joining.{serve_hello}
use orv.Vk.Handlers.Tree.{serve_merge, serve_increment}
use orv.Vk.Handlers.Services.{serve_service_heartbeat}
use orv.Vk.Handlers.Clients.{Link, serve_list, serve_get}
use orv.Vk.Handlers.Status.{serve_status}
use orv.Vk.Handlers.Footprints.{
  respond_success-children, serve_hello-children, serve_merge-children, serve_increment-children,
}
use orv.Vk.Handlers.ServiceFootprints.{
  serve_service_heartbeat-children, serve_list-children, serve_get-children, serve_status-children,
}
use orv.Vk.Handlers.Waiting.{
  respond_success-waiting, serve_hello-waiting, serve_merge-waiting, serve_increment-waiting,
  serve_service_heartbeat-waiting, serve_list-waiting, serve_get-waiting, serve_status-waiting,
}
use orv.Vk.Handlers.Invariants.{ChildrenInvariant}
use orv.Vk.Handlers.Preservation.{
  Keeps, children-Keeps, serve_leave-Keeps, serve_join-Keeps, serve_vk_heartbeat-Keeps,
  serve_register-Keeps, serve_deregister-Keeps,
}
use orv.Vk.Dispatch.{
  receive_packet, respond_error, handler, finish, serve_with, dispatch, dispatch_received,
  dispatch_datagram,
}
use orv.Vk.Dispatch.Entries.{Entries, Given, OnEntry, handler-Given}

module _ {P : Platform} where
  pub finish-children :
      (a : AddrPort) (t : ℕ) (o : Outcome P) → (finish a t o).children ≡ o.0.children
  unfolding finish respond_error
  finish-children a t (vk, none) = refl
  finish-children a t (vk, some e) =
      respond_success-children vk a vk.version_set.highest MessageType.fault (fault t e)

  finish-waiting : (a : AddrPort) (t : ℕ) (o : Outcome P) → waiting (finish a t o) ≡ waiting o.0
  unfolding finish respond_error
  finish-waiting a t (vk, none) = refl
  finish-waiting a t (vk, some e) =
      respond_success-waiting vk a vk.version_set.highest MessageType.fault (fault t e)

  module _ {Holds : VaultKeeper P → Type 0} (inv : ChildrenInvariant Holds) where
    entries-Keeps : (w : Wire) (k : Link) → Entries w k (λ t. Keeps inv)
    entries-Keeps w k = record {
      on_hello = children-Keeps inv serve_hello serve_hello-children serve_hello-waiting;
      on_join = serve_join-Keeps inv w;
      on_merge =
          children-Keeps inv (serve_merge w) (serve_merge-children w) (serve_merge-waiting w);
      on_increment =
          children-Keeps inv (serve_increment w) (serve_increment-children w)
            (serve_increment-waiting w);
      on_leave = serve_leave-Keeps inv;
      on_register = serve_register-Keeps inv w;
      on_deregister = serve_deregister-Keeps inv w;
      on_service_heartbeat =
          children-Keeps inv (serve_service_heartbeat w) (serve_service_heartbeat-children w)
            (serve_service_heartbeat-waiting w);
      on_vk_heartbeat = serve_vk_heartbeat-Keeps inv;
      on_status =
          children-Keeps inv (serve_status w) (serve_status-children w) (serve_status-waiting w);
      on_list =
          children-Keeps inv (serve_list w k) (serve_list-children w k) (serve_list-waiting w k);
      on_get = children-Keeps inv (serve_get w) (serve_get-children w) (serve_get-waiting w);
    }

    serve_with-Holds :
        (o : Option (MessageHandler P)) (h : Header) (b : List ℕ) (a : AddrPort)
        (vk : VaultKeeper P)
        → Given (λ t. Keeps inv) h.type o
        → Holds vk
        → Holds (serve_with o h b a vk)
    unfolding serve_with respond_error OnEntry
    serve_with-Holds none h b a vk k c =
        inv.transfer vk (respond_error a h.type unknown_type vk)
          (respond_success-children vk a vk.version_set.highest MessageType.fault
            (fault h.type unknown_type))
          (respond_success-waiting vk a vk.version_set.highest MessageType.fault
            (fault h.type unknown_type))
          c
    serve_with-Holds (some serve) h b a vk k c =
        inv.transfer (serve h b a vk).0 (finish a h.type (serve h b a vk))
          (finish-children a h.type (serve h b a vk)) (finish-waiting a h.type (serve h b a vk))
          (k.given h b a vk c)

    dispatch-Holds :
        (w : Wire) (k : Link) (h : Header) (b : List ℕ) (a : AddrPort) (vk : VaultKeeper P)
        → Holds vk
        → Holds (dispatch w k h b a vk)
    unfolding dispatch
    dispatch-Holds w k h b a vk c = elim (Bool-cases (h.id == vk.id)) [
      | inl e ↦ rw e c
      | inr e ↦ rw e (
          serve_with-Holds (handler w k h.type) h b a vk
            (handler-Given w k (λ t. Keeps inv) (entries-Keeps w k) h.type) c)
    ]

    dispatch_received-Holds :
        (w : Wire) (k : Link) (r : Result DeserializeError (Header × List ℕ)) (a : AddrPort)
        (vk : VaultKeeper P)
        → Holds vk
        → Holds (dispatch_received w k r a vk)
    unfolding dispatch_received
    dispatch_received-Holds w k (err e) a vk c = c
    dispatch_received-Holds w k (ok (h, b)) a vk c = dispatch-Holds w k h b a vk c

    -- Whatever datagram arrives, from whatever address, and whether or not a request reaches the
    -- parent.
    pub dispatch_datagram-Holds :
        (w : Wire) (k : Link) (d : List ℕ) (a : AddrPort) (vk : VaultKeeper P)
        → Holds vk
        → Holds (dispatch_datagram w k d a vk)
    unfolding dispatch_datagram
    dispatch_datagram-Holds w k d a vk c = dispatch_received-Holds w k (receive_packet d) a vk c
