-- ===== src/Vk/Registry/Dispatch.antt =====
-- `dispatch` follows the registry of Vk/Registry.
use orv.Base.{ℕ, ◌≡◌, inl, inr, refl, List, Option, none, some, nat_eq, ◌==◌, Bool-cases}
use orv.Protocol.{Header}
use orv.Protocol.MessageType
use orv.Vk.State.{AddrPort, fault, unknown_type, Wire, Platform, VaultKeeper}
use orv.Vk.Children.Views.{Disjoint}
use orv.Vk.Handlers.Outcome.{MessageHandler}
use orv.Vk.Handlers.Joining.{serve_hello}
use orv.Vk.Handlers.Tree.{serve_merge, serve_increment}
use orv.Vk.Handlers.Services.{serve_service_heartbeat}
use orv.Vk.Handlers.Clients.{Link, serve_list, serve_get}
use orv.Vk.Handlers.Status.{serve_status}
use orv.Vk.Handlers.Footprints.{
  respond_success-children, serve_hello-children, serve_merge-children, serve_increment-children,
}
use orv.Vk.Handlers.ServiceFootprints.{
  serve_service_heartbeat-children, serve_list-children, serve_get-children, serve_status-children,
}
use orv.Vk.Dispatch.{respond_error, handler, finish, serve_with, dispatch}
use orv.Vk.Dispatch.Coherence.{finish-children}
use orv.Vk.Dispatch.Entries.{Entries, Given, OnEntry, handler-Given}
use orv.Vk.Registry.{Obeys}
use orv.Vk.Registry.Handlers.{
  Follows, keeps_children, Obeys-children, serve_leave-Follows, serve_join-Follows,
  serve_vk_heartbeat-Follows, serve_register-Follows, serve_deregister-Follows,
}

module _ {P : Platform} where
  -- A handler that leaves the children as they are follows the registry.
  children-Follows :
      (w : Wire) (t : ℕ) (serve : MessageHandler P)
      → ((h : Header) (b : List ℕ) (a : AddrPort) (vk : VaultKeeper P)
          → (serve h b a vk).0.children ≡ vk.children)
      → Follows w t serve
  children-Follows w t serve same h b a vk e c =
      keeps_children w h b vk (serve h b a vk).0 (same h b a vk)

  entries-Follows : (w : Wire) (k : Link) → Entries {P = P} w k (Follows w)
  entries-Follows w k = record {
    on_hello = children-Follows w MessageType.hello serve_hello serve_hello-children;
    on_join = serve_join-Follows w;
    on_merge = children-Follows w MessageType.merge (serve_merge w) (serve_merge-children w);
    on_increment =
        children-Follows w MessageType.increment (serve_increment w) (serve_increment-children w);
    on_leave = serve_leave-Follows w;
    on_register = serve_register-Follows w;
    on_deregister = serve_deregister-Follows w;
    on_service_heartbeat =
        children-Follows w MessageType.service_heartbeat (serve_service_heartbeat w)
          (serve_service_heartbeat-children w);
    on_vk_heartbeat = serve_vk_heartbeat-Follows w;
    on_status = children-Follows w MessageType.status (serve_status w) (serve_status-children w);
    on_list = children-Follows w MessageType.list (serve_list w k) (serve_list-children w k);
    on_get = children-Follows w MessageType.get (serve_get w) (serve_get-children w);
  }

  serve_with-Obeys :
      (w : Wire) (o : Option (MessageHandler P)) (h : Header) (b : List ℕ) (a : AddrPort)
      (vk : VaultKeeper P)
      → Given (Follows w) h.type o
      → Disjoint vk
      → Obeys w h b vk (serve_with o h b a vk)
  unfolding serve_with respond_error OnEntry
  serve_with-Obeys w none h b a vk k c =
      keeps_children w h b vk (respond_error a h.type unknown_type vk) (
        respond_success-children vk a vk.version_set.highest MessageType.fault
          (fault h.type unknown_type))
  serve_with-Obeys w (some serve) h b a vk k c =
      Obeys-children w h b vk (serve h b a vk).0 (finish a h.type (serve h b a vk))
        (finish-children a h.type (serve h b a vk)) (k.given h b a vk refl c)

  -- A packet is a command of its sender, or none.
  pub dispatch-Obeys :
      (w : Wire) (k : Link) (h : Header) (b : List ℕ) (a : AddrPort) (vk : VaultKeeper P)
      → Disjoint vk
      → Obeys w h b vk (dispatch w k h b a vk)
  unfolding dispatch
  dispatch-Obeys w k h b a vk c = elim (Bool-cases (h.id == vk.id)) [
    | inl e ↦ rw e (keeps_children w h b vk vk refl)
    | inr e ↦ rw e (
        serve_with-Obeys w (handler w k h.type) h b a vk
          (handler-Given w k (Follows w) (entries-Follows w k) h.type) c)
  ]
