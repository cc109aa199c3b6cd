-- ===== src/Vk/Providers.antt =====
-- `allServices` of a Vaultkeeper, the other view of its children: the providers of each service. The
-- end of `addService` and `removeProvider` of implementations/slims/slims/vk/children.go, and
-- `messageParent` of implementations/slims/slims/vk/requests.go.
pub mod Laws
use orv.Base.{
  ℕ, ◌++◌, Bool, true, false, String, List, [], ◌∷◌, Option, none, some, is_some, nat_eq, text_eq,
  if◌then◌else◌,
}
use orv.Base.Map.{Map, lookup, insert, remove, is_empty}
use orv.Version.{Version}
use orv.Protocol.{Header}
use orv.Protocol.MessageType
use orv.Vk.State.{
  AddrPort, Errno, unknown_child_id, bad_service_name, Platform, Children, VaultKeeper, Payload,
  deregister, send,
}

-- The version that the library speaks: `protocol.SupportedVersions().HighestSupported()`.
abbrev pub library_version : Version
library_version = record { major = 1; minor = 0 }

module _ {P : Platform} where
  abbrev pub set_services : Map String (Map ℕ AddrPort) → VaultKeeper P → VaultKeeper P
  set_services m vk = record vk { children = record (vk.children) { all_services = m } }

  -- The end of `addService`: the child becomes a provider of the service.
  unfoldable pub add_provider : ℕ → String → AddrPort → VaultKeeper P → VaultKeeper P
  add_provider id service addr vk = elim (lookup service vk.children.all_services) [
    | none ↦ set_services (insert service ((id, addr) ∷ []) vk.children.all_services) vk
    | some providers ↦
        set_services (insert service (insert id addr providers) vk.children.all_services) vk
  ]

  -- `messageParent`, whose answer its callers only log. `net.UDPAddrFromAddrPort` is never nil, so
  -- the packet is sent to whatever address the parent has: at a root, the zero one.
  unfoldable pub message_parent : ℕ → Payload → VaultKeeper P → VaultKeeper P
  unfolding send
  message_parent type payload vk = send vk (record {
    to = vk.structure.parent_addr;
    header = record { version = library_version; shorthand = false; type = type; id = vk.id };
    payload = payload;
  })

  -- What `removeProvider` does once it has found the provider among those of the service.
  unfoldable pub drop_provider : String → ℕ → Map ℕ AddrPort → VaultKeeper P → VaultKeeper P
  unfolding message_parent
  drop_provider service id providers vk =
      let rest = remove id providers in
      if is_empty rest
      then message_parent MessageType.deregister (deregister service)
          (set_services (remove service vk.children.all_services) vk)
      else set_services (insert service rest vk.children.all_services) vk

  -- `removeProvider`.
  unfoldable pub remove_provider : String → ℕ → VaultKeeper P → Option Errno × VaultKeeper P
  unfolding drop_provider
  remove_provider service id vk = elim (lookup service vk.children.all_services) [
    | none ↦ (some bad_service_name, vk)
    | some providers ↦
        if is_some (lookup id providers)
        then (none, drop_provider service id providers vk)
        else (some unknown_child_id, vk)
  ]

  -- `for svc := range services { vk.removeProvider(svc, id) }`.
  unfoldable pub remove_providers : List String → ℕ → VaultKeeper P → VaultKeeper P
  remove_providers [] id vk = vk
  remove_providers (service ∷ rest) id vk =
      remove_providers rest id (remove_provider service id vk).1
