-- ===== src/Client/Parent.antt =====
-- implementations/slims/slims/vk/requests.go: `Join`, by which a Vaultkeeper becomes the child of another
-- and registers there what its own children offer. While a request is on its way the network may
-- change the Vaultkeeper, as its other goroutines do.
pub mod Quiet
use orv.Base.{
  ℕ, Bool, true, false, not, String, List, [], ◌∷◌, ◌++◌, Option, none, some, ◌==◌, if◌then◌else◌,
  Result, ok, err, map,
}
use orv.Base.Int.{pos}
use orv.Base.Map.{Map, values}
use orv.Protocol.Transport.{Context}
use orv.Vk.State.{AddrPort, addr_eq, Platform, VaultKeeper}
use orv.Client.{ClientWire, Network, ClientError, Answer, is_no_context}
use orv.Client.Requests.{HelloAnswer, JoinInfo, hello, join, register}

pub data JoinError : Type 0 where
  no_join_context parent_changed : JoinError
  hello_failed join_failed register_failed : ClientError → JoinError

-- Each service with the address of each of its providers, in the order of the two loops.
unfoldable pub all_providers : Map String (Map ℕ AddrPort) → List (String × AddrPort)
all_providers [] = []
all_providers ((service, providers) ∷ rest) =
    map (λ a. (service, a)) (values providers) ++ all_providers rest

module _ {P : Platform} where
  -- The update of the parent.
  abbrev pub under : ℕ → AddrPort → VaultKeeper P → VaultKeeper P
  under id addr vk = record vk {
    structure = record (vk.structure) { parent_id = id; parent_addr = addr };
  }

  abbrev pub join_info : VaultKeeper P → JoinInfo
  join_info vk = record { is_vk = true; vk_addr = vk.addr; height = vk.structure.height }

  module _ {N : Type 0} (wire : ClientWire) (net : Network (VaultKeeper P × N)) where
    unfoldable pub register_providers :
        Context
        → AddrPort
        → List (String × AddrPort)
        → VaultKeeper P × N
        → Option JoinError × (VaultKeeper P × N)
    register_providers ctx target [] s = (none, s)
    register_providers ctx target ((service, addr) ∷ rest) s =
        let ((id, r), s') = register wire net ctx s.0.id target service addr (pos 0) s in
        let more = register_providers ctx target rest s' in
        if not (s.0.structure.parent_addr == target)
        then (some parent_changed, s)
        else elim r [ err e ↦ (some (register_failed e), s') | ok accept ↦ more ]

    -- `Join`, from the answer of JOIN on.
    unfoldable pub joined_parent :
        Context → AddrPort → Answer ℕ × (VaultKeeper P × N) → Option JoinError × (VaultKeeper P × N)
    joined_parent ctx target ((id, err e), s) = (some (join_failed e), s)
    joined_parent ctx target ((id, ok height), (vk, n)) =
        register_providers ctx target (all_providers vk.children.all_services)
          (under id target vk, n)

    -- `Join`, from the answer of HELLO on.
    unfoldable pub greeted_parent :
        Context
        → AddrPort
        → HelloAnswer × (VaultKeeper P × N)
        → Option JoinError × (VaultKeeper P × N)
    greeted_parent ctx target ((id, version, err e), s) = (some (hello_failed e), s)
    greeted_parent ctx target ((id, version, ok height), s) =
        joined_parent ctx target (join wire net ctx s.0.id target (join_info s.0) s)

    unfoldable pub join_parent :
        Context → AddrPort → VaultKeeper P × N → Option JoinError × (VaultKeeper P × N)
    join_parent ctx target s =
        if is_no_context ctx
        then (some no_join_context, s)
        else greeted_parent ctx target (hello wire net ctx s.0.id target s)
