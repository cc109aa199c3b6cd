-- ===== src/Vk/Registry.antt =====
-- What a Vaultkeeper promises: a registry of who offers which service at which address. The packets of
-- its children, and the timers of its leaves, are commands to it.
pub mod Handlers
pub mod Dispatch
pub mod Runs
use orv.Base.{
  ℕ, ◌≡◌, true, ◌&&◌, String, List, Option, none, some, nat_eq, text_eq, ◌==◌, if◌then◌else◌,
}
use orv.Protocol.{Header}
use orv.Protocol.MessageType
use orv.Vk.State.{AddrPort, RegisterBody, Wire, Platform, VaultKeeper}
use orv.Vk.Children.Views.{offers, is_child}

abbrev pub Registry : Type 0
Registry = String → ℕ → Option AddrPort

abbrev pub empty_registry : Registry
empty_registry t j = none

-- A child offers a service at an address, or no longer offers it, or offers nothing any more.
pub data Command : Type 0 where
  keep_all : Command
  offer_at : ℕ → String → AddrPort → Command
  withdraw : ℕ → String → Command
  forget : ℕ → Command

unfoldable pub obey : Command → Registry → Registry
obey keep_all r t j = r t j
obey (offer_at i s a) r t j = if s == t && i == j then some a else r t j
obey (withdraw i s) r t j = if s == t && i == j then none else r t j
obey (forget i) r t j = if i == j then none else r t j

module _ {P : Platform} where
  -- The registry of a Vaultkeeper: what its children offer, by the record of each.
  abbrev pub registry : VaultKeeper P → Registry
  registry vk t j = offers t j vk

  -- The commands that a packet may give. Only a REGISTER of a child adds an offer, with the service and
  -- the address of its body; only a DEREGISTER withdraws one; only a LEAVE forgets a child; and each is
  -- about the child whose ID is in the header.
  pub data Asks (w : Wire) (h : Header) (b : List ℕ) (vk : VaultKeeper P) : Command → Type 0 where
    nothing : Asks w h b vk keep_all
    registers :
        (r : RegisterBody) (a : AddrPort)
        → h.type ≡ MessageType.register
        → w.unmarshal_register b ≡ some r
        → w.parse_addr_port r.address ≡ some a
        → is_child h.id vk ≡ true
        → Asks w h b vk (offer_at h.id r.service a)
    deregisters :
        (s : String)
        → h.type ≡ MessageType.deregister
        → w.unmarshal_deregister b ≡ some s
        → Asks w h b vk (withdraw h.id s)
    leaves : h.type ≡ MessageType.leave → Asks w h b vk (forget h.id)

  -- A state that follows another by one command that the packet may give.
  pub record Obeys (w : Wire) (h : Header) (b : List ℕ) (vk out : VaultKeeper P) : Type 0 where
    pub command : Command
    pub asked : Asks w h b vk command
    pub obeyed : (t : String) (j : ℕ) → registry out t j ≡ obey command (registry vk) t j
