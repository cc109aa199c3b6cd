-- ===== src/Proof/Echo.antt =====
-- A branch of Vaultkeepers of the proof of concept, the lowest first, whose states change: a REGISTER that one
-- accepts is passed on by its goroutine to the next, which does the same before it answers.
pub mod Along
use orv.Base.{
  ℕ, zero, suc, ◌≡◌, Bool, true, false, String, List, [], ◌∷◌, Option, none, some, ◌==◌, nat_eq,
  text_eq, if◌then◌else◌,
}
use orv.Vk.State.{AddrPort}
use orv.Proof.Children.Views.{accepts, listed_at}
use orv.Proof.Keeper.{
  VaultKeeper, is_taken, HumaError, Outcome, blocked, failed, done, Platform, status_accepted,
  url_at, ep_register,
}
use orv.Proof.Messages.{RegisterReq, Http}
use orv.Proof.Endpoints.{is_bad_id}
use orv.Proof.Endpoints.Services.{
  handle_register, Propagation, propagate_register, conclude_propagation,
}

abbrev pub settle : Outcome HumaError (Option Propagation) → VaultKeeper → VaultKeeper
settle blocked vk = vk
settle (failed e) vk = vk
settle (done none) vk = vk
settle (done (some p)) vk = conclude_propagation p vk

-- A REGISTER reaches a Vaultkeeper, whose goroutine runs to its end.
unfoldable pub receive_register :
    Platform
    → Http (List VaultKeeper)
    → RegisterReq
    → VaultKeeper
    → List VaultKeeper
    → Option ℕ × List VaultKeeper
receive_register P http req vk up =
    let (answer, vk1) = handle_register P req vk in
    elim answer [
      | blocked ↦ (none, vk1 ∷ up)
      | failed e ↦ (some e.status, vk1 ∷ up)
      | done r ↦
          let (outcome, up') =
            propagate_register P http (P.trim_space req.service) (P.trim_space req.address) vk1
              up in
          (some status_accepted, settle outcome vk1 ∷ up')
    ]

-- The network of a Vaultkeeper that has `n` others above it: the address of the next reaches it.
unfoldable pub network_above : Platform → ℕ → Http (List VaultKeeper)
network_above P zero = record {
  get_status = λ url s. (none, s);
  post_hello = λ url id s. (none, s);
  post_join = λ url req s. (none, s);
  post_register = λ url req s. (none, s);
  post_vk_heartbeat = λ url id s. (none, s);
  post_list = λ url h s. (none, s);
  post_get = λ url req s. (none, s);
}
network_above P (suc n) =
    let beyond = network_above P n in
    record beyond {
      post_register = λ url req s. elim s [
        | [] ↦ (none, [])
        | vk ∷ up ↦
            if url == url_at P vk.addr ep_register
            then receive_register P beyond req vk up
            else (none, vk ∷ up)
      ];
    }

-- Each Vaultkeeper has no kept lock, would accept a REGISTER of the one before it, and has the next one as
-- its parent; the last is the root. The first REGISTER has the ID `i` and this stale time, the others none.
unfoldable pub Accepting : Platform → String → ℕ → String → List VaultKeeper → Type 0
Accepting P sn i stale [] = Unit
Accepting P sn i stale (vk ∷ up) =
    (is_bad_id i vk ≡ false)
    × (vk.children_locked ≡ false)
    × (is_taken vk.structure ≡ false)
    × (accepts i sn (P.parse_duration (P.trim_space stale)) vk.children ≡ true)
    × (elim up [
      | [] ↦ vk.parent_id ≡ 0
      | next ∷ rest ↦ (vk.parent_id == 0 ≡ false) × (vk.parent_addr ≡ next.addr)
    ])
    × Accepting P sn vk.id "" up

-- Each Vaultkeeper lists the one before it, and the first the node `i`, for the service at the address.
unfoldable pub AllListed : String → ℕ → AddrPort → List VaultKeeper → Type 0
AllListed sn i a [] = Unit
AllListed sn i a (vk ∷ up) = (listed_at sn i vk.children ≡ some a) × AllListed sn vk.id a up
