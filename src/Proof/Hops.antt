-- ===== src/Proof/Hops.antt =====
-- A branch of the tree of Vaultkeepers of the proof of concept, from one up to the root: a request that one
-- makes of its parent reaches the next, whose answer comes back.
pub mod Along
use orv.Base.{
  ℕ, ◌-◌, ◌≡◌, Bool, true, false, String, List, [], ◌∷◌, Option, none, some, ◌==◌, nat_eq, text_eq,
  if◌then◌else◌,
}
use Prim.Native.String.{◌++◌ as append}
use orv.Vk.State.{AddrPort}
use orv.Proof.Children.Pruning.{get_random_provider, service_names}
use orv.Proof.Keeper.{
  VaultKeeper, is_taken, HumaError, Outcome, blocked, failed, done, Platform, status_ok, url_at,
  ep_get, ep_list,
}
use orv.Proof.Messages.{ListResponseResp, GetReq, GetResponseResp, Http}
use orv.Proof.Requests.{trim_slash}
use orv.Proof.Endpoints.Queries.{handle_list, handle_get}

-- A Vaultkeeper, with what `rand.IntN` gives there.
pub record Station : Type 0 where
  pub keeper : VaultKeeper
  pub int_n : ℕ → ℕ

-- What the requester reads: nothing of a call that never ends, and no body of a refusal.
abbrev pub get_reply : Outcome HumaError GetResponseResp → Option (ℕ × (ℕ × String))
get_reply blocked = none
get_reply (failed e) = some (e.status, (0, ""))
get_reply (done r) = some (status_ok, (r.id, r.addr))

abbrev pub list_reply : Outcome HumaError ListResponseResp → Option (ℕ × (ℕ × List String))
list_reply blocked = none
list_reply (failed e) = some (e.status, (0, []))
list_reply (done r) = some (status_ok, (r.id, r.services))

-- The network in which the stations are, each of which asks those behind it in the list.
unfoldable pub network : Platform → List Station → Http Unit
network P [] = record {
  get_status = λ url s. (none, s);
  post_hello = λ url id s. (none, s);
  post_join = λ url req s. (none, s);
  post_register = λ url req s. (none, s);
  post_vk_heartbeat = λ url id s. (none, s);
  post_list = λ url h s. (none, s);
  post_get = λ url req s. (none, s);
}
network P (st ∷ up) =
    let above = network P up in
    record above {
      post_list = λ url h s.
          if url == url_at P st.keeper.addr ep_list
          then (list_reply (handle_list P above h st.keeper s).0, s)
          else above.post_list url h s;
      post_get = λ url req s.
          if url == url_at P st.keeper.addr ep_get
          then (get_reply (handle_get P above st.int_n req st.keeper s).0, s)
          else above.post_get url req s;
    }

-- The parent of each station is the next, and the last is the root; no lock is kept.
unfoldable pub IsBranch : Station → List Station → Type 0
IsBranch st [] =
    (st.keeper.parent_id ≡ 0)
    × (st.keeper.children_locked ≡ false)
    × (is_taken st.keeper.structure ≡ false)
IsBranch st (next ∷ up) =
    (st.keeper.parent_id == 0 ≡ false)
    × (st.keeper.parent_addr ≡ next.keeper.addr)
    × (st.keeper.children_locked ≡ false)
    × (is_taken st.keeper.structure ≡ false)
    × IsBranch next up

-- What the standard library does: trimmed text has nothing left to trim, and a printed address does not
-- end in a slash.
pub record Printing (P : Platform) : Type 0 where
  pub trimmed : (s : String) → P.trim_space (P.trim_space s) ≡ P.trim_space s
  pub no_slash :
      (a : AddrPort)
      → trim_slash (append "http://" (P.print_addr a)) ≡ append "http://" (P.print_addr a)

-- The first of some stations that knows a provider: its ID and the address, which is empty where none
-- does and the last one answers.
unfoldable pub first_provider : Platform → String → Station → List Station → ℕ × String
first_provider P sn st [] = elim (get_random_provider st.int_n sn st.keeper.children) [
  | some a ↦ (st.keeper.id, P.print_addr a)
  | none ↦ (st.keeper.id, "")
]
first_provider P sn st (next ∷ up) =
    let later = first_provider P sn next up in
    elim (get_random_provider st.int_n sn st.keeper.children) [
      | some a ↦ (st.keeper.id, P.print_addr a)
      | none ↦ later
    ]

unfoldable pub last_station : Station → List Station → Station
last_station st [] = st
last_station st (next ∷ up) = last_station next up
