-- ===== src/Proof/Keeper/Lifecycle.antt =====
-- implementations/proof/proof/vaultkeeper.go: how a Vaultkeeper of the proof of concept comes to be, its
-- two background tasks, a round of each at a time, and its end.
use orv.Base.{
  ℕ, ◌-◌, Bool, true, false, not, String, List, [], ◌∷◌, none, some, ◌==◌, nat_eq, leb,
  if◌then◌else◌, Result, ok, err,
}
use orv.Base.Map.{Map}
use orv.Base.Int.{ℤ, pos, negsuc}
use orv.Vk.State.{AddrPort, no_addr, is_valid}
use orv.Proof.Children.{new_children}
use orv.Proof.Keeper.{
  Outcome, blocked, done, PruneTimes, VaultKeeper, free, taken, is_free, is_taken, is_root,
  Platform, status_ok, url_at, ep_hello, ep_vk_heartbeat, default_prune_time_pending_hello,
  default_prune_time_serviceless_child, default_prune_time_cvk, default_parent_heartbeat_freq,
}
use orv.Proof.Children.Pruning.{ChildrenSnapshot, children_snapshot}
use orv.Proof.Messages.{Http}

-- `ErrDead`, `ErrBadAddr`, and what `netip.ParseAddrPort` and a request return.
pub data CallError : Type 0 where
  dead bad_addr unparsed : CallError
  no_answer : CallError
  bad_status : ℕ → CallError

-- `VKOption`: an option that is given later prevails.
abbrev pub VkOption : Type 0
VkOption = VaultKeeper → VaultKeeper

abbrev pub set_prune_times : PruneTimes → VkOption
set_prune_times pt vk = record vk { prune_times = pt }

abbrev pub set_height : ℕ → VkOption
set_height h vk = record vk { height = h }

unfoldable pub apply_options : List VkOption → VaultKeeper → VaultKeeper
apply_options [] vk = vk
apply_options (opt ∷ opts) vk = apply_options opts (opt vk)

-- The defaults; there are no children yet.
abbrev pub default_vk : ℕ → AddrPort → VaultKeeper
default_vk id addr = record {
  alive = true;
  id = id;
  addr = addr;
  children = new_children (pos 0) (pos 0);
  children_locked = false;
  structure = free;
  height = 0;
  parent_id = 0;
  parent_addr = no_addr;
  parent_heartbeat_frequency = default_parent_heartbeat_freq;
  prune_times = record {
    pending_hello = default_prune_time_pending_hello;
    serviceless_child = default_prune_time_serviceless_child;
    cvk = default_prune_time_cvk;
  };
  pending_hellos = [];
}

-- `NewVaultKeeper`
unfoldable pub new_vault_keeper : ℕ → AddrPort → List VkOption → Result CallError VaultKeeper
new_vault_keeper id addr opts =
    if not (is_valid addr)
    then err bad_addr
    else let vk = apply_options opts (default_vk id addr) in
      ok (record vk { children = new_children vk.prune_times.serviceless_child vk.prune_times.cvk })

-- `time.Since(ts) >= d`
abbrev pub has_lasted : ℕ → ℕ → ℤ → Bool
has_lasted now ts (pos d) = leb d (now - ts)
has_lasted now ts (negsuc d) = true

-- One round of the pruner of HELLOs, at the time `now`.
unfoldable pub prune_hellos : ℕ → ℤ → Map ℕ ℕ → Map ℕ ℕ
prune_hellos now d [] = []
prune_hellos now d ((id, ts) ∷ hellos) =
    let rest = prune_hellos now d hellos in if has_lasted now ts d then rest else (id, ts) ∷ rest

unfoldable pub pruner_round : ℕ → VaultKeeper → VaultKeeper
pruner_round now vk = record vk {
  pending_hellos = prune_hellos now vk.prune_times.pending_hello vk.pending_hellos;
}

abbrev pub forget_parent : VaultKeeper → VaultKeeper
forget_parent vk = record vk { parent_id = 0; parent_addr = no_addr }

-- One round of `startHeartbeater`.
unfoldable pub heartbeat_round :
    {S : Type 0} → Platform → Http S → VaultKeeper → S → VaultKeeper × S
heartbeat_round P http vk s =
    if not (is_free vk.structure)
    then (record vk { structure = taken }, s)
    else if is_root vk
    then (vk, s)
    else let (res, s') = http.post_vk_heartbeat (url_at P vk.parent_addr ep_vk_heartbeat) vk.id s in
      elim res [
        | none ↦ (forget_parent vk, s')
        | some code ↦ if code == status_ok then (vk, s') else (forget_parent vk, s')
      ]

-- `Start`
unfoldable pub start : VaultKeeper → Result CallError VaultKeeper
start vk = if vk.alive then ok vk else err dead

-- `Terminate`
unfoldable pub terminate : VaultKeeper → VaultKeeper
terminate vk = if vk.alive then record vk { alive = false } else vk

-- `Dead`, which gives the opposite.
unfoldable pub reports_dead : VaultKeeper → Bool
reports_dead vk = vk.alive

-- `Hello`: the status code of the answer.
unfoldable pub send_hello :
    {S : Type 0} → Platform → Http S → String → VaultKeeper → S → Result CallError ℕ × S
send_hello P http addr_str vk s =
    if not vk.alive then (err dead, s) else elim (P.parse_addr_port addr_str) [
      | none ↦ (err unparsed, s)
      | some addr ↦
          let (res, s') = http.post_hello (url_at P addr ep_hello) vk.id s in
          elim res [ none ↦ (err no_answer, s') | some code ↦ (ok code, s') ]
    ]

-- `Height`
unfoldable pub report_height : VaultKeeper → Outcome CallError ℕ
report_height vk = if is_taken vk.structure then blocked else done vk.height

-- `Parent`
unfoldable pub report_parent : VaultKeeper → Outcome CallError (ℕ × AddrPort)
report_parent vk = if is_taken vk.structure then blocked else done (vk.parent_id, vk.parent_addr)

-- `ChildrenSnapshot`
unfoldable pub report_children : Platform → VaultKeeper → Outcome CallError ChildrenSnapshot
report_children P vk =
    if vk.children_locked
    then blocked
    else done (children_snapshot P.print_addr P.print_provider vk.children)
