-- ===== src/Vk/Options.antt =====
-- implementations/slims/slims/vk/options.go, and the defaults of implementations/slims/slims/vk/vaultkeeper.go:
-- how a Vaultkeeper is configured. `New` applies the options in order to a Vaultkeeper with the defaults. The
-- logger is left out.
use orv.Base.{
  ℕ, ◌*◌, ◌<◌, ◌≡◌, arith, Bool, true, List, [], ◌∷◌, Option, none, some, ltb, if◌then◌else◌,
}
use orv.Base.{inl, inr, Option-cases}
use orv.Base.Int.{ℤ, pos, is_positive}
use orv.Version.{VersionSet}
use orv.Vk.State.{AddrPort, PruneTimes, Heartbeat, Platform, VaultKeeper}
use orv.Vk.Requests.{new_vault_keeper}

-- `VKOption`, by the function that makes it.
pub data VkOption : Type 0 where
  with_dragons_hoard : ℕ → VkOption
  with_versions : VersionSet → VkOption
  with_prune_times : PruneTimes → VkOption
  with_custom_heartbeats : Bool → ℤ → ℕ → VkOption

-- In nanoseconds.
abbrev pub second : ℕ
second = 1000000000

abbrev pub default_hello_prune_time : ℤ
default_hello_prune_time = pos (3 * second)

abbrev pub default_heartbeatless_cvk_prune_time : ℤ
default_heartbeatless_cvk_prune_time = pos (3 * second)

abbrev pub default_serviceless_leaf_prune_time : ℤ
default_serviceless_leaf_prune_time = pos (3 * second)

abbrev pub default_parent_hb_freq : ℤ
default_parent_hb_freq = pos (1 * second)

abbrev pub default_bad_heartbeat_limit : ℕ
default_bad_heartbeat_limit = 3

abbrev pub default_prune_times : PruneTimes
default_prune_times = record {
  hello = default_hello_prune_time;
  serviceless_leaf = default_serviceless_leaf_prune_time;
  child_vk = default_heartbeatless_cvk_prune_time;
}

abbrev pub default_heartbeat : Heartbeat
default_heartbeat = record {
  auto = true;
  freq = default_parent_hb_freq;
  bad_heartbeat_limit = default_bad_heartbeat_limit;
  bad_heartbeat_count = 0;
}

-- `if d > 0 { ... = d }`
abbrev pub if_positive : ℤ → ℤ → ℤ
if_positive d old = if is_positive d then d else old

module _ {P : Platform} where
  -- What an option does.
  unfoldable pub apply_option : VkOption → VaultKeeper P → VaultKeeper P
  apply_option (with_dragons_hoard initial_height) vk = record vk {
    structure = record (vk.structure) { height = initial_height };
  }
  apply_option (with_versions s) vk = record vk { version_set = s }
  apply_option (with_prune_times pt) vk = record vk {
    prune_time = record {
      hello = if_positive pt.hello vk.prune_time.hello;
      serviceless_leaf = if_positive pt.serviceless_leaf vk.prune_time.serviceless_leaf;
      child_vk = if_positive pt.child_vk vk.prune_time.child_vk;
    };
  }
  apply_option (with_custom_heartbeats enabled frequency limit) vk = record vk {
    hb = record (vk.hb) {
      auto = enabled;
      freq = if_positive frequency vk.hb.freq;
      bad_heartbeat_limit = if ltb 0 limit then limit else vk.hb.bad_heartbeat_limit;
    };
  }

  unfoldable pub apply_options : List VkOption → VaultKeeper P → VaultKeeper P
  apply_options [] vk = vk
  apply_options (o ∷ os) vk = apply_options os (apply_option o vk)

  -- `New` with its defaults, where `versions` are those of `defaultVersionsSupported`.
  unfoldable pub configured_vault_keeper :
      ℕ → AddrPort → VersionSet → List VkOption → Option (VaultKeeper P)
  configured_vault_keeper id addr versions opts =
      elim (new_vault_keeper id addr versions default_prune_times default_heartbeat) [
        | none ↦ none
        | some vk ↦ some (apply_options opts vk)
      ]

  -- All times are positive, and so is the limit of missed heartbeats.
  abbrev pub IsTimed : VaultKeeper P → Type 0
  IsTimed vk =
      (is_positive vk.prune_time.hello ≡ true)
      × (is_positive vk.prune_time.serviceless_leaf ≡ true)
      × (is_positive vk.prune_time.child_vk ≡ true)
      × (is_positive vk.hb.freq ≡ true)
      × (0 < vk.hb.bad_heartbeat_limit)

  apply_option-IsTimed :
      (o : VkOption) (vk : VaultKeeper P) → IsTimed vk → IsTimed (apply_option o vk)
  unfolding apply_option
  apply_option-IsTimed (with_dragons_hoard h) vk t = ground (arith, t)
  apply_option-IsTimed (with_versions s) vk t = ground (arith, t)
  apply_option-IsTimed (with_prune_times pt) vk t = ground (arith, t)
  apply_option-IsTimed (with_custom_heartbeats b f l) vk t = ground (arith, t)

  apply_options-IsTimed :
      (os : List VkOption) (vk : VaultKeeper P) → IsTimed vk → IsTimed (apply_options os vk)
  unfolding apply_options
  apply_options-IsTimed [] vk t = t
  apply_options-IsTimed (o ∷ os) vk t =
      apply_options-IsTimed os (apply_option o vk) (apply_option-IsTimed o vk t)

  new_vault_keeper-kept :
      (id : ℕ) (addr : AddrPort) (versions : VersionSet) (pt : PruneTimes) (hb : Heartbeat)
      (u : VaultKeeper P)
      → new_vault_keeper id addr versions pt hb ≡ some u
      → (u.prune_time ≡ pt) × (u.hb ≡ hb)
  unfolding new_vault_keeper
  new_vault_keeper-kept id addr versions pt hb u e = ground (arith, e)

  -- Whatever options New is given, all prune times, the frequency of heartbeats and the limit of missed ones
  -- of the Vaultkeeper that it gives are positive.
  pub configured-IsTimed :
      (id : ℕ) (addr : AddrPort) (versions : VersionSet) (opts : List VkOption) (vk : VaultKeeper P)
      → configured_vault_keeper id addr versions opts ≡ some vk
      → IsTimed vk
  unfolding configured_vault_keeper
  configured-IsTimed id addr versions opts vk e =
      elim (Option-cases
        (new_vault_keeper {P = P} id addr versions default_prune_times default_heartbeat)) [
          | inl f ↦ absurd (ground (arith, e, f))
          | inr (u, f) ↦
              let k =
                new_vault_keeper-kept id addr versions default_prune_times default_heartbeat u f in
              let t = apply_options-IsTimed opts u (ground (arith, k)) in ground (arith, e, f, t)
        ]
