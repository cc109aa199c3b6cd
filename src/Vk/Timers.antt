-- ===== src/Vk/Timers.antt =====
-- `time.AfterFunc`, `Stop` and `Reset` of Go's timers. How long a timer runs is left out: `elapse`
-- says that an armed timer's time has come, and any armed timer may elapse at any moment. Its
-- callback then waits for the lock of the children, and a later `Stop` comes too late for it.
use orv.Base.{ℕ, suc, Bool, true, false, [], ◌∷◌, ◌++◌, none, some, nat_eq, if◌then◌else◌}
use orv.Base.Map.{lookup, insert}
use orv.Vk.State.{Callback, Timers}

-- A new armed timer, with the number `t.next_timer`.
unfoldable pub after_func : Callback → Timers → Timers
after_func f t = record t {
  timers = insert t.next_timer (record { callback = f; armed = true }) t.timers;
  next_timer = suc t.next_timer;
}

-- Says whether the timer was armed.
unfoldable pub is_armed : ℕ → Timers → Bool
is_armed h t = elim (lookup h t.timers) [ none ↦ false | some x ↦ x.armed ]

unfoldable pub set_armed : ℕ → Bool → Timers → Timers
set_armed h b t = elim (lookup h t.timers) [
  | none ↦ t
  | some x ↦ record t { timers = insert h (record x { armed = b }) t.timers }
]

unfoldable pub stop : ℕ → Timers → Bool × Timers
stop h t = (is_armed h t, set_armed h false t)

unfoldable pub reset : ℕ → Timers → Bool × Timers
reset h t = (is_armed h t, set_armed h true t)

unfoldable pub elapse : ℕ → Timers → Timers
elapse h t = elim (lookup h t.timers) [
  | none ↦ t
  | some x ↦
      if x.armed
      then record t {
        timers = insert h (record x { armed = false }) t.timers;
        waiting = t.waiting ++ x.callback ∷ [];
      }
      else t
]
