-- ===== src/Examples/Tables.antt =====
-- The tables of Vk/Table as maps, whose entries are dropped only by `expire`, and packets that are sent in
-- the reverse order.
use orv.Base.{
  ℕ, ◌≡◌, refl, arith, Bool, true, false, not, ◌||◌, String, [], none, some, Eq, nat_eq, text_eq,
  ◌==◌, is_some, if◌then◌else◌, Option-cases, inl, inr,
}
use mathlib.Core.List.{reverse, reverse_perm}
use orv.Base.Map.{Map, lookup, insert, remove, lookup-insert, lookup-remove, lookup-empty}
use orv.Base.Int.{ℤ}
use orv.Vk.Table.{map_option, Expiring, Tokens}
use orv.Vk.State.{Cvk, Platform}

-- A write to the value of a key, if there is one.
abbrev modify_entry : {K V : Type 0} → ⦃e : Eq K⦄ → K → (V → V) → Map K V → Map K V
modify_entry k f t = elim (lookup k t) [ none ↦ t | some v ↦ insert k (f v) t ]

pub lookup-modify_entry :
    {K V : Type 0}
    → ⦃e : Eq K⦄ → (k j : K) (f : V → V) (t : Map K V)
    → lookup j (modify_entry k f t) ≡ (if k == j then map_option f (lookup j t) else lookup j t)
lookup-modify_entry ⦃e⦄ k j f t = elim (Option-cases (lookup k t)) [
  | inl n ↦ ground (arith, e.beq_iff k j)
  | inr (v, n) ↦ ground (arith, lookup-insert k j (f v) t, e.beq_iff k j)
]

abbrev pub map_table : (K V : Type 0) → ⦃e : Eq K⦄ → Expiring K V
map_table K V = record {
  Table = Map K V;
  empty = [];
  load = lookup;
  store = λ k v d t. insert k v t;
  delete = λ k t. (is_some (lookup k t), remove k t);
  refresh = λ k d t. (is_some (lookup k t), t);
  modify = modify_entry;
  entries = λ t. t;
  expire = remove;
  load-empty = lookup-empty;
  load-store = λ k j v d t. lookup-insert k j v t;
  delete-found = λ k t. refl;
  load-delete = lookup-remove;
  refresh-found = λ k d t. refl;
  load-refresh = λ k j d t. refl;
  load-modify = lookup-modify_entry;
  load-entries = λ j t. refl;
  load-expire = lookup-remove;
}

abbrev pub held : String → Map String Bool → Bool
held j t = is_some (lookup j t)

pub not_held : (j : String) → held j [] ≡ false
not_held j = ground (arith, lookup-empty {V = Bool} j)

pub held-insert :
    (k j : String) (d : ℤ) (t : Map String Bool) → held j (insert k true t) ≡ (k == j || held j t)
held-insert k j d t = ground (arith, lookup-insert k j true t)

pub held-remove :
    (k j : String) (t : Map String Bool)
    → held j (remove k t) ≡ (if k == j then false else held j t)
held-remove k j t = ground (arith, lookup-remove k j t)

abbrev pub token_map : Tokens
token_map = record {
  Table = Map String Bool;
  empty = [];
  seen = held;
  mark = λ k d t. (not (is_some (lookup k t)), insert k true t);
  expire = remove;
  seen-empty = not_held;
  mark-swapped = λ k d t. refl;
  seen-mark = held-insert;
  seen-expire = held-remove;
}

abbrev pub platform : Platform
platform = record {
  cvk_table = map_table ℕ Cvk;
  hello_table = map_table ℕ Bool;
  token_table = token_map;
  interleave = reverse;
  interleave-perm = reverse_perm;
}
