-- ===== src/Vk/Table.antt =====
-- The interface of `expiring.Table` (github.com/rflandau/expiring), the third-party table whose
-- entries are dropped some time after they are stored. A client of this file takes the table as a
-- parameter. The laws are what the Vaultkeeper relies on: a table answers like a map. When an entry
-- expires is not said: `expire` is a step that time may take at any moment.
use orv.Base.{
  ◌≡◌, Bool, false, not, ◌||◌, String, Option, none, some, Eq, text_eq, ◌==◌, if◌then◌else◌,
  is_some,
}
use orv.Base.Map.{Map, lookup}
use orv.Base.Int.{ℤ}

abbrev pub map_option : {A B : Type 0} → (A → B) → Option A → Option B
map_option f none = none
map_option f (some a) = some (f a)

pub record Expiring (K V : Type 0) ⦃e : Eq K⦄ : Type 1 where
  pub Table : Type 0
  pub empty : Table
  pub load : K → Table → Option V
  -- Stores for a duration, replacing what the key had.
  pub store : K → V → ℤ → Table → Table
  -- Says whether it found the key.
  pub delete : K → Table → Bool × Table
  -- Starts the duration of a key anew, and says whether it found the key.
  pub refresh : K → ℤ → Table → Bool × Table
  -- What a write through the reference that `load` returned does to later loads.
  pub modify : K → (V → V) → Table → Table
  -- The entries that `RangeLocked` visits.
  pub entries : Table → Map K V
  -- The key's time has run out.
  pub expire : K → Table → Table
  pub load-empty : (j : K) → load j empty ≡ none
  pub load-store :
      (k j : K) (v : V) (d : ℤ) (t : Table)
      → load j (store k v d t) ≡ (if k == j then some v else load j t)
  pub delete-found : (k : K) (t : Table) → (delete k t).0 ≡ is_some (load k t)
  pub load-delete :
      (k j : K) (t : Table) → load j (delete k t).1 ≡ (if k == j then none else load j t)
  pub refresh-found : (k : K) (d : ℤ) (t : Table) → (refresh k d t).0 ≡ is_some (load k t)
  pub load-refresh : (k j : K) (d : ℤ) (t : Table) → load j (refresh k d t).1 ≡ load j t
  pub load-modify :
      (k j : K) (f : V → V) (t : Table)
      → load j (modify k f t) ≡ (if k == j then map_option f (load j t) else load j t)
  pub load-entries : (j : K) (t : Table) → lookup j (entries t) ≡ load j t
  pub load-expire :
      (k j : K) (t : Table) → load j (expire k t) ≡ (if k == j then none else load j t)

-- The table of the tokens of LIST requests that were handled. `mark` is
-- `CompareAndSwap(token, false, true, cooldown)`: it says whether it swapped. The code relies on a
-- token that the table does not hold being swapped, and on one that was swapped not being swapped
-- again before it expires.
pub record Tokens : Type 1 where
  pub Table : Type 0
  pub empty : Table
  pub seen : String → Table → Bool
  pub mark : String → ℤ → Table → Bool × Table
  pub expire : String → Table → Table
  pub seen-empty : (j : String) → seen j empty ≡ false
  pub mark-swapped : (k : String) (d : ℤ) (t : Table) → (mark k d t).0 ≡ not (seen k t)
  pub seen-mark : (k j : String) (d : ℤ) (t : Table) → seen j (mark k d t).1 ≡ (k == j || seen j t)
  pub seen-expire :
      (k j : String) (t : Table) → seen j (expire k t) ≡ (if k == j then false else seen j t)
