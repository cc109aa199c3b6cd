-- ===== src/Version/Sorted.antt =====
-- The bytes that a node sends for its versions: each version of the list once per mention, from
-- the highest down.
use orv.Base.{
  ℕ, ◌+◌, ◌≤◌, ◌≡◌, refl, arith, List, [], ◌∷◌, ◌++◌, none, some, map, ◌==◌, nat_eq, if◌then◌else◌,
  Option-cases, ap, inl, inr,
}
use orv.Base.Map.{Map, lookup, insert, remove}
use orv.Version.{
  Version, VersionSet, no_versions, byte, add_version, add_versions, new_set, major_bytes,
  collect_bytes, insert_byte, sort_bytes, as_bytes,
}

-- How often a byte stands in a list.
abbrev pub count : ℕ → List ℕ → ℕ
count x [] = 0
count x (y ∷ ys) = (if y == x then 1 else 0) + count x ys

-- Each entry is at least as great as the next.
abbrev pub IsDescending : List ℕ → Type 0
IsDescending [] = Unit {0}
IsDescending (x ∷ []) = Unit {0}
IsDescending (x ∷ y ∷ ys) = (y ≤ x) × IsDescending (y ∷ ys)

count-append : (x : ℕ) (ys zs : List ℕ) → count x (ys ++ zs) ≡ count x ys + count x zs
count-append x [] zs = omega arith
count-append x (y ∷ ys) zs = ground (arith, count-append x ys zs)

count-insert_byte : (x y : ℕ) (ys : List ℕ) → count x (insert_byte y ys) ≡ count x (y ∷ ys)
unfolding insert_byte
count-insert_byte x y [] = refl
count-insert_byte x y (z ∷ ys) = ground (arith, count-insert_byte x y ys)

count-sort_bytes : (x : ℕ) (ys : List ℕ) → count x (sort_bytes ys) ≡ count x ys
unfolding sort_bytes
count-sort_bytes x [] = refl
count-sort_bytes x (y ∷ ys) =
    ground (arith, count-insert_byte x y (sort_bytes ys), count-sort_bytes x ys)

insert_byte-IsDescending : (x : ℕ) (ys : List ℕ) → IsDescending ys → IsDescending (insert_byte x ys)
unfolding insert_byte
insert_byte-IsDescending x [] h = tt
insert_byte-IsDescending x (y ∷ []) h = ground arith
insert_byte-IsDescending x (y ∷ z ∷ ys) h = ground (arith, insert_byte-IsDescending x (z ∷ ys) h.1)

sort_bytes-IsDescending : (xs : List ℕ) → IsDescending (sort_bytes xs)
unfolding sort_bytes
sort_bytes-IsDescending [] = tt
sort_bytes-IsDescending (x ∷ xs) =
    insert_byte-IsDescending x (sort_bytes xs) (sort_bytes-IsDescending xs)

-- Keys stand once in the map that the loop of `NewSet` builds.
abbrev Absent : ℕ → Map ℕ (List ℕ) → Type 0
Absent k m = lookup k m ≡ none

abbrev Distinct : Map ℕ (List ℕ) → Type 0
Distinct [] = Unit {0}
Distinct ((k, v) ∷ m) = Absent k m × Distinct m

remove-Absent : (k : ℕ) (m : Map ℕ (List ℕ)) → Absent k m → remove k m ≡ m
unfolding lookup remove
remove-Absent k [] h = refl
remove-Absent k ((j, v) ∷ m) h = ground (arith, remove-Absent k m)

lookup-remove_self : (k : ℕ) (m : Map ℕ (List ℕ)) → Absent k (remove k m)
unfolding lookup remove
lookup-remove_self k [] = refl
lookup-remove_self k ((j, v) ∷ m) = ground (arith, lookup-remove_self k m)

Absent-remove : (j k : ℕ) (m : Map ℕ (List ℕ)) → Absent j m → Absent j (remove k m)
unfolding lookup remove
Absent-remove j k [] h = refl
Absent-remove j k ((i, v) ∷ m) h = ground (arith, Absent-remove j k m)

remove-Distinct : (k : ℕ) (m : Map ℕ (List ℕ)) → Distinct m → Distinct (remove k m)
unfolding remove
remove-Distinct k [] d = tt
remove-Distinct k ((j, v) ∷ m) d = ground (arith, remove-Distinct k m d.1, Absent-remove j k m d.0)

insert-Distinct : (k : ℕ) (v : List ℕ) (m : Map ℕ (List ℕ)) → Distinct m → Distinct (insert k v m)
unfolding insert
insert-Distinct k v m d = (lookup-remove_self k m, remove-Distinct k m d)

-- What an entry gives to the count comes off when it is removed.
count-remove :
    (x k : ℕ) (m : Map ℕ (List ℕ)) (minors : List ℕ)
    → Distinct m
    → lookup k m ≡ some minors
    → count x (collect_bytes (remove k m)) + count x (major_bytes (k, minors))
      ≡ count x (collect_bytes m)
unfolding collect_bytes lookup remove
count-remove x k [] minors d h = cc
count-remove x k ((j, v) ∷ m) minors d h = ground (
  arith,
  count-append x (major_bytes (j, v)) (collect_bytes m),
  count-append x (major_bytes (j, v)) (collect_bytes (remove k m)),
  remove-Absent k m,
  count-remove x k m minors d.1,
)

major_bytes-append :
    (k : ℕ) (ms : List ℕ) (m : ℕ)
    → major_bytes (k, ms ++ m ∷ [])
      ≡ major_bytes (k, ms) ++ byte (record { major = k; minor = m }) ∷ []
unfolding major_bytes
major_bytes-append k [] m = refl
major_bytes-append k (n ∷ ms) m =
    ap (◌∷◌ (byte (record { major = k; minor = n }))) (major_bytes-append k ms m)

count-add_version :
    (x : ℕ) (s : VersionSet) (v : Version)
    → Distinct s.all
    → count x (collect_bytes (add_version s v).all)
      ≡ (if byte v == x then 1 else 0) + count x (collect_bytes s.all)
unfolding insert collect_bytes major_bytes add_version byte
count-add_version x s v d = elim (Option-cases (lookup v.major s.all)) [
  | inl e ↦ rw (e, add_version) (ground (arith, remove-Absent v.major s.all e))
  | inr (ms, e) ↦
      rw (e, add_version)
        (ground (
          arith,
          major_bytes-append v.major ms v.minor,
          count-append x (major_bytes (v.major, ms) ++ byte v ∷ [])
              (collect_bytes (remove v.major s.all)),
          count-append x (major_bytes (v.major, ms)) (byte v ∷ []),
          count-remove x v.major s.all ms d e,
        ))
]

add_version-Distinct :
    (s : VersionSet) (v : Version) → Distinct s.all → Distinct (add_version s v).all
unfolding add_version
add_version-Distinct s v d = elim (Option-cases (lookup v.major s.all)) [
  | inl e ↦ rw (e, add_version) (insert-Distinct v.major (v.minor ∷ []) s.all d)
  | inr (ms, e) ↦ rw (e, add_version) (insert-Distinct v.major (ms ++ v.minor ∷ []) s.all d)
]

count-add_versions :
    (x : ℕ) (s : VersionSet) (vs : List Version)
    → Distinct s.all
    → count x (collect_bytes (add_versions s vs).all)
      ≡ count x (map byte vs) + count x (collect_bytes s.all)
unfolding add_versions
count-add_versions x s [] d = omega arith
count-add_versions x s (v ∷ vs) d = ground (
  arith,
  count-add_versions x (add_version s v) vs (add_version-Distinct s v d),
  count-add_version x s v d,
)

-- The bytes of a set stand in descending order, each as often as versions of the list have it.
pub as_bytes-new_set :
    (vs : List Version)
    → IsDescending (as_bytes (new_set vs))
      × ((x : ℕ) → count x (as_bytes (new_set vs)) ≡ count x (map byte vs))
unfolding as_bytes new_set collect_bytes
as_bytes-new_set vs = (
  sort_bytes-IsDescending (collect_bytes (add_versions no_versions vs).all),
  λ x. omega (
    arith,
    count-sort_bytes x (collect_bytes (add_versions no_versions vs).all),
    count-add_versions x no_versions vs tt,
  ),
)
