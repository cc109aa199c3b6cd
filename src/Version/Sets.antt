-- ===== src/Version/Sets.antt =====
-- What the set of versions answers, against the list that it was made from.
use orv.Base.{
  ℕ, ◌≡◌, ◌⊎◌, refl, arith, Bool, true, false, ◌||◌, ◌&&◌, List, [], ◌∷◌, ◌++◌, Option, none, some,
  All, Option-cases, ◌==◌, nat_eq, if◌then◌else◌, inl, inr, Bool-cases, ◌∙◌,
}
use orv.Base.Map.{lookup, lookup-insert, lookup-empty}
use orv.Version.{
  Version, VersionSet, no_versions, is_higher, add_version, add_versions, new_set, contains,
  supports,
}

abbrev pub same_version : Version → Version → Bool
same_version v w = v.major == w.major && v.minor == w.minor

-- Is the version among those of the list?
abbrev pub has_version : Version → List Version → Bool
has_version v [] = false
has_version v (w ∷ ws) = same_version w v || has_version v ws

contains-append : (x y : ℕ) (ys : List ℕ) → contains x (ys ++ y ∷ []) ≡ (contains x ys || y == x)
unfolding contains
contains-append x y [] = ground arith
contains-append x y (z ∷ ys) = ground (arith, contains-append x y ys)

minors_after : (o : Option (List ℕ)) (m : ℕ) → List ℕ
minors_after none m = m ∷ []
minors_after (some ms) m = ms ++ m ∷ []

lookup-add_version :
    (s : VersionSet) (w : Version) (k : ℕ)
    → lookup k (add_version s w).all ≡ (
        if w.major == k then some (minors_after (lookup w.major s.all) w.minor) else lookup k s.all)
unfolding add_version minors_after
lookup-add_version s w k = elim (Option-cases (lookup w.major s.all)) [
  | inl e ↦ rw (e, add_version) (lookup-insert w.major k (w.minor ∷ []) s.all)
  | inr (ms, e) ↦ rw (e, add_version) (lookup-insert w.major k (ms ++ w.minor ∷ []) s.all)
]

abbrev holds : Option (List ℕ) → ℕ → Bool
holds none x = false
holds (some ms) x = contains x ms

holds-minors_after :
    (o : Option (List ℕ)) (m x : ℕ) → holds (some (minors_after o m)) x ≡ (holds o x || m == x)
unfolding minors_after contains
holds-minors_after none m x = ground arith
holds-minors_after (some ms) m x = contains-append x m ms

supports-holds :
    (s : VersionSet) (v : Version) → supports s v ≡ holds (lookup v.major s.all) v.minor
unfolding supports
supports-holds s v = ground arith

supports-add_version :
    (s : VersionSet) (w v : Version)
    → supports (add_version s w) v ≡ (supports s v || same_version w v)
supports-add_version s w v = ground (
  arith,
  supports-holds s v,
  supports-holds (add_version s w) v,
  lookup-add_version s w v.major,
  holds-minors_after (lookup w.major s.all) w.minor v.minor,
)

supports-add_versions :
    (s : VersionSet) (ws : List Version) (v : Version)
    → supports (add_versions s ws) v ≡ (supports s v || has_version v ws)
unfolding add_versions
supports-add_versions s [] v = ground arith
supports-add_versions s (w ∷ ws) v =
    ground (arith, supports-add_version s w v, supports-add_versions (add_version s w) ws v)

-- The set supports exactly the versions that it was made from.
pub supports-new_set :
    (vs : List Version) (v : Version) → supports (new_set vs) v ≡ has_version v vs
unfolding new_set
supports-new_set vs v = ground (
  arith,
  supports-add_versions no_versions vs v,
  supports-holds no_versions v,
  lookup-empty {V = List ℕ} v.major,
)

-- The lexicographic order of versions.
abbrev pub NotAbove : Version → Version → Type 0
NotAbove v h = is_higher v h ≡ false

NotAbove-trans : (a b c : Version) → NotAbove a b → NotAbove b c → NotAbove a c
unfolding is_higher
NotAbove-trans a b c p q = ground arith

NotAbove-add_version :
    (s : VersionSet) (v : Version)
    → NotAbove s.highest (add_version s v).highest × NotAbove v (add_version s v).highest
unfolding add_version is_higher
NotAbove-add_version s v = ground arith

highest_mono : (s : VersionSet) (vs : List Version) → NotAbove s.highest (add_versions s vs).highest
unfolding add_versions is_higher
highest_mono s [] = ground arith
highest_mono s (v ∷ vs) =
    NotAbove-trans s.highest (add_version s v).highest (add_versions (add_version s v) vs).highest
      (NotAbove-add_version s v).0 (highest_mono (add_version s v) vs)

highest-bounds :
    (s : VersionSet) (vs : List Version) → All (λ v. NotAbove v (add_versions s vs).highest) vs
unfolding add_versions
highest-bounds s [] = tt
highest-bounds s (v ∷ vs) = (
  NotAbove-trans v (add_version s v).highest (add_versions (add_version s v) vs).highest
      (NotAbove-add_version s v).1 (highest_mono (add_version s v) vs),
  highest-bounds (add_version s v) vs,
)

add_version-highest :
    (s : VersionSet) (v : Version)
    → ((add_version s v).highest ≡ s.highest) ⊎ ((add_version s v).highest ≡ v)
unfolding add_version is_higher
add_version-highest s v = elim (Bool-cases (is_higher v s.highest)) [
  | inl e ↦ inr (rw (e, add_version))
  | inr e ↦ inl (rw (e, add_version))
]

same_version_refl : (v : Version) → same_version v v ≡ true
same_version_refl v = ground arith

highest-origin :
    (s : VersionSet) (vs : List Version)
    → ((add_versions s vs).highest ≡ s.highest)
      ⊎ (has_version (add_versions s vs).highest vs ≡ true)
unfolding add_versions
highest-origin s [] = inl refl
highest-origin s (v ∷ vs) = elim (highest-origin (add_version s v) vs) [
  | inr h ↦ inr (ground arith)
  | inl h ↦ elim (add_version-highest s v) [
    | inl e ↦ inl (h ∙ e)
    | inr e ↦ inr (rw (h ∙ e) (ground (arith, same_version_refl v)))
  ]
]

-- No version of the list is higher than the highest of the set, which is one of the list or 0.0.
pub highest-new_set :
    (vs : List Version)
    → All (λ v. NotAbove v (new_set vs).highest) vs
      × (((new_set vs).highest ≡ no_versions.highest)
          ⊎ (has_version (new_set vs).highest vs ≡ true))
unfolding new_set
highest-new_set vs = (highest-bounds no_versions vs, highest-origin no_versions vs)
