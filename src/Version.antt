-- ===== src/Version.antt =====
-- implementations/slims/slims/protocol/version/version.go: a version of Orv as one byte, and the
-- set of versions that a node supports. A `uint8` is a number below 256.
pub mod Byte
pub mod Sets
pub mod Sorted
use orv.Base.{
  ℕ, ◌*◌, ◌/◌, ◌%◌, ◌^◌, bit_and, bit_or, Bool, true, false, ◌&&◌, ◌||◌, List, [], ◌∷◌, ◌++◌, map,
  Option, none, some, ltb, ◌==◌, if◌then◌else◌, nat_eq, Result, ok, err,
}
use orv.Base.Map.{Map, lookup, insert}

pub record Version : Type 0 where
  pub major : ℕ
  pub minor : ℕ

-- `v.Major<<4 | v.Minor&0b00001111`, on bytes.
unfoldable pub byte : Version → ℕ
byte v = bit_or (v.major * 2 ^ 4 % 256) (bit_and v.minor 15)

pub data VersionError : Type 0 where
  major_not_nibble minor_not_nibble : VersionError

unfoldable pub new_version : ℕ → ℕ → Result VersionError Version
new_version major minor =
    if ltb 15 major
    then err major_not_nibble
    else if ltb 15 minor
    then err minor_not_nibble
    else ok (record { major = major; minor = minor })

unfoldable pub from_byte : ℕ → Version
from_byte b = record { major = b / 2 ^ 4; minor = bit_and b 15 }

-- `all` maps a major version to its minor versions.
pub record VersionSet : Type 0 where
  pub all : Map ℕ (List ℕ)
  pub highest : Version

abbrev pub no_versions : VersionSet
no_versions = record { all = []; highest = record { major = 0; minor = 0 } }

-- `(v.Major > h.Major) || (v.Major == h.Major && v.Minor > h.Minor)`.
unfoldable pub is_higher : Version → Version → Bool
is_higher v h = ltb h.major v.major || (v.major == h.major && ltb h.minor v.minor)

-- One round of the loop of `NewSet`.
unfoldable pub add_version : VersionSet → Version → VersionSet
unfolding is_higher
add_version s v = record {
  all = elim (lookup v.major s.all) [
    | none ↦ insert v.major (v.minor ∷ []) s.all
    | some minors ↦ insert v.major (minors ++ v.minor ∷ []) s.all
  ];
  highest = if is_higher v s.highest then v else s.highest;
}

unfoldable pub add_versions : VersionSet → List Version → VersionSet
add_versions s [] = s
add_versions s (v ∷ vs) = add_versions (add_version s v) vs

unfoldable pub new_set : List Version → VersionSet
unfolding add_versions add_version
new_set vs = add_versions no_versions vs

-- `slices.Contains` at bytes.
unfoldable pub contains : ℕ → List ℕ → Bool
contains x [] = false
contains x (y ∷ ys) = y == x || contains x ys

unfoldable pub supports : VersionSet → Version → Bool
unfolding contains
supports s v = elim (lookup v.major s.all) [ none ↦ false | some minors ↦ contains v.minor minors ]

-- The bytes of one entry of the map.
unfoldable pub major_bytes : ℕ × List ℕ → List ℕ
major_bytes (major, minors) = map (λ minor. byte (record { major = major; minor = minor })) minors

unfoldable pub collect_bytes : Map ℕ (List ℕ) → List ℕ
collect_bytes [] = []
collect_bytes (entry ∷ rest) = major_bytes entry ++ collect_bytes rest

-- `slices.SortStableFunc`, whose order puts the greater byte first.
unfoldable pub insert_byte : ℕ → List ℕ → List ℕ
insert_byte x [] = x ∷ []
insert_byte x (y ∷ ys) = if ltb x y then y ∷ insert_byte x ys else x ∷ y ∷ ys

unfoldable pub sort_bytes : List ℕ → List ℕ
sort_bytes [] = []
sort_bytes (x ∷ xs) = insert_byte x (sort_bytes xs)

unfoldable pub as_bytes : VersionSet → List ℕ
as_bytes s = sort_bytes (collect_bytes s.all)
