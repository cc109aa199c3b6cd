-- ===== src/Examples/Codec.antt =====
-- The versions and the header codec on concrete bytes.
use text.Mathlib.TextEquality.{eq_iff}
use orv.Base.{
  ℕ, ◌<◌, ◌≡◌, refl, arith, String, List, [], ◌∷◌, ◌++◌, All, ok, ◌==◌, nat_eq, if◌then◌else◌,
}
use orv.Version.{Version, from_byte}
use orv.Protocol.{Header, serialize, deserialize, read_id, read_type}
use orv.Protocol.Codec.{FitsWire, received, deserialize-serialize}
use orv.Protocol.Decode.{serialize-deserialize, deserialize_total}
use orv.Examples.State.{header, version_1_0}

abbrev two_versions : List Version
two_versions = version_1_0 ∷ record { major = 2; minor = 3 } ∷ []

header-FitsWire : FitsWire (header 300)
header-FitsWire = record {
  nibbles = record { major_nibble = omega arith; minor_nibble = omega arith };
  seven_bits = omega arith;
  id_64 = omega arith;
}

deserialize-serialize_example :
    deserialize (serialize (header 300) ++ 5 ∷ []) ≡ ok (received (header 300), 5 ∷ [])
deserialize-serialize_example = deserialize-serialize (header 300) (5 ∷ []) header-FitsWire

-- A HELLO of version 1.0 from node 300, and one byte behind it.
abbrev datagram : List ℕ
datagram = 16 ∷ 1 ∷ 0 ∷ 0 ∷ 0 ∷ 0 ∷ 0 ∷ 0 ∷ 1 ∷ 44 ∷ 5 ∷ []

datagram-bytes : All (λ x. x < 256) datagram
datagram-bytes = ground arith

datagram_read : deserialize datagram ≡ ok (header 300, 5 ∷ [])
unfolding deserialize read_type read_id from_byte
datagram_read = refl

serialize-deserialize_example :
    (serialize (header 300) ++ 5 ∷ [] ≡ datagram) × FitsWire (header 300)
serialize-deserialize_example =
    serialize-deserialize (header 300) datagram (5 ∷ []) datagram-bytes datagram_read

deserialize_total_example : (p : Header × List ℕ) × (deserialize datagram ≡ ok p)
deserialize_total_example = deserialize_total datagram (omega arith)

-- Names for the types, of which only that of 0 matters.
abbrev type_name : ℕ → String
type_name t = if t == 0 then "UNKNOWN" else "KNOWN"

type_name-named : (t : ℕ) → type_name t ≡ "UNKNOWN" → t ≡ 0
type_name-named t e =
    ground (arith, nat_eq.beq_iff t 0, eq_iff (type_name t) "UNKNOWN", eq_iff "KNOWN" "UNKNOWN")
