-- ===== src/Protocol/Decode.antt =====
-- Decoding: what a successful read consumed, how many bytes a reader must hold, and the body that
-- `DeserializeWithBody` returns.
use orv.Base.{
  ℕ, zero, suc, ◌+◌, ◌-◌, ◌*◌, ◌/◌, ◌%◌, ◌^◌, ◌<◌, ◌≤◌, ◌≡◌, refl, arith, true, false, List, [],
  ◌∷◌, ◌++◌, ok, err, bit_or, bit_and, length, All, and_low_seven, low_seven_and, and_top_bit,
  or_top_bit, Bool-cases, inl, inr, ◌∙◌, ap, ◌==◌, nat_eq, ◌⊎◌, bind-eq-ok,
}
use orv.Version.{from_byte}
use orv.Version.Byte.{from_byte-IsNibbles, byte-from_byte}
use orv.Protocol.{
  Header, serialize, deserialize, read_type, read_id, short_id, deserialize_with_body,
  long_header_len,
}
use orv.Protocol.Codec.{FitsWire, read_id-big_endian, big_endian}

-- The bytes of an identifier, from the most significant.
abbrev id_bytes : ℕ → List ℕ
id_bytes n =
    (n / 2 ^ 56 % 256)
    ∷ (n / 2 ^ 48 % 256)
    ∷ (n / 2 ^ 40 % 256)
    ∷ (n / 2 ^ 32 % 256)
    ∷ (n / 2 ^ 24 % 256)
    ∷ (n / 2 ^ 16 % 256)
    ∷ (n / 2 ^ 8 % 256)
    ∷ (n % 256)
    ∷ []

id_bytes-big_endian :
    (a b c d e f g h : ℕ)
    → All (λ x. x < 256) (a ∷ b ∷ c ∷ d ∷ e ∷ f ∷ g ∷ h ∷ [])
    → (id_bytes (big_endian a b c d e f g h) ≡ a ∷ b ∷ c ∷ d ∷ e ∷ f ∷ g ∷ h ∷ [])
      × (big_endian a b c d e f g h < 2 ^ 64)
id_bytes-big_endian a b c d e f g h s = ground arith

-- Fewer bytes than are left to read: the loop fails at the first missing one.
pub read_id-short :
    (left id : ℕ) (bytes : List ℕ)
    → length bytes < left
    → left ≤ 8
    → read_id left id bytes ≡ err (short_id (10 - left + length bytes))
unfolding read_id
read_id-short zero id bytes h k = absurd (omega arith)
read_id-short (suc left) id [] h k = ap (λ (n : ℕ). err (short_id n)) (omega arith)
read_id-short (suc left) id (b ∷ bytes) h k =
    read_id-short left (bit_or id (b * 2 ^ (left * 8) % 2 ^ 64)) bytes (omega arith) (omega arith)
    ∙ ap (λ (n : ℕ). err (short_id n)) (omega arith)

-- A list with eight members at least.
data HasEight : List ℕ → Type 0 where
  eight : (a b c d e f g h : ℕ) (rest : List ℕ) → HasEight (a ∷ b ∷ c ∷ d ∷ e ∷ f ∷ g ∷ h ∷ rest)

has_eight : (xs : List ℕ) → (length xs < 8) ⊎ HasEight xs
has_eight (a ∷ b ∷ c ∷ d ∷ e ∷ f ∷ g ∷ h ∷ rest) = inr (eight a b c d e f g h rest)
has_eight _ = inl (omega arith)

module _ (id : ℕ) (rest : List ℕ) where
  read_eight :
      {bytes : List ℕ}
      → HasEight bytes
      → All (λ x. x < 256) bytes
      → read_id 8 0 bytes ≡ ok (id, rest)
      → (id_bytes id ++ rest ≡ bytes) × (id < 2 ^ 64)
  read_eight (eight a b c d e f g h more) s r =
      ground (arith, read_id-big_endian a b c d e f g h more, id_bytes-big_endian a b c d e f g h)

  read_id-consumes :
      (bytes : List ℕ)
      → All (λ x. x < 256) bytes
      → read_id 8 0 bytes ≡ ok (id, rest)
      → (id_bytes id ++ rest ≡ bytes) × (id < 2 ^ 64)
  read_id-consumes bytes s r = elim (has_eight bytes) [
    | inl few ↦ ground (arith, read_id-short 8 0 bytes few (omega arith))
    | inr many ↦ read_eight many s r
  ]

-- What a decoded header and the rest say of the bytes that were read. A type byte splits into its
-- top bit and the rest.
type_byte_long :
    (b : ℕ) → b < 256 → (bit_and b 128 == 0) ≡ true → bit_and 127 (bit_and b 127 % 256) ≡ b
type_byte_long b h e =
    ground
      (arith, and_top_bit b, and_low_seven b, low_seven_and (bit_and b 127 % 256) (omega arith))

type_byte_short :
    (b : ℕ) → b < 256 → (bit_and b 128 == 0) ≡ false → bit_or 128 (bit_and b 127 % 256) ≡ b
type_byte_short b h e =
    ground (arith, and_top_bit b, and_low_seven b, or_top_bit (bit_and b 127 % 256) (omega arith))

module _ (v b : ℕ) (hv : v < 256) (hb : b < 256) where
  short-consumes :
      (h : Header) (rest bytes : List ℕ)
      → (bit_and b 128 == 0) ≡ false
      → read_type (from_byte v) (b ∷ bytes) ≡ ok (h, rest)
      → (serialize h ++ rest ≡ v ∷ b ∷ bytes) × FitsWire h
  unfolding read_type serialize
  short-consumes h rest bytes e r = ground (
    arith,
    type_byte_short b hb e,
    and_low_seven b hb,
    byte-from_byte v hv,
    from_byte-IsNibbles v hv,
  )

  long-consumes :
      (h : Header) (rest bytes : List ℕ)
      → All (λ x. x < 256) bytes
      → (bit_and b 128 == 0) ≡ true
      → read_type (from_byte v) (b ∷ bytes) ≡ ok (h, rest)
      → (serialize h ++ rest ≡ v ∷ b ∷ bytes) × FitsWire h
  unfolding read_type serialize
  long-consumes h rest bytes s e r =
      let (p, done, made) =
        bind-eq-ok (read_id 8 0 bytes)
          (λ p. ok (
            record { version = from_byte v; shorthand = false; type = bit_and b 127; id = p.0 },
            p.1,
          ))
          (rw (e, read_type) at r) in
      ground (
        arith,
        type_byte_long b hb e,
        and_low_seven b hb,
        byte-from_byte v hv,
        from_byte-IsNibbles v hv,
        read_id-consumes p.0 p.1 bytes s done,
      )

-- A successful read of bytes takes a header that fits the wire off the front: encoding that header gives
-- back the bytes that were read.
pub serialize-deserialize :
    (h : Header) (bytes rest : List ℕ)
    → All (λ x. x < 256) bytes
    → deserialize bytes ≡ ok (h, rest)
    → (serialize h ++ rest ≡ bytes) × FitsWire h
unfolding deserialize read_type
serialize-deserialize h [] rest s r = cc
serialize-deserialize h (v ∷ []) rest s r = cc
serialize-deserialize h (v ∷ b ∷ bytes) rest s r = elim (Bool-cases (bit_and b 128 == 0)) [
  | inl e ↦ long-consumes v b s.0 s.1.0 h rest bytes s.1.1 e r
  | inr e ↦ short-consumes v b s.0 s.1.0 h rest bytes e r
]

-- A header without shorthand whose identifier is cut off after `n` of its eight bytes fails, and
-- the error names byte `n + 2`.
pub deserialize-short_id :
    (v b : ℕ) (bytes : List ℕ)
    → b < 128
    → length bytes < 8
    → deserialize (v ∷ b ∷ bytes) ≡ err (short_id (length bytes + 2))
unfolding deserialize read_type
deserialize-short_id v b bytes hb few = ground (arith, and_top_bit b, read_id-short 8 0 bytes)

read_id_total :
    (left id : ℕ) (bytes : List ℕ)
    → left ≤ length bytes
    → (p : ℕ × List ℕ) × (read_id left id bytes ≡ ok p)
unfolding read_id
read_id_total zero id bytes h = ((id, bytes), refl)
read_id_total (suc left) id [] h = absurd (omega arith)
read_id_total (suc left) id (b ∷ bytes) h =
    read_id_total left (bit_or id (b * 2 ^ (left * 8) % 2 ^ 64)) bytes (omega arith)

-- Ten bytes are enough for any header.
pub deserialize_total :
    (bytes : List ℕ)
    → long_header_len ≤ length bytes
    → (p : Header × List ℕ) × (deserialize bytes ≡ ok p)
unfolding deserialize read_type
deserialize_total [] n = absurd (omega arith)
deserialize_total (v ∷ []) n = absurd (omega arith)
deserialize_total (v ∷ b ∷ bytes) n =
    let (p, done) = read_id_total 8 0 bytes (omega arith) in
    elim (Bool-cases (bit_and b 128 == 0)) [
      | inr e ↦ (
        (record { version = from_byte v; shorthand = true; type = bit_and b 127; id = 0 }, bytes),
        rw (e, read_type),
      )
      | inl e ↦ (
        (record { version = from_byte v; shorthand = false; type = bit_and b 127; id = p.0 }, p.1),
        rw (e, done, read_type),
      )
    ]

-- `DeserializeWithBody` returns no body, whatever stands behind the header.
pub deserialize_with_body_drops :
    (bytes : List ℕ) (h : Header) (rest : List ℕ)
    → deserialize bytes ≡ ok (h, rest)
    → deserialize_with_body bytes ≡ ok (h, 0, [])
unfolding deserialize_with_body
deserialize_with_body_drops bytes h rest e = rw (e, deserialize_with_body)
