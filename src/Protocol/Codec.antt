-- ===== src/Protocol/Codec.antt =====
-- The header codec: decoding what was encoded.
use native.Mathlib.Nat.{pow-le-pow_right, one-le-pow}
use native.Mathlib.Numerals.{towards_suc}
use orv.Base.{
  ℕ, suc, ◌+◌, ◌*◌, ◌/◌, ◌%◌, ◌^◌, ◌<◌, ◌≤◌, ◌≡◌, arith, List, [], ◌∷◌, ◌++◌, ok, if◌then◌else◌,
  bit_or, bit_and, length, All, and_low_seven, low_seven_and, and_top_bit, or_top_bit, or_field,
  ◌∙◌,
}
use orv.Version.Byte.{IsNibbles, IsBytes, from_byte-byte, byte-lt}
use orv.Protocol.{
  Header, serialize, deserialize, read_type, read_id, long_header_len, short_header_len,
}

-- A header whose fields fit their places on the wire.
pub record FitsWire (h : Header) : Type 0 where
  pub nibbles : IsNibbles h.version
  pub seven_bits : h.type < 128
  pub id_64 : h.id < 2 ^ 64

pow_eight : (k : ℕ) → 2 ^ (k + 8) ≡ 256 * 2 ^ k
pow_eight k = simp towards_suc (omega arith)

pow_round : (left : ℕ) → 2 ^ (suc left * 8) ≡ 256 * 2 ^ (left * 8)
pow_round left = let e : suc left * 8 ≡ left * 8 + 8 = omega arith in rw e (pow_eight (left * 8))

-- A byte at its place does not reach beyond the 64 bits.
shift_bound : (left : ℕ) → left < 8 → 256 * 2 ^ (left * 8) ≤ 2 ^ 64
shift_bound left h =
    rw (← pow_round left)
      (pow-le-pow_right {n = 2} (omega arith) {i = suc left * 8} {j = 64} (omega arith))

byte_below : (p b : ℕ) → 0 < p → b < 256 → b * p < 256 * p
byte_below p b hp h = grind arith

-- A byte below a value shifted by eight more: their union is their sum.
or_byte : (k q b : ℕ) → b < 256 → bit_or (q * (256 * 2 ^ k)) (b * 2 ^ k) ≡ (q * 256 + b) * 2 ^ k
or_byte k q b h =
    let bound : b * 2 ^ k < 2 ^ (k + 8) =
      rw (pow_eight k) (byte_below (2 ^ k) b (one-le-pow k 2 (omega arith)) h) in
    let sum : bit_or (q * (256 * 2 ^ k)) (b * 2 ^ k) ≡ q * (256 * 2 ^ k) + b * 2 ^ k =
      rw (pow_eight k) at (or_field (k + 8) q (b * 2 ^ k) bound) in
    omega (arith, sum)

read_step :
    (left q b : ℕ) (rest : List ℕ)
    → left < 8
    → b < 256
    → read_id (suc left) (q * 2 ^ (suc left * 8)) (b ∷ rest)
      ≡ read_id left ((q * 256 + b) * 2 ^ (left * 8)) rest
unfolding read_id
read_step left q b rest h hb =
    let small : b * 2 ^ (left * 8) % 2 ^ 64 ≡ b * 2 ^ (left * 8) = omega (
      arith,
      shift_bound left h,
      byte_below (2 ^ (left * 8)) b (one-le-pow (left * 8) 2 (omega arith)) hb,
    ) in
    rw (small, pow_round left, or_byte (left * 8) q b hb)

read_done : (q : ℕ) (rest : List ℕ) → read_id 0 (q * 2 ^ (0 * 8)) rest ≡ ok (q, rest)
unfolding read_id
read_done q rest = ground arith

-- Reading one more byte of a number, most significant first.
abbrev pub push : ℕ → ℕ → ℕ
push q b = q * 256 + b

abbrev pub big_endian : ℕ → ℕ → ℕ → ℕ → ℕ → ℕ → ℕ → ℕ → ℕ
big_endian a b c d e f g h = push (push (push (push (push (push (push (push 0 a) b) c) d) e) f) g) h

-- The loop of `Deserialize` reads eight bytes as a big-endian number.
pub read_id-big_endian :
    (a b c d e f g h : ℕ) (rest : List ℕ)
    → All (λ x. x < 256) (a ∷ b ∷ c ∷ d ∷ e ∷ f ∷ g ∷ h ∷ [])
    → read_id 8 0 (a ∷ b ∷ c ∷ d ∷ e ∷ f ∷ g ∷ h ∷ rest) ≡ ok (big_endian a b c d e f g h, rest)
read_id-big_endian a b c d e f g h rest s =
    read_step 7 0 a _ (omega arith) s.0
    ∙ read_step 6 (push 0 a) b _ (omega arith) (omega arith)
    ∙ read_step 5 (push (push 0 a) b) c _ (omega arith) (omega arith)
    ∙ read_step 4 (push (push (push 0 a) b) c) d _ (omega arith) (omega arith)
    ∙ read_step 3 (push (push (push (push 0 a) b) c) d) e _ (omega arith) (omega arith)
    ∙ read_step 2 (push (push (push (push (push 0 a) b) c) d) e) f _ (omega arith) (omega arith)
    ∙ read_step 1 (push (push (push (push (push (push 0 a) b) c) d) e) f) g _ (omega arith)
        (omega arith)
    ∙ read_step 0 (push (push (push (push (push (push (push 0 a) b) c) d) e) f) g) h rest
        (omega arith) (omega arith)
    ∙ read_done (big_endian a b c d e f g h) rest

-- The identifier from its eight bytes.
split_id :
    (n : ℕ)
    → n < 2 ^ 64
    → big_endian
        (n / 2 ^ 56 % 256)
        (n / 2 ^ 48 % 256)
        (n / 2 ^ 40 % 256)
        (n / 2 ^ 32 % 256)
        (n / 2 ^ 24 % 256)
        (n / 2 ^ 16 % 256)
        (n / 2 ^ 8 % 256)
        (n % 256)
      ≡ n
split_id n h = omega arith

-- What the receiver makes of a header: a shorthand header carries no identifier.
abbrev pub received : Header → Header
received h = record h { id = if h.shorthand then 0 else h.id }

long_type_byte :
    (t : ℕ) → t < 128 → (bit_and 127 (t % 256) ≡ t) × (bit_and t 128 ≡ 0) × (bit_and t 127 ≡ t)
long_type_byte t h =
    ground (arith, low_seven_and (t % 256) (omega arith), and_top_bit t, and_low_seven t)

short_type_byte :
    (t : ℕ)
    → t < 128
    → (bit_or 128 (t % 256) ≡ 128 + t) × (bit_and (128 + t) 128 ≡ 128) × (bit_and (128 + t) 127 ≡ t)
short_type_byte t h = ground (
  arith,
  or_top_bit (t % 256) (omega arith),
  and_top_bit (128 + t) (omega arith),
  and_low_seven (128 + t) (omega arith),
)

-- Reading the bytes of a header whose version fits in nibbles, type in seven bits and ID in 64, with
-- anything behind it, gives the header, without its ID if it is in shorthand, and what is behind.
pub deserialize-serialize :
    (h : Header) (rest : List ℕ)
    → FitsWire h
    → deserialize (serialize h ++ rest) ≡ ok (received h, rest)
unfolding deserialize serialize read_type
deserialize-serialize h rest fits = ground (
  arith,
  from_byte-byte h.version fits.nibbles,
  long_type_byte h.type fits.seven_bits,
  short_type_byte h.type fits.seven_bits,
  read_id-big_endian (h.id / 2 ^ 56 % 256) (h.id / 2 ^ 48 % 256) (h.id / 2 ^ 40 % 256)
      (h.id / 2 ^ 32 % 256) (h.id / 2 ^ 24 % 256) (h.id / 2 ^ 16 % 256) (h.id / 2 ^ 8 % 256)
      (h.id % 256) rest (omega arith),
  split_id h.id fits.id_64,
)

-- Ten bytes, or two in shorthand, each a byte.
pub serialize_bytes :
    (h : Header)
    → IsBytes h.version
    → (length (serialize h) ≡ (if h.shorthand then short_header_len else long_header_len))
      × All (λ x. x < 256) (serialize h)
unfolding serialize
serialize_bytes h v = ground (
  arith,
  byte-lt h.version v,
  or_top_bit (h.type % 256) (omega arith),
  low_seven_and (h.type % 256) (omega arith),
)
