-- ===== src/Protocol.antt =====
-- implementations/slims/slims/protocol/protocol.go: the header of a packet, its codec and its
-- validation, and the outcomes of receiving and writing a packet. A message type is the number
-- of its protobuf enumeration (implementations/slims/slims/pb/message_types.proto), a byte is a
-- number below 256, and a reader is the list of the bytes that it has left.
pub mod Transport
pub mod MessageType
pub mod Codec
pub mod Decode
pub mod Validate
use orv.Base.{
  ℕ, zero, suc, ◌+◌, ◌-◌, ◌*◌, ◌/◌, ◌%◌, ◌^◌, bit_and, bit_or, Bool, true, false, not, ◌&&◌, ◌||◌,
  String, List, [], ◌∷◌, ◌++◌, Option, none, some, ltb, ◌==◌, nat_eq, text_eq, if◌then◌else◌, take,
  length, Result, ok, err, ◌>>=◌,
}
use orv.Version.{Version, byte, from_byte}

-- `LongHeaderLen` and `ShortHeaderLen`; `slims.MaxPacketSize`.
abbrev pub long_header_len : ℕ
long_header_len = 10

abbrev pub short_header_len : ℕ
short_header_len = 2

abbrev pub max_packet_size : ℕ
max_packet_size = 1024

pub record Header : Type 0 where
  pub version : Version
  pub shorthand : Bool
  pub type : ℕ
  pub id : ℕ

-- `Header.Serialize`. `binary.Encode` copies the bytes as they are, and always all of them.
unfoldable pub serialize : Header → List ℕ
serialize hdr =
    if hdr.shorthand
    then byte hdr.version ∷ bit_or 128 (hdr.type % 256) ∷ []
    else byte hdr.version
      ∷ bit_and 127 (hdr.type % 256)
      ∷ (hdr.id / 2 ^ 56 % 256)
      ∷ (hdr.id / 2 ^ 48 % 256)
      ∷ (hdr.id / 2 ^ 40 % 256)
      ∷ (hdr.id / 2 ^ 32 % 256)
      ∷ (hdr.id / 2 ^ 24 % 256)
      ∷ (hdr.id / 2 ^ 16 % 256)
      ∷ (hdr.id / 2 ^ 8 % 256)
      ∷ (hdr.id % 256)
      ∷ []

-- The errors of `Deserialize`: which byte the reader was short of, as the message counts it.
pub data DeserializeError : Type 0 where
  short_version short_type : DeserializeError
  short_id : ℕ → DeserializeError

-- The rounds left of the loop over the bytes of the ID: at round `i` there are `8 - i`.
unfoldable pub read_id : ℕ → ℕ → List ℕ → Result DeserializeError (ℕ × List ℕ)
read_id zero id bytes = ok (id, bytes)
read_id (suc left) id [] = err (short_id (7 - left + 2))
read_id (suc left) id (b ∷ rest) = read_id left (bit_or id (b * 2 ^ (left * 8) % 2 ^ 64)) rest

unfoldable pub read_type : Version → List ℕ → Result DeserializeError (Header × List ℕ)
unfolding read_id
read_type v [] = err short_type
read_type v (b ∷ rest) =
    if not (bit_and b 128 == 0)
    then ok (record { version = v; shorthand = true; type = bit_and b 127; id = 0 }, rest)
    else (do
      (id, rest') ← read_id 8 0 rest
      ok (record { version = v; shorthand = false; type = bit_and b 127; id = id }, rest'))

-- `Deserialize`: the header, and what the reader has left.
unfoldable pub deserialize : List ℕ → Result DeserializeError (Header × List ℕ)
unfolding read_type
deserialize [] = err short_version
deserialize (b ∷ rest) = read_type (from_byte b) rest

-- `rd.Read(p)` of a `bytes.Buffer`: fills `p`, whose length is given, and says how much it read.
-- At the end of the buffer it fails with `io.EOF`, unless `p` is empty.
pub data ReadOutcome : Type 0 where
  read : List ℕ → ReadOutcome
  end_of_file : ReadOutcome

unfoldable pub read_buffer : ℕ → List ℕ → ReadOutcome
read_buffer zero bytes = read []
read_buffer (suc n) [] = end_of_file
read_buffer (suc n) (b ∷ bytes) = read (take (suc n) (b ∷ bytes))

pub data BodyError : Type 0 where
  bad_header : DeserializeError → BodyError
  bad_read : BodyError

-- `DeserializeWithBody`. `bd` is a nil slice, whose length is 0.
unfoldable pub deserialize_with_body : List ℕ → Result BodyError (Header × ℕ × List ℕ)
unfolding read_buffer
deserialize_with_body bytes = elim (deserialize bytes) [
  | err e ↦ err (bad_header e)
  | ok (hdr, rest) ↦ elim (read_buffer 0 rest) [
    | end_of_file ↦ err bad_read
    | read bd ↦ ok (hdr, length bd, bd)
  ]
]

pub data HeaderIssue : Type 0 where
  invalid_version_major invalid_version_minor invalid_message_type shorthand_id : HeaderIssue

-- `pb.MessageType.String`, of the generated code, is a parameter of the validation.
module _ (type_string : ℕ → String) where
  -- `Header.Validate`.
  unfoldable pub validate : Header → List HeaderIssue
  validate hdr =
      (if ltb 15 hdr.version.major then invalid_version_major ∷ [] else [])
      ++ (if ltb 15 hdr.version.minor then invalid_version_minor ∷ [] else [])
      ++ (if type_string hdr.type == "UNKNOWN" || hdr.type == 0
          then invalid_message_type ∷ []
          else [])
      ++ (if hdr.shorthand && not (hdr.id == 0) then shorthand_id ∷ [] else [])
