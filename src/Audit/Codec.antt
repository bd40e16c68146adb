-- ===== src/Audit/Codec.antt =====
-- benchmarks/audit_codec.hpp: a record of fields as bytes and back, on a little-endian machine. A
-- value of a fixed size is the number that its bytes represent; `char` arrays and pointers are encoded
-- as string views. Memory is a list of bytes.
pub mod RoundTrip
pub mod Records
pub mod Sizes
use vanilla_rtb.Base.{
  ℕ, zero, suc, ◌+◌, ◌*◌, ◌/◌, ◌%◌, ◌^◌, List, [], ◌∷◌, ◌++◌, Option, none, some, Text, ◌==◌,
  length, take, drop, if◌then◌else◌,
}

-- The types of typemap with a fixed size, and std::string_view.
pub data Scalar : Type 0 where
  bool uint8 int8 uint16 int16 uint32 int32 uint64 int64 float double : Scalar

pub data Value : Type 0 where
  scalar : Scalar → ℕ → Value
  text : Text → Value

-- typemap::code_of
abbrev pub code_of : Scalar → ℕ
code_of bool = b'?'
code_of uint8 = b'B'
code_of int8 = b'b'
code_of uint16 = b'H'
code_of int16 = b'h'
code_of uint32 = b'L'
code_of int32 = b'l'
code_of uint64 = b'Q'
code_of int64 = b'q'
code_of float = b'f'
code_of double = b'd'

abbrev pub text_code : ℕ
text_code = b'S'

-- sizeof
abbrev pub size_of : Scalar → ℕ
size_of bool = 1
size_of uint8 = 1
size_of int8 = 1
size_of uint16 = 2
size_of int16 = 2
size_of uint32 = 4
size_of int32 = 4
size_of uint64 = 8
size_of int64 = 8
size_of float = 4
size_of double = 8

-- memcpy of `k` bytes of a number into a buffer, and out of one. Reading past the end is `none`.
unfoldable pub write_bytes : ℕ → ℕ → Text
write_bytes zero n = []
write_bytes (suc k) n = n % 256 ∷ write_bytes k (n / 256)

unfoldable pub read_bytes : ℕ → Text → Option (ℕ × Text)
read_bytes zero buf = some (0, buf)
read_bytes (suc k) [] = none
read_bytes (suc k) (byte ∷ buf) = elim (read_bytes k buf) [
  | none ↦ none
  | some (n, rest) ↦ some (byte + 256 * n, rest)
]

-- field_size and record_size
abbrev pub field_size : Value → ℕ
field_size (scalar s n) = 1 + size_of s
field_size (text t) = 1 + 4

unfoldable pub record_size : List Value → ℕ
record_size [] = 0
record_size (v ∷ vs) = (field_size v + record_size vs) % 2 ^ 32

-- blob_size, and its sum over the arguments.
abbrev pub blob_size : Value → ℕ
blob_size (scalar s n) = 0
blob_size (text t) = (1 + 4 + length t) % 2 ^ 32

unfoldable pub blobs_size : List Value → ℕ
blobs_size [] = 0
blobs_size (v ∷ vs) = (blob_size v + blobs_size vs) % 2 ^ 32

-- full_record_size
unfoldable pub full_record_size : List Value → ℕ
full_record_size vs = (1 + 4 + record_size vs + blobs_size vs) % 2 ^ 32

-- encode_field: the bytes, and the offset of the next blob.
unfoldable pub encode_field : ℕ → Value → Text × ℕ
encode_field blob_offset (scalar s n) = (code_of s ∷ write_bytes (size_of s) n, blob_offset)
encode_field blob_offset (text t) =
    (text_code ∷ write_bytes 4 blob_offset, (blob_offset + blob_size (text t)) % 2 ^ 32)

-- encode_blob
unfoldable pub encode_blob : Value → Text
encode_blob (scalar s n) = []
encode_blob (text t) =
    let blob_len = length t % 2 ^ 32 in 2 ∷ write_bytes 4 blob_len ++ take blob_len t

-- The two folds of encode_record.
unfoldable pub encode_fields : ℕ → List Value → Text
encode_fields blob_offset [] = []
encode_fields blob_offset (v ∷ vs) =
    let (field, blob_offset') = encode_field blob_offset v in field ++ encode_fields blob_offset' vs

unfoldable pub encode_blobs : List Value → Text
encode_blobs [] = []
encode_blobs (v ∷ vs) = encode_blob v ++ encode_blobs vs

-- encode_record
unfoldable pub encode_record : List Value → Text
encode_record vs = 1 ∷ write_bytes 4 (record_size vs) ++ encode_fields 0 vs ++ encode_blobs vs

-- How decode_field ends: the value for `fn` and the rest of the buffer; by abort; or by a read outside
-- of the memory.
pub data Decoded : Type 0 where
  decoded : Value → Text → Decoded
  aborted : Decoded
  out_of_bounds : Decoded

-- The cases of the switch: there is none for `bool`.
abbrev pub decoder_of : ℕ → Option Scalar
decoder_of code =
    if code == code_of uint8
    then some uint8
    else if code == code_of int8
    then some int8
    else if code == code_of uint16
    then some uint16
    else if code == code_of int16
    then some int16
    else if code == code_of uint32
    then some uint32
    else if code == code_of int32
    then some int32
    else if code == code_of uint64
    then some uint64
    else if code == code_of int64
    then some int64
    else if code == code_of float
    then some float
    else if code == code_of double
    then some double
    else none

-- decoder::decode
unfoldable pub decode_scalar : Scalar → Text → Decoded
decode_scalar s buf = elim (read_bytes (size_of s) buf) [
  | none ↦ out_of_bounds
  | some (n, rest) ↦ decoded (scalar s n) rest
]

-- The view of `blob_len` bytes.
unfoldable pub view : ℕ → Text → Text → Decoded
view blob_len bytes rest =
    if length (take blob_len bytes) == blob_len
    then decoded (text (take blob_len bytes)) rest
    else out_of_bounds

-- decoder<std::string_view>::decode
unfoldable pub decode_text : Text → Text → Decoded
decode_text buf blob_buf = elim (read_bytes 4 buf) [
  | none ↦ out_of_bounds
  | some (blob_offset, rest) ↦ elim (read_bytes 4 (drop (blob_offset + 1) blob_buf)) [
    | none ↦ out_of_bounds
    | some (blob_len, bytes) ↦ view blob_len bytes rest
  ]
]

-- decode_field
unfoldable pub decode_field : Text → Text → Decoded
decode_field [] blob_buf = out_of_bounds
decode_field (type_code ∷ buf) blob_buf = elim (decoder_of type_code) [
  | some s ↦ decode_scalar s buf
  | none ↦ if type_code == text_code then decode_text buf blob_buf else aborted
]
