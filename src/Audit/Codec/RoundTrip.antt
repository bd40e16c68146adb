-- ===== src/Audit/Codec/RoundTrip.antt =====
-- Decoding what encode_record wrote.
use mathlib.Core.List.{append_assoc}
use vanilla_rtb.Base.{
  ℕ, zero, suc, ◌+◌, ◌*◌, ◌/◌, ◌^◌, ◌<◌, ◌≡◌, ◌≢◌, refl, ap, ◌∙◌, [], ◌∷◌, ◌++◌, some, Text, length,
  drop, arith, take-append_exact, ==_iff,
}
use vanilla_rtb.Audit.Codec.Sizes.{encode_text_lem}
use vanilla_rtb.Audit.Codec.{
  Scalar, Value, scalar, text, code_of, text_code, size_of, write_bytes, read_bytes, encode_blob,
  decoded, decoder_of, decode_scalar, view, decode_text, decode_field, bool, uint8, int8, uint16,
  int16, uint32, int32, uint64, int64, float, double,
}

-- How many values `k` bytes have.
abbrev pub values : ℕ → ℕ
values zero = 1
values (suc k) = 256 * values k

-- What is written is read back, and what follows is left.
pub read-write_bytes :
    (k n : ℕ) (rest : Text) → n < values k → read_bytes k (write_bytes k n ++ rest) ≡ some (n, rest)
unfolding read_bytes write_bytes
read-write_bytes zero n rest h = ap (λ m. some (m, rest)) (omega arith)
read-write_bytes (suc k) n rest h =
    rw (read-write_bytes k (n / 256) rest (omega arith)) (ap (λ m. some (m, rest)) (omega arith))

-- A value that can be decoded: no `bool`, and within its size.
abbrev pub IsDecodable : Value → Type 0
IsDecodable (scalar s n) = (s ≢ bool) × (n < values (size_of s))
IsDecodable (text t) = Unit {0}

decoder_of-code_of : (s : Scalar) → s ≢ bool → decoder_of (code_of s) ≡ some s
decoder_of-code_of bool ne = absurd (ne refl)
decoder_of-code_of uint8 ne = refl
decoder_of-code_of int8 ne = refl
decoder_of-code_of uint16 ne = refl
decoder_of-code_of int16 ne = refl
decoder_of-code_of uint32 ne = refl
decoder_of-code_of int32 ne = refl
decoder_of-code_of uint64 ne = refl
decoder_of-code_of int64 ne = refl
decoder_of-code_of float ne = refl
decoder_of-code_of double ne = refl

decode_field-scalar :
    (code : ℕ) (s : Scalar) (n : ℕ) (buf rest blobs : Text)
    → decoder_of code ≡ some s
    → read_bytes (size_of s) buf ≡ some (n, rest)
    → decode_field (code ∷ buf) blobs ≡ decoded (scalar s n) rest
unfolding decode_field decode_scalar
decode_field-scalar code s n buf rest blobs found read =
    rw (found, decode_field) (rw (read, decode_scalar) refl)

pub decode_scalar-encode :
    (s : Scalar) (n : ℕ) (rest blobs : Text)
    → IsDecodable (scalar s n)
    → decode_field (code_of s ∷ write_bytes (size_of s) n ++ rest) blobs ≡ decoded (scalar s n) rest
decode_scalar-encode s n rest blobs (ne, h) =
    decode_field-scalar (code_of s) s n (write_bytes (size_of s) n ++ rest) rest blobs
      (decoder_of-code_of s ne) (read-write_bytes (size_of s) n rest h)

drop_past : (xs ys : Text) (y : ℕ) → drop (length xs + 1) (xs ++ y ∷ ys) ≡ ys
drop_past [] ys y = refl
drop_past (x ∷ xs) ys y = ap (λ n. drop n (x ∷ (xs ++ y ∷ ys))) more ∙ drop_past xs ys y
  where
    more : suc (length xs) + 1 ≡ suc (length xs + 1)
    more = omega arith

view_all : (t post rest : Text) → view (length t) (t ++ post) rest ≡ decoded (text t) rest
unfolding view
view_all t post rest = rw (take-append_exact t post, (==_iff (length t) (length t)).1 refl) refl

decode_field-text :
    (blob_offset blob_len : ℕ) (buf rest blobs bytes : Text)
    → read_bytes 4 buf ≡ some (blob_offset, rest)
    → read_bytes 4 (drop (blob_offset + 1) blobs) ≡ some (blob_len, bytes)
    → decode_field (text_code ∷ buf) blobs ≡ view blob_len bytes rest
unfolding decode_field decode_text
decode_field-text blob_offset blob_len buf rest blobs bytes field blob =
    rw (field, decode_text) (rw blob refl)

read_blob :
    (t pre post : Text)
    → length t < 2 ^ 32
    → read_bytes 4 (drop (length pre + 1) (pre ++ (encode_blob (text t) ++ post)))
      ≡ some (length t, t ++ post)
read_blob t pre post h =
    rw
      (
        encode_text_lem t h,
        drop_past pre (write_bytes 4 (length t) ++ t ++ post) 2,
        append_assoc (write_bytes 4 (length t)) t post,
      )
      (read-write_bytes 4 (length t) (t ++ post) h)

pub decode_text-encode :
    (t pre post rest : Text)
    → length pre < 2 ^ 32
    → length t < 2 ^ 32
    → decode_field
        (text_code ∷ write_bytes 4 (length pre) ++ rest)
        (pre ++ (encode_blob (text t) ++ post))
      ≡ decoded (text t) rest
decode_text-encode t pre post rest hp ht =
    decode_field-text (length pre) (length t) (write_bytes 4 (length pre) ++ rest) rest _
      (t ++ post) (read-write_bytes 4 (length pre) rest hp) (read_blob t pre post ht)
    ∙ view_all t post rest
