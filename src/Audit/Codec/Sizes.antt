-- ===== src/Audit/Codec/Sizes.antt =====
-- The sizes that are computed before a record is written, and its length.

use vanilla_rtb.Base.{
  ℕ, zero, suc, ◌+◌, ◌/◌, ◌%◌, ◌^◌, ◌<◌, ◌≡◌, refl, ap, ◌∙◌, List, [], ◌∷◌, ◌++◌, Text, length,
  arith, take_all, length-append,
}
use vanilla_rtb.Audit.Codec.{
  Value, scalar, text, size_of, write_bytes, field_size, record_size, blobs_size, full_record_size,
  encode_field, encode_blob, encode_fields, encode_blobs, encode_record,
}

pub length-write_bytes : (k n : ℕ) → length (write_bytes k n) ≡ k
unfolding write_bytes
length-write_bytes zero n = refl
length-write_bytes (suc k) n = ap suc (length-write_bytes k (n / 256))

-- The sizes of the two parts of a record, without wrapping.
abbrev pub fields_total : List Value → ℕ
fields_total [] = 0
fields_total (v ∷ vs) = field_size v + fields_total vs

abbrev pub blobs_total : List Value → ℕ
blobs_total [] = 0
blobs_total (scalar s n ∷ vs) = blobs_total vs
blobs_total (text t ∷ vs) = 5 + length t + blobs_total vs

-- A record whose size is a `uint32_t`.
abbrev pub IsFitting : List Value → Type 0
IsFitting vs = 5 + fields_total vs + blobs_total vs < 2 ^ 32

pub record_size-total :
    (vs : List Value) → fields_total vs < 2 ^ 32 → record_size vs ≡ fields_total vs
unfolding record_size
record_size-total [] h = refl
record_size-total (v ∷ vs) h = rw (record_size-total vs (omega arith)) (omega arith)

blobs_size-total : (vs : List Value) → blobs_total vs < 2 ^ 32 → blobs_size vs ≡ blobs_total vs
unfolding blobs_size
blobs_size-total [] h = refl
blobs_size-total (scalar s n ∷ vs) h = rw (blobs_size-total vs (omega arith)) (omega arith)
blobs_size-total (text t ∷ vs) h = rw (blobs_size-total vs (omega arith)) (omega arith)

length-encode_field : (off : ℕ) (v : Value) → length (encode_field off v).0 ≡ field_size v
unfolding encode_field
length-encode_field off (scalar s n) = let e = length-write_bytes (size_of s) n in omega arith
length-encode_field off (text t) = ap suc (length-write_bytes 4 off)

pub length-encode_fields :
    (off : ℕ) (vs : List Value) → length (encode_fields off vs) ≡ fields_total vs
unfolding encode_fields
length-encode_fields off [] = refl
length-encode_fields off (v ∷ vs) =
    length-append (encode_field off v).0 (encode_fields (encode_field off v).1 vs)
    ∙ rw (length-encode_field off v, length-encode_fields (encode_field off v).1 vs) refl

mod_small : (n : ℕ) → n < 2 ^ 32 → n % 2 ^ 32 ≡ n
mod_small n h = omega arith

pub encode_text_lem :
    (t : Text) → length t < 2 ^ 32 → encode_blob (text t) ≡ 2 ∷ write_bytes 4 (length t) ++ t
unfolding encode_blob
encode_text_lem t h = rw (mod_small (length t) h) (rw (take_all (length t) t (omega arith)) refl)

pub length-encode_text :
    (t : Text) → length t < 2 ^ 32 → length (encode_blob (text t)) ≡ 5 + length t
length-encode_text t h = rw (encode_text_lem t h) (
    let e = length-append (write_bytes 4 (length t)) t in
    let f = length-write_bytes 4 (length t) in omega arith)

length-encode_blobs :
    (vs : List Value) → blobs_total vs < 2 ^ 32 → length (encode_blobs vs) ≡ blobs_total vs
unfolding encode_blobs encode_blob
length-encode_blobs [] h = refl
length-encode_blobs (scalar s n ∷ vs) h = length-encode_blobs vs h
length-encode_blobs (text t ∷ vs) h =
    length-append (encode_blob (text t)) (encode_blobs vs)
    ∙ rw (length-encode_text t (omega arith), length-encode_blobs vs (omega arith)) refl

-- A record of less than 2 ^ 32 bytes is as long as full_record_size says before it is written.
pub length-encode_record :
    (vs : List Value) → IsFitting vs → length (encode_record vs) ≡ full_record_size vs
unfolding encode_record full_record_size
length-encode_record vs h =
    let head = length-write_bytes 4 (record_size vs) in
    let fields = length-encode_fields 0 vs in
    let blobs = length-encode_blobs vs (omega arith) in
    let all =
      length-append (write_bytes 4 (record_size vs) ++ encode_fields 0 vs) (encode_blobs vs) in
    let parts = length-append (write_bytes 4 (record_size vs)) (encode_fields 0 vs) in
    let r = record_size-total vs (omega arith) in
    let b = blobs_size-total vs (omega arith) in omega arith
