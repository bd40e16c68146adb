-- ===== src/Audit/Codec/Records.antt =====
-- A whole record read back, field by field.
use mathlib.Core.List.{append_assoc, append-nil}
use vanilla_rtb.Base.{
  drop-append_exact, ℕ, zero, suc, ◌+◌, ◌%◌, ◌^◌, ◌<◌, ◌≡◌, refl, sym, ap, ◌∙◌, List, [], ◌∷◌, ◌++◌,
  Option, none, some, Text, length, drop, arith, All, length-append,
}
use vanilla_rtb.Audit.Codec.{
  Scalar, Value, scalar, text, code_of, text_code, size_of, write_bytes, read_bytes, record_size,
  blob_size, encode_field, encode_blob, encode_fields, encode_blobs, encode_record, decoded,
  aborted, out_of_bounds, decode_field,
}
use vanilla_rtb.Audit.Codec.Sizes.{
  blobs_total, IsFitting, length-encode_text, length-encode_fields, record_size-total,
}
use vanilla_rtb.Audit.Codec.RoundTrip.{
  IsDecodable, decode_scalar-encode, decode_text-encode, read-write_bytes,
}

-- What a reader gets that calls decode_field so many times, each time behind the field before.
unfoldable pub decode_all : ℕ → Text → Text → Option (List Value)
decode_all zero buf blobs = some []
decode_all (suc k) buf blobs = elim (decode_field buf blobs) [
  | decoded v rest ↦ elim (decode_all k rest blobs) [ some vs ↦ some (v ∷ vs) | none ↦ none ]
  | aborted ↦ none
  | out_of_bounds ↦ none
]

decode_all-cons :
    (k : ℕ) (buf rest blobs : Text) (v : Value) (vs : List Value)
    → decode_field buf blobs ≡ decoded v rest
    → decode_all k rest blobs ≡ some vs
    → decode_all (suc k) buf blobs ≡ some (v ∷ vs)
unfolding decode_all
decode_all-cons k buf rest blobs v vs first others = rw (first, decode_all) (rw others refl)

offset_text :
    (pre t : Text)
    → length pre + (5 + length t) < 2 ^ 32
    → (length pre + blob_size (text t)) % 2 ^ 32 ≡ length (pre ++ encode_blob (text t))
offset_text pre t h =
    let e = length-append pre (encode_blob (text t)) in
    let f = length-encode_text t (omega arith) in omega arith

-- The case of a text in front of values that are read back.
decode_all-text :
    (t : Text) (vs : List Value) (pre rest post : Text)
    → length pre + (5 + length t) < 2 ^ 32
    → decode_all
        (length vs)
        (encode_fields (length (pre ++ encode_blob (text t))) vs ++ rest)
        ((pre ++ encode_blob (text t)) ++ (encode_blobs vs ++ post))
      ≡ some vs
    → decode_all
        (suc (length vs))
        (text_code ∷ write_bytes 4 (length pre)
          ++ (encode_fields ((length pre + blob_size (text t)) % 2 ^ 32) vs ++ rest))
        (pre ++ (encode_blob (text t) ++ (encode_blobs vs ++ post)))
      ≡ some (text t ∷ vs)
decode_all-text t vs pre rest post h others =
    let blobs = pre ++ (encode_blob (text t) ++ (encode_blobs vs ++ post)) in
    let fields = encode_fields ((length pre + blob_size (text t)) % 2 ^ 32) vs ++ rest in
    decode_all-cons (length vs) _ fields blobs (text t) vs
      (decode_text-encode t pre (encode_blobs vs ++ post) fields (omega arith) (omega arith))
      (ap (λ o. decode_all (length vs) (encode_fields o vs ++ rest) blobs) (offset_text pre t h)
        ∙ ap
            (decode_all (length vs)
              (encode_fields (length (pre ++ encode_blob (text t))) vs ++ rest))
            (sym (append_assoc pre (encode_blob (text t)) (encode_blobs vs ++ post)))
        ∙ others)

-- Behind the blobs `pre`, the fields of a list of values are read back from their two parts.
decode_all-encode :
    (vs : List Value) (pre rest post : Text)
    → All IsDecodable vs
    → length pre + blobs_total vs < 2 ^ 32
    → decode_all
        (length vs)
        (encode_fields (length pre) vs ++ rest)
        (pre ++ (encode_blobs vs ++ post))
      ≡ some vs
unfolding encode_fields encode_blobs encode_blob encode_field decode_all
decode_all-encode [] pre rest post ok h = refl
decode_all-encode (scalar s n ∷ vs) pre rest post (d, ok) h =
    let off = length pre in
    let blobs = pre ++ (encode_blobs vs ++ post) in
    ap (λ buf. decode_all (suc (length vs)) buf blobs)
      (append_assoc (code_of s ∷ write_bytes (size_of s) n) (encode_fields off vs) rest)
    ∙ decode_all-cons (length vs) _ (encode_fields off vs ++ rest) blobs (scalar s n) vs
        (decode_scalar-encode s n (encode_fields off vs ++ rest) blobs d)
        (decode_all-encode vs pre rest post ok h)
decode_all-encode (text t ∷ vs) pre rest post (d, ok) h =
    let field = text_code ∷ write_bytes 4 (length pre) in
    let off = (length pre + blob_size (text t)) % 2 ^ 32 in
    ap (λ (p : Text × Text). decode_all (suc (length vs)) p.0 (pre ++ p.1))
      (λ i. (
        append_assoc field (encode_fields off vs) rest i,
        append_assoc (encode_blob (text t)) (encode_blobs vs) post i,
      ))
    ∙ decode_all-text t vs pre rest post (omega arith) (
        decode_all-encode vs (pre ++ encode_blob (text t)) rest post ok (
          let e = length-append pre (encode_blob (text t)) in
          let f = length-encode_text t (omega arith) in omega arith))

record_body :
    (vs : List Value)
    → IsFitting vs
    → read_bytes 4 (drop 1 (encode_record vs))
      ≡ some (record_size vs, encode_fields 0 vs ++ encode_blobs vs)
unfolding encode_record
record_body vs h =
    ap (read_bytes 4)
      (append_assoc (write_bytes 4 (record_size vs)) (encode_fields 0 vs) (encode_blobs vs))
    ∙ read-write_bytes 4 (record_size vs) (encode_fields 0 vs ++ encode_blobs vs)
        (let r = record_size-total vs (omega arith) in omega arith)

blobs_part :
    (vs : List Value)
    → IsFitting vs
    → drop (record_size vs) (encode_fields 0 vs ++ encode_blobs vs) ≡ encode_blobs vs
blobs_part vs h =
    ap (λ n. drop n (encode_fields 0 vs ++ encode_blobs vs))
      (record_size-total vs (omega arith) ∙ sym (length-encode_fields 0 vs))
    ∙ drop-append_exact (encode_fields 0 vs) (encode_blobs vs)

-- Behind the start byte of a record of less than 2 ^ 32 bytes stands the size of its fields. A reader
-- that decodes the fields from there on, with the blobs so many bytes further, gets the values that were
-- encoded, if none of them is a `bool`.
pub encode_record-decodes :
    (vs : List Value)
    → All IsDecodable vs
    → IsFitting vs
    → (body : Text) × (read_bytes 4 (drop 1 (encode_record vs)) ≡ some (record_size vs, body))
      × (decode_all (length vs) body (drop (record_size vs) body) ≡ some vs)
encode_record-decodes vs ok h =
    let body = encode_fields 0 vs ++ encode_blobs vs in
    (
      body,
      record_body vs h,
      ap (decode_all (length vs) body) (blobs_part vs h ∙ sym (append-nil (encode_blobs vs)))
          ∙ decode_all-encode vs [] (encode_blobs vs) [] ok (omega arith),
    )

-- A field of type `bool` makes decode_field abort.
pub decode_bool :
    (off n : ℕ) (rest blobs : Text)
    → decode_field ((encode_field off (scalar Scalar.bool n)).0 ++ rest) blobs ≡ aborted
unfolding decode_field encode_field
decode_bool off n rest blobs = refl
