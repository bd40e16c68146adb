-- ===== src/Tests/Audits.antt =====
-- Runs of benchmarks/audit_codec.hpp and benchmarks/audit_buffer.hpp.
use vanilla_rtb.Base.{
  ℕ, zero, suc, ◌≡◌, refl, List, [], ◌∷◌, some, Text, codes, length, drop, arith,
}
use vanilla_rtb.Audit.Codec.{
  Value, scalar, text, uint8, uint16, write_bytes, read_bytes, record_size, encode_field,
  encode_fields, encode_blob, encode_blobs, encode_record,
}
use vanilla_rtb.Audit.Buffer.{
  granted, crossed, full, reserve_segment, reserve_all, Buffer, new_buffer, At, idle, asked, access,
  accesses, prep_next_segment, prepared,
}
use vanilla_rtb.Audit.Buffer.{empty_buffer, reserve, too_much, spinning}
use vanilla_rtb.Audit.Buffer.Granted.{reserve_largest}
use vanilla_rtb.Audit.Buffer.Segment.{AreSound, reserve_all-AreSound}
use vanilla_rtb.Audit.Buffer.Slots.{Run, start, next, Run-prepares}
use vanilla_rtb.Audit.Codec.Records.{decode_all, encode_record-decodes}

abbrev sample : List Value
sample = scalar uint8 7 ∷ text (codes "ab") ∷ scalar uint16 258 ∷ text (codes "c") ∷ []

sample_bytes :
    encode_record sample
    ≡ 1 ∷ 15 ∷ 0 ∷ 0 ∷ 0 ∷ b'B' ∷ 7 ∷ b'S' ∷ 0 ∷ 0 ∷ 0 ∷ 0 ∷ b'H' ∷ 2 ∷ 1 ∷ b'S' ∷ 7 ∷ 0 ∷ 0 ∷ 0 ∷ 2
      ∷ 2 ∷ 0 ∷ 0 ∷ 0 ∷ b'a' ∷ b'b' ∷ 2 ∷ 1 ∷ 0 ∷ 0 ∷ 0 ∷ b'c' ∷ []
unfolding encode_record record_size encode_fields encode_field encode_blobs encode_blob write_bytes
sample_bytes = refl

encode_record-decodes_example :
    (body : Text) × (read_bytes 4 (drop 1 (encode_record sample)) ≡ some (record_size sample, body))
    × (decode_all (length sample) body (drop (record_size sample) body) ≡ some sample)
encode_record-decodes_example =
    encode_record-decodes sample ((λ e. cc, omega arith), (tt, ((λ e. cc, omega arith), (tt, tt))))
      (omega arith)

-- Three threads ask for 6, 6 and 1 bytes of a segment of 11.
three_threads : reserve_all 11 (6 ∷ 6 ∷ 1 ∷ []) 0 ≡ granted 0 6 ∷ crossed 6 6 ∷ full 12 1 ∷ []
unfolding reserve_all reserve_segment
three_threads = refl

reserve_all-AreSound_example : AreSound 11 0 (reserve_all 11 (6 ∷ 6 ∷ 1 ∷ []) 0)
reserve_all-AreSound_example =
    reserve_all-AreSound 11 (6 ∷ 6 ∷ 1 ∷ []) 0 0 (omega arith) (omega arith) (omega arith)
      (omega arith)

-- The first accesses of a thread that reserves 6 bytes again and again: the second request crosses the end
-- of the first segment.
abbrev go : ℕ → Buffer × At
go zero = (new_buffer 11, idle)
go (suc n) = let (b, at_) = go n in access 6 b at_

onward :
    (b : Buffer) (at_ : At)
    → Run 11 b at_
    → b.segment_idx ≡ 0
    → Run 11 (access 6 b at_).0 (access 6 b at_).1
onward b at_ r first =
    next b (access 6 b at_).0 at_ (access 6 b at_).1 r (omega (arith, first)) (accesses 6 b at_)

eight_accesses : Run 11 (go 8).0 (go 8).1
unfolding access reserve_segment
eight_accesses =
    onward (go 7).0 (go 7).1
      (onward (go 6).0 (go 6).1
        (onward (go 5).0 (go 5).1
          (onward (go 4).0 (go 4).1
            (onward (go 3).0 (go 3).1
              (onward (go 2).0 (go 2).1
                (onward (go 1).0 (go 1).1 (onward (go 0).0 (go 0).1 start refl) refl) refl)
              refl)
            refl)
          refl)
        refl)
      refl

one_requested : ((go 8).0.requested ≡ 1) × ((go 8).0.segment_idx ≡ 0) × ((go 8).1 ≡ asked 0)
unfolding access reserve_segment
one_requested = (refl, refl, refl)

Run-prepares_example : (b' : Buffer) × (prep_next_segment (go 8).0 ≡ prepared b')
Run-prepares_example =
    Run-prepares 11 (go 8).0 (go 8).1 eight_accesses (omega (arith, one_requested.0))
      (omega (arith, one_requested.1))

-- Of 11 bytes, 10 pass the check.
reserve_largest_example : (reserve 9 10 (new_buffer 11)).1 ≡ spinning
reserve_largest_example = reserve_largest 9 (new_buffer 11) (omega arith) (omega arith)

-- 11 bytes do not pass it.
eleven : (reserve 9 11 (new_buffer 11)).1 ≡ too_much
unfolding reserve
eleven = refl

-- The constructor is two preparations.
constructed :
    (b : Buffer) × (prep_next_segment (empty_buffer 11) ≡ prepared b)
    × (prep_next_segment b ≡ prepared (new_buffer 11))
unfolding prep_next_segment
constructed = (_, refl, refl)
