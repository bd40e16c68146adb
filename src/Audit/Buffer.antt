-- ===== src/Audit/Buffer.antt =====
-- benchmarks/audit_buffer.hpp: segments of a fixed size that threads reserve ranges of, and the buffer
-- that goes from one to the next. The atomic counters are `size_t`, so their sums wrap. `reserve` is
-- run by one thread, in whole turns of its loop (reserve_turn) or access by access, with the calls of the
-- io_service between them (Step). The segments' files and memory are left out.
pub mod Segment
pub mod Slots
pub mod Granted
use vanilla_rtb.Base.{
  ℕ, zero, suc, ◌+◌, ◌-◌, ◌%◌, ◌^◌, ◌<◌, ◌≡◌, ◌&&◌, List, [], ◌∷◌, Option, none, some, ltb, leb,
  ◌==◌, if◌then◌else◌, is_some,
}

-- What becomes of a range that is asked for: it is granted; it is the one that crosses the end; or it
-- lies behind the end.
pub data Verdict : Type 0 where
  granted crossed full : ℕ → ℕ → Verdict

-- `size() - 1`
abbrev pub last_pos : ℕ → ℕ
last_pos filesize = (filesize + (2 ^ 64 - 1)) % 2 ^ 64

-- log_segment::reserve moves the offset on, and the tests of segmented_log_buffer::reserve judge the
-- offset from before.
abbrev pub judge : ℕ → ℕ → ℕ → Verdict
judge filesize required_size pos =
    if ltb pos (last_pos filesize) && leb (last_pos filesize) ((pos + required_size) % 2 ^ 64)
    then crossed pos required_size
    else if leb (last_pos filesize) pos
    then full pos required_size
    else granted pos required_size

unfoldable pub reserve_segment : ℕ → ℕ → ℕ → Verdict × ℕ
reserve_segment filesize required_size offset =
    (judge filesize required_size offset, (offset + required_size) % 2 ^ 64)

-- What threads get from one segment, in the order in which they reach its counter.
unfoldable pub reserve_all : ℕ → List ℕ → ℕ → List Verdict
reserve_all filesize [] offset = []
reserve_all filesize (required_size ∷ rest) offset =
    let (verdict, offset') = reserve_segment filesize required_size offset in
    verdict ∷ reserve_all filesize rest offset'

-- segmented_log_buffer: `segments` holds the offset of the segment in each of the three slots, and
-- `requested` counts the calls of prep_next_segment that the io_service has yet to run.
pub record Buffer : Type 0 where
  pub filesize : ℕ
  pub segments : ℕ → Option ℕ
  pub segment_idx : ℕ
  pub make_segment_idx : ℕ
  pub requested : ℕ

abbrev pub set_slot : ℕ → Option ℕ → (ℕ → Option ℕ) → ℕ → Option ℕ
set_slot i s segments j = if j == i then s else segments j

-- What a turn in the loop of `reserve` comes to: a position, or another turn.
pub data Turn : Type 0 where
  position : ℕ → Turn
  again : Turn

-- One turn. `while (!segment)` asks for another one after each reset.
unfoldable pub reserve_turn : ℕ → Buffer → Buffer × Turn
reserve_turn required_size b = elim (b.segments (b.segment_idx % 3)) [
  | none ↦ (b, again)
  | some offset ↦
      let (verdict, offset') = reserve_segment b.filesize required_size offset in
      elim verdict [
        | granted pos _ ↦ (
          record b { segments = set_slot (b.segment_idx % 3) (some offset') b.segments },
          position pos,
        )
        | full _ _ ↦
            (record b { segments = set_slot (b.segment_idx % 3) (some offset') b.segments }, again)
        | crossed _ _ ↦ (
          record b {
            segments = set_slot (b.segment_idx % 3) none b.segments;
            requested = suc b.requested;
            segment_idx = (b.segment_idx + 1) % 2 ^ 64;
          },
          again,
        )
      ]
]

-- How segmented_log_buffer::reserve ends: by its exception; with a position; or not within the turns
-- that it is given.
pub data Reserved : Type 0 where
  too_much spinning : Reserved
  at : ℕ → Reserved

-- The loop of `reserve`, run by one thread alone.
unfoldable pub reserve_loop : ℕ → ℕ → Buffer → Buffer × Reserved
reserve_loop zero required_size b = (b, spinning)
reserve_loop (suc turns) required_size b =
    let (b', result) = reserve_turn required_size b in
    elim result [ position pos ↦ (b', at pos) | again ↦ reserve_loop turns required_size b' ]

-- segmented_log_buffer::reserve
unfoldable pub reserve : ℕ → ℕ → Buffer → Buffer × Reserved
reserve turns required_size b =
    let run = reserve_loop turns required_size b in
    if ltb (last_pos b.filesize) required_size then (b, too_much) else run

-- How prep_next_segment ends: `failed` is its assertion.
pub data Prepared : Type 0 where
  prepared : Buffer → Prepared
  failed : Prepared

unfoldable pub prep_next_segment : Buffer → Prepared
prep_next_segment b =
    if is_some (b.segments (b.make_segment_idx % 3))
    then failed
    else prepared (record b {
      segments = set_slot (b.make_segment_idx % 3) (some 0) b.segments;
      make_segment_idx = (b.make_segment_idx + 1) % 2 ^ 64;
      requested = b.requested - 1;
    })

-- The constructor prepares two segments.
abbrev pub empty_buffer : ℕ → Buffer
empty_buffer filesize = record {
  filesize = filesize;
  segments = λ _. none;
  segment_idx = 0;
  make_segment_idx = 0;
  requested = 0;
}

abbrev pub new_buffer : ℕ → Buffer
new_buffer filesize = record (empty_buffer filesize) {
  segments = set_slot 1 (some 0) (set_slot 0 (some 0) (λ _. none));
  make_segment_idx = 2;
}

-- Where a thread in the loop of `reserve` is, between two of its accesses to what it shares with the
-- io_service; each holds the index that it has loaded. `idle` is before the load; `copied` after the copy of
-- a slot with a segment; `crossing` after the request that crossed the segment's end; `emptied` after the
-- reset of the slot; `asked` after the call of request_next_segment_.
pub data At : Type 0 where
  idle : At
  loaded copied crossing emptied asked : ℕ → At

-- The next access, of the one thread that reserves: the segment that it has copied is the one in the slot.
unfoldable pub access : ℕ → Buffer → At → Buffer × At
access required_size b idle = (b, loaded b.segment_idx)
access required_size b (loaded i) = elim (b.segments (i % 3)) [
  | none ↦ (b, idle)
  | some _ ↦ (b, copied i)
]
access required_size b (copied i) = elim (b.segments (i % 3)) [
  | none ↦ (b, idle)
  | some offset ↦
      let (verdict, offset') = reserve_segment b.filesize required_size offset in
      let moved = record b { segments = set_slot (i % 3) (some offset') b.segments } in
      elim verdict [
        | granted _ _ ↦ (moved, idle)
        | full _ _ ↦ (moved, idle)
        | crossed _ _ ↦ (moved, crossing i)
      ]
]
access required_size b (crossing i) =
    (record b { segments = set_slot (i % 3) none b.segments }, emptied i)
access required_size b (emptied i) = (record b { requested = suc b.requested }, asked i)
access required_size b (asked i) = (record b { segment_idx = (i + 1) % 2 ^ 64 }, idle)

-- The accesses of the thread and the calls that the io_service runs, one at a time and in any order. A call
-- that the thread itself runs, inside request_next_segment_, comes right behind the access that asks for it.
pub data Step : Buffer → At → Buffer → At → Type 0 where
  accesses :
      (required_size : ℕ) (b : Buffer) (at_ : At)
      → Step b at_ (access required_size b at_).0 (access required_size b at_).1
  prepares :
      (b b' : Buffer) (at_ : At)
      → 0 < b.requested
      → prep_next_segment b ≡ prepared b'
      → Step b at_ b' at_
