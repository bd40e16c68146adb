-- ===== src/Audit/Buffer/Slots.antt =====
-- The three slots of the buffer: the next segment is always prepared in an empty one.
use vanilla_rtb.Base.{
  ℕ, ◌+◌, ◌-◌, ◌%◌, ◌^◌, ◌≤◌, ◌<◌, ◌≡◌, ◌≢◌, refl, sym, ap, ◌∙◌, subst, Option, none, some, arith,
  inl, inr, ◌⊎◌, false, Option-cases, Bool-cases, ◌==◌, ==_iff, ==_ne,
}
use vanilla_rtb.Audit.Buffer.{
  Buffer, Verdict, granted, crossed, full, judge, set_slot, reserve_segment, prepared, failed,
  prep_next_segment, new_buffer, At, idle, loaded, copied, crossing, emptied, asked, access, Step,
  accesses, prepares,
}

-- How many slots the thread has emptied, and how many segments it has asked for, ahead of `segment_idx`.
abbrev ahead : At → ℕ
ahead (emptied i) = 1
ahead (asked i) = 1
ahead _ = 0

abbrev asked_for : At → ℕ
asked_for (asked i) = 1
asked_for _ = 0

-- The thread has loaded the index of the buffer, and holds a segment that was prepared.
abbrev Holds : At → ℕ → ℕ → Type 0
Holds idle idx make = Unit
Holds (loaded i) idx make = i ≡ idx
Holds (copied i) idx make = (i ≡ idx) × (idx < make)
Holds (crossing i) idx make = (i ≡ idx) × (idx < make)
Holds (emptied i) idx make = (i ≡ idx) × (idx < make)
Holds (asked i) idx make = (i ≡ idx) × (idx < make)

-- The segments that are in use and those that are prepared are numbered from `segment_idx` up to
-- `make_segment_idx`; the slots of the numbers from there on, within three of those that the thread has
-- not emptied, are empty; and each switch to a next segment is matched by a preparation, done or requested.
pub record IsWell (b : Buffer) (at_ : At) : Type 0 where
  pub holds : Holds at_ b.segment_idx b.make_segment_idx
  pub behind : b.segment_idx ≤ b.make_segment_idx
  pub matched : b.make_segment_idx + b.requested ≡ b.segment_idx + 2 + asked_for at_
  pub empty_slots :
      (k : ℕ)
      → b.make_segment_idx ≤ k
      → k < b.segment_idx + 3 + ahead at_
      → b.segments (k % 3) ≡ none

pub set_slot_self : (i : ℕ) (s : Option ℕ) (segments : ℕ → Option ℕ) → set_slot i s segments i ≡ s
set_slot_self i s segments = rw ((==_iff i i).1 refl) refl

set_slot_other :
    (i j : ℕ) (s : Option ℕ) (segments : ℕ → Option ℕ)
    → j ≢ i
    → set_slot i s segments j ≡ segments j
set_slot_other i j s segments ne = rw (==_ne j i ne) refl

-- A new buffer has two segments and an empty slot.
new_buffer-IsWell : (filesize : ℕ) → IsWell (new_buffer filesize) idle
new_buffer-IsWell filesize = record {
  holds = tt;
  behind = omega arith;
  matched = refl;
  empty_slots = λ k h g. ap (new_buffer filesize).segments (two k h (omega arith));
}
  where
    two : (k : ℕ) → 2 ≤ k → k < 3 → k % 3 ≡ 2
    two k h g = omega arith

different : (i j : ℕ) → (i == j) ≡ false → i ≢ j
different i j e h = ground arith

compare_cases : (a b : ℕ) → (a < b) ⊎ (b ≤ a)
compare_cases a b = ground arith

-- A current slot that holds a segment has been prepared.
in_use :
    (b : Buffer) (i o : ℕ)
    → IsWell b (loaded i)
    → b.segments (i % 3) ≡ some o
    → b.segment_idx < b.make_segment_idx
in_use b i o well e = elim (compare_cases b.segment_idx b.make_segment_idx) [
  | inl h ↦ h
  | inr h ↦ absurd (
      let n = well.empty_slots b.segment_idx h (omega arith) in
      let here = ap (λ j. b.segments (j % 3)) well.holds in cc)
]

-- The offset of the segment in use may change, whatever the thread does next with it.
moved-IsWell :
    (b : Buffer) (i o' : ℕ) (at_ : At)
    → IsWell b (copied i)
    → Holds at_ b.segment_idx b.make_segment_idx
    → ahead at_ ≡ 0
    → asked_for at_ ≡ 0
    → IsWell (record b { segments = set_slot (i % 3) (some o') b.segments }) at_
moved-IsWell b i o' at_ well holds_ none_ahead none_asked = record {
  holds = holds_;
  behind = well.behind;
  matched = let m = well.matched in omega arith;
  empty_slots = λ k h g.
      set_slot_other (i % 3) (k % 3) (some o') b.segments (let u = well.holds in omega arith)
      ∙ well.empty_slots k h (omega arith);
}

-- The slot of the segment in use may be emptied.
emptied-IsWell :
    (b : Buffer) (i : ℕ)
    → IsWell b (crossing i)
    → IsWell (record b { segments = set_slot (i % 3) none b.segments }) (emptied i)
emptied-IsWell b i well = record {
  holds = well.holds;
  behind = well.behind;
  matched = well.matched;
  empty_slots = λ k h g. elim (Bool-cases (k % 3 == i % 3)) [
    | inl same ↦ rw same refl
    | inr other ↦ rw other (
        well.empty_slots k h
          (let ne = different (k % 3) (i % 3) other in let u = well.holds in omega arith))
  ];
}

Verdict-cases :
    (v : Verdict)
    → ((p q : ℕ) × (v ≡ granted p q))
      ⊎ (((p q : ℕ) × (v ≡ crossed p q)) ⊎ ((p q : ℕ) × (v ≡ full p q)))
Verdict-cases (granted p q) = inl (p, q, refl)
Verdict-cases (crossed p q) = inr (inl (p, q, refl))
Verdict-cases (full p q) = inr (inr (p, q, refl))

copied-IsWell :
    (n i : ℕ) (b : Buffer)
    → IsWell b (copied i)
    → IsWell (access n b (copied i)).0 (access n b (copied i)).1
unfolding access reserve_segment
copied-IsWell n i b well = elim (Option-cases (b.segments (i % 3))) [
  | inl e ↦
      rw (e, access)
        (record {
          holds = tt;
          behind = well.behind;
          matched = well.matched;
          empty_slots = well.empty_slots;
        })
  | inr (o, e) ↦
      rw (e, access)
        (elim (Verdict-cases (judge b.filesize n o)) [
          | inl (p, q, v) ↦ rw v (moved-IsWell b i ((o + n) % 2 ^ 64) idle well tt refl refl)
          | inr (inl (p, q, v)) ↦
              rw v (moved-IsWell b i ((o + n) % 2 ^ 64) (crossing i) well well.holds refl refl)
          | inr (inr (p, q, v)) ↦ rw v (moved-IsWell b i ((o + n) % 2 ^ 64) idle well tt refl refl)
        ])
]

-- An access of the thread keeps a buffer well.
access-IsWell :
    (n : ℕ) (b : Buffer) (at_ : At)
    → IsWell b at_
    → b.segment_idx + 4 < 2 ^ 64
    → IsWell (access n b at_).0 (access n b at_).1
unfolding access
access-IsWell n b idle well small = record {
  holds = refl;
  behind = well.behind;
  matched = well.matched;
  empty_slots = well.empty_slots;
}
access-IsWell n b (loaded i) well small = elim (Option-cases (b.segments (i % 3))) [
  | inl e ↦
      rw (e, access)
        (record {
          holds = tt;
          behind = well.behind;
          matched = well.matched;
          empty_slots = well.empty_slots;
        })
  | inr (o, e) ↦
      rw (e, access)
        (record {
          holds = (well.holds, in_use b i o well e);
          behind = well.behind;
          matched = well.matched;
          empty_slots = well.empty_slots;
        })
]
access-IsWell n b (copied i) well small = copied-IsWell n i b well
access-IsWell n b (crossing i) well small = emptied-IsWell b i well
access-IsWell n b (emptied i) well small = record {
  holds = well.holds;
  behind = well.behind;
  matched = let m = well.matched in omega arith;
  empty_slots = well.empty_slots;
}
access-IsWell n b (asked i) well small = record {
  holds = tt;
  behind = let u = well.holds in omega arith;
  matched = let m = well.matched in let u = well.holds in omega arith;
  empty_slots = λ k h g. well.empty_slots k h (let u = well.holds in omega arith);
}

abbrev with_next : Buffer → Buffer
with_next b = record b {
  segments = set_slot (b.make_segment_idx % 3) (some 0) b.segments;
  make_segment_idx = (b.make_segment_idx + 1) % 2 ^ 64;
  requested = b.requested - 1;
}

Holds-more :
    (at_ : At) (idx make : ℕ)
    → Holds at_ idx make
    → make < 2 ^ 64 - 1
    → Holds at_ idx ((make + 1) % 2 ^ 64)
Holds-more idle idx make h small = tt
Holds-more (loaded i) idx make h small = h
Holds-more (copied i) idx make h small = (h.0, omega arith)
Holds-more (crossing i) idx make h small = (h.0, omega arith)
Holds-more (emptied i) idx make h small = (h.0, omega arith)
Holds-more (asked i) idx make h small = (h.0, omega arith)

-- A segment is asked for only behind an emptied slot, and an emptied slot had a segment.
asked_for-ahead : (at_ : At) → (asked_for at_ ≤ ahead at_) × (ahead at_ ≤ 1)
asked_for-ahead idle = omega arith
asked_for-ahead (loaded i) = omega arith
asked_for-ahead (copied i) = omega arith
asked_for-ahead (crossing i) = omega arith
asked_for-ahead (emptied i) = omega arith
asked_for-ahead (asked i) = omega arith

ahead-Holds : (at_ : At) (idx make : ℕ) → Holds at_ idx make → idx ≤ make → idx + ahead at_ ≤ make
ahead-Holds idle idx make h le = omega arith
ahead-Holds (loaded i) idx make h le = omega arith
ahead-Holds (copied i) idx make h le = omega arith
ahead-Holds (crossing i) idx make h le = omega arith
ahead-Holds (emptied i) idx make h le = omega arith
ahead-Holds (asked i) idx make h le = omega arith

with_next-IsWell :
    (b : Buffer) (at_ : At)
    → IsWell b at_
    → 0 < b.requested
    → b.segment_idx + 4 < 2 ^ 64
    → IsWell (with_next b) at_
with_next-IsWell b at_ well asked_ small =
    let m = well.matched in
    let bounds = asked_for-ahead at_ in
    let low = ahead-Holds at_ b.segment_idx b.make_segment_idx well.holds well.behind in
    record {
      holds = Holds-more at_ b.segment_idx b.make_segment_idx well.holds (omega arith);
      behind = let h = well.behind in omega arith;
      matched = omega arith;
      empty_slots = λ k h g.
          set_slot_other (b.make_segment_idx % 3) (k % 3) (some 0) b.segments (omega arith)
          ∙ well.empty_slots k (omega arith) g;
    }

-- A requested preparation finds its slot empty, and keeps a buffer well.
prep_next_segment-IsWell :
    (b : Buffer) (at_ : At)
    → IsWell b at_
    → 0 < b.requested
    → b.segment_idx + 4 < 2 ^ 64
    → (b' : Buffer) × (prep_next_segment b ≡ prepared b') × IsWell b' at_
unfolding prep_next_segment
prep_next_segment-IsWell b at_ well asked_ small =
    let free =
      well.empty_slots b.make_segment_idx (omega arith)
        (omega (arith, well.matched, asked_for-ahead at_)) in
    (with_next b, rw (free, prep_next_segment) refl, with_next-IsWell b at_ well asked_ small)

-- The buffers that steps lead to before the numbers of the segments wrap.
pub data Run (filesize : ℕ) : Buffer → At → Type 0 where
  start : Run filesize (new_buffer filesize) idle
  next :
      (b b' : Buffer) (at_ at' : At)
      → Run filesize b at_
      → b.segment_idx + 4 < 2 ^ 64
      → Step b at_ b' at'
      → Run filesize b' at'

Step-IsWell :
    (b : Buffer) (at_ : At) (b' : Buffer) (at' : At)
    → IsWell b at_
    → b.segment_idx + 4 < 2 ^ 64
    → Step b at_ b' at'
    → IsWell b' at'
Step-IsWell b at_ _ _ well small (accesses n _ _) = access-IsWell n b at_ well small
Step-IsWell b at_ b' _ well small (prepares _ _ _ asked_ e) =
    let (c, f, w) = prep_next_segment-IsWell b at_ well asked_ small in
    subst (λ x. IsWell x at_) (ap (λ p. elim p [ prepared x ↦ x | failed ↦ b ]) (sym f ∙ e)) w

Run-IsWell : (filesize : ℕ) (b : Buffer) (at_ : At) → Run filesize b at_ → IsWell b at_
Run-IsWell filesize _ _ start = new_buffer-IsWell filesize
Run-IsWell filesize b' at' (next b _ at_ _ r small s) =
    Step-IsWell b at_ b' at' (Run-IsWell filesize b at_ r) small s

-- With one thread that reserves, however its accesses and the calls of prep_next_segment on the io_service,
-- which runs one at a time, are interleaved, before the numbers of the segments wrap: the assertion of prep_next_segment holds
-- whenever a preparation is requested.
pub Run-prepares :
    (filesize : ℕ) (b : Buffer) (at_ : At)
    → Run filesize b at_
    → 0 < b.requested
    → b.segment_idx + 4 < 2 ^ 64
    → (b' : Buffer) × (prep_next_segment b ≡ prepared b')
Run-prepares filesize b at_ r asked_ small =
    let (b', e, _) = prep_next_segment-IsWell b at_ (Run-IsWell filesize b at_ r) asked_ small in
    (b', e)
