-- ===== src/Audit/Buffer/Granted.antt =====
-- Which requests a thread alone is granted.
use vanilla_rtb.Base.{
  ℕ, zero, suc, ◌+◌, ◌-◌, ◌%◌, ◌^◌, ◌≤◌, ◌<◌, ◌≡◌, refl, sym, ap, ◌∙◌, some, arith, inl, inr, ◌⊎◌,
  false, Option-cases, subst, ltb,
}
use vanilla_rtb.Audit.Buffer.Slots.{set_slot_self}
use vanilla_rtb.Audit.Buffer.{
  Buffer, granted, crossed, full, judge, Turn, position, again, reserve_segment, reserve_turn,
  spinning, at, reserve_loop, reserve, set_slot, last_pos,
}

-- A request as large as the check allows is granted at no offset.
judge_largest :
    (filesize pos : ℕ)
    → 0 < filesize
    → filesize ≤ 2 ^ 63
    → (judge filesize (filesize - 1) pos ≡ crossed pos (filesize - 1))
      ⊎ (judge filesize (filesize - 1) pos ≡ full pos (filesize - 1))
judge_largest filesize pos p w = ground arith

reserve_turn_largest :
    (b : Buffer)
    → 0 < b.filesize
    → b.filesize ≤ 2 ^ 63
    → ((reserve_turn (b.filesize - 1) b).1 ≡ again)
      × ((reserve_turn (b.filesize - 1) b).0.filesize ≡ b.filesize)
unfolding reserve_turn reserve_segment
reserve_turn_largest b p w = elim (Option-cases (b.segments (b.segment_idx % 3))) [
  | inl e ↦ rw (e, reserve_turn) (refl, refl)
  | inr (o, e) ↦
      rw (e, reserve_turn)
        (elim (judge_largest b.filesize o p w) [
          | inl v ↦ rw v (refl, refl)
          | inr v ↦ rw v (refl, refl)
        ])
]

reserve_loop-again :
    (turns n : ℕ) (b : Buffer)
    → (reserve_turn n b).1 ≡ again
    → reserve_loop (suc turns) n b ≡ reserve_loop turns n (reserve_turn n b).0
unfolding reserve_loop
reserve_loop-again turns n b e = rw (e, reserve_loop) refl

reserve_loop_largest :
    (turns n : ℕ) (b : Buffer)
    → 0 < b.filesize
    → b.filesize ≤ 2 ^ 63
    → n ≡ b.filesize - 1
    → (reserve_loop turns n b).1 ≡ spinning
reserve_loop_largest zero n b p w e = unfold reserve_loop in refl
reserve_loop_largest (suc turns) n b p w e =
    let (more, same) = reserve_turn_largest b p w in
    rw (reserve_loop-again turns n b (ap (λ m. (reserve_turn m b).1) e ∙ more)) (
      reserve_loop_largest turns n (reserve_turn n b).0 (subst (λ m. 0 < m) (sym (size e same)) p)
        (subst (λ m. m ≤ 2 ^ 63) (sym (size e same)) w) (e ∙ ap (λ m. m - 1) (sym (size e same))))
  where
    size :
        n ≡ b.filesize - 1
        → (reserve_turn (b.filesize - 1) b).0.filesize ≡ b.filesize
        → (reserve_turn n b).0.filesize ≡ b.filesize
    size e same = ap (λ m. (reserve_turn m b).0.filesize) e ∙ same

passes :
    (filesize : ℕ)
    → 0 < filesize
    → filesize ≤ 2 ^ 63
    → ltb (last_pos filesize) (filesize - 1) ≡ false
passes filesize p w = ground arith

-- A request for one byte less than a segment has passes the check, and is never granted: the thread goes
-- round for ever, whatever is in the buffer.
pub reserve_largest :
    (turns : ℕ) (b : Buffer)
    → 0 < b.filesize
    → b.filesize ≤ 2 ^ 63
    → (reserve turns (b.filesize - 1) b).1 ≡ spinning
unfolding reserve
reserve_largest turns b p w =
    rw (passes b.filesize p w) (reserve_loop_largest turns (b.filesize - 1) b p w refl)

judge-granted :
    (filesize n pos : ℕ)
    → filesize ≤ 2 ^ 63
    → pos + n < filesize - 1
    → judge filesize n pos ≡ granted pos n
judge-granted filesize n pos w h = ground arith

reserve_turn-position :
    (n o : ℕ) (b : Buffer)
    → b.filesize ≤ 2 ^ 63
    → b.segments (b.segment_idx % 3) ≡ some o
    → o + n < b.filesize - 1
    → reserve_turn n b ≡ (
      record b { segments = set_slot (b.segment_idx % 3) (some ((o + n) % 2 ^ 64)) b.segments },
      position o,
    )
unfolding reserve_turn reserve_segment
reserve_turn-position n o b w e h =
    rw (e, reserve_turn) (rw (judge-granted b.filesize n o w h) refl)

reserve-loop :
    (turns n : ℕ) (b : Buffer)
    → ltb (last_pos b.filesize) n ≡ false
    → reserve turns n b ≡ reserve_loop turns n b
unfolding reserve
reserve-loop turns n b e = rw e refl

reserve_loop-position :
    (turns n pos : ℕ) (b b' : Buffer)
    → reserve_turn n b ≡ (b', position pos)
    → reserve_loop (suc turns) n b ≡ (b', at pos)
unfolding reserve_loop
reserve_loop-position turns n pos b b' e =
    rw (e, reserve_loop) (ap (λ (r : Buffer × Turn). (r.0, at pos)) e)

small_enough :
    (filesize n : ℕ) → filesize ≤ 2 ^ 63 → n < filesize - 1 → ltb (last_pos filesize) n ≡ false
small_enough filesize n w h = ground arith

-- A request that fits before the last byte of the current segment is granted in the first turn, at the
-- offset of the segment, which moves on by the request.
pub reserve-position :
    (turns n o : ℕ) (b : Buffer)
    → b.filesize ≤ 2 ^ 63
    → b.segments (b.segment_idx % 3) ≡ some o
    → o + n < b.filesize - 1
    → ((reserve (suc turns) n b).1 ≡ at o)
      × ((reserve (suc turns) n b).0.segments (b.segment_idx % 3) ≡ some (o + n))
reserve-position turns n o b w e h =
    rw
      (
        reserve-loop (suc turns) n b (small_enough b.filesize n w (omega arith)),
        reserve_loop-position turns n o b _ (reserve_turn-position n o b w e h),
      )
      (
        refl,
        set_slot_self (b.segment_idx % 3) (some ((o + n) % 2 ^ 64)) b.segments
            ∙ ap some (omega arith),
      )
