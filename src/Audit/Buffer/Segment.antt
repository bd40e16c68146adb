-- ===== src/Audit/Buffer/Segment.antt =====
-- What threads get from one segment.
use vanilla_rtb.Base.{
  ℕ, ◌+◌, ◌-◌, ◌%◌, ◌^◌, ◌≤◌, ◌<◌, ◌≡◌, ◌⊎◌, subst, sym, List, [], ◌∷◌, arith, All, inl, inr,
}
use vanilla_rtb.Audit.Buffer.{Verdict, granted, crossed, full, judge, reserve_segment, reserve_all}

abbrev pub sum : List ℕ → ℕ
sum [] = 0
sum (n ∷ ns) = n + sum ns

abbrev pub IsFull : Verdict → Type 0
IsFull (granted pos n) = ⊥
IsFull (crossed pos n) = ⊥
IsFull (full pos n) = Unit {0}

-- The ranges granted follow each other from `start` on and end before the last byte; at most one
-- reservation crosses the end, and all that come after it are turned away.
abbrev pub AreSound : ℕ → ℕ → List Verdict → Type 0
AreSound filesize start [] = Unit {0}
AreSound filesize start (granted pos n ∷ vs) =
    (start ≤ pos) × (pos + n < filesize - 1) × AreSound filesize (pos + n) vs
AreSound filesize start (crossed pos n ∷ vs) = (start ≤ pos) × (pos < filesize - 1) × All IsFull vs
AreSound filesize start (full pos n ∷ vs) = All IsFull vs

reserve_all-IsFull :
    (filesize : ℕ) (sizes : List ℕ) (offset : ℕ)
    → 0 < filesize
    → filesize < 2 ^ 64
    → filesize - 1 ≤ offset
    → offset + sum sizes < 2 ^ 64
    → All IsFull (reserve_all filesize sizes offset)
unfolding reserve_all reserve_segment
reserve_all-IsFull filesize [] offset p w h s = tt
reserve_all-IsFull filesize (n ∷ sizes) offset p w h s = (
  ground arith,
  reserve_all-IsFull filesize sizes ((offset + n) % 2 ^ 64) p w (omega arith) (omega arith),
)

judge-cases :
    (filesize n pos : ℕ)
    → 0 < filesize
    → filesize < 2 ^ 64
    → pos + n < 2 ^ 64
    → ((judge filesize n pos ≡ crossed pos n) × (pos < filesize - 1) × (filesize - 1 ≤ pos + n))
      ⊎ (((judge filesize n pos ≡ full pos n) × (filesize - 1 ≤ pos))
          ⊎ ((judge filesize n pos ≡ granted pos n) × (pos + n < filesize - 1)))
judge-cases filesize n pos p w s = ground arith

-- Whatever number of threads reserve in a segment, in whatever order they reach its counter, as long as
-- the counter does not wrap: the granted ranges are disjoint and stay before the last byte, and no more
-- than one thread is told to switch to the next segment.
pub reserve_all-AreSound :
    (filesize : ℕ) (sizes : List ℕ) (start offset : ℕ)
    → 0 < filesize
    → filesize < 2 ^ 64
    → start ≤ offset
    → offset + sum sizes < 2 ^ 64
    → AreSound filesize start (reserve_all filesize sizes offset)
unfolding reserve_all reserve_segment
reserve_all-AreSound filesize [] start offset p w h s = tt
reserve_all-AreSound filesize (n ∷ sizes) start offset p w h s =
    elim (judge-cases filesize n offset p w (omega arith)) [
      | inl (e, before, over) ↦
          subst (λ v. AreSound filesize start (v ∷ rest)) (sym e)
            (
              h,
              before,
              reserve_all-IsFull filesize sizes ((offset + n) % 2 ^ 64) p w (omega arith)
                  (omega arith),
            )
      | inr (inl (e, behind)) ↦
          subst (λ v. AreSound filesize start (v ∷ rest)) (sym e)
            (reserve_all-IsFull filesize sizes ((offset + n) % 2 ^ 64) p w (omega arith)
              (omega arith))
      | inr (inr (e, fits)) ↦
          subst (λ v. AreSound filesize start (v ∷ rest)) (sym e)
            (
              h,
              fits,
              reserve_all-AreSound filesize sizes (offset + n) ((offset + n) % 2 ^ 64) p w
                  (omega arith) (omega arith),
            )
    ]
  where
    rest : List Verdict
    rest = reserve_all filesize sizes ((offset + n) % 2 ^ 64)
