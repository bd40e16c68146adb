-- ===== src/Exchange/Collector/Best.antt =====
-- Which response wins, over any algorithm that keeps the contract of std::sort.
use mathlib.Core.List.{Mem, Perm, mem-cons, mem-cons_self}
use mathlib.Core.List.Perm
use mathlib.Core.Logic.Or
use native.Mathlib.Bridge.{le_prop}
use vanilla_rtb.Base.{
  ℕ, ◌≤◌, ◌≡◌, sym, subst, ◌≢◌, false, List, [], ◌∷◌, Option, none, some, arith, inl, inr,
  List-cases,
}
use vanilla_rtb.OpenRtb.{BidResponse}
use vanilla_rtb.Exchange.Collector.{Collector, first_price, above, prefers, response}

-- A price that is there is at least any that is there, and at least one that is not.
abbrev pub AtMost : Option ℕ → Option ℕ → Type 0
AtMost none q = Unit
AtMost (some p) none = ⊥
AtMost (some p) (some q) = p ≤ q

AtMost-prop : (p q : Option ℕ) → IsProp (AtMost p q)
AtMost-prop none q = hlevel
AtMost-prop (some p) none = hlevel
AtMost-prop (some p) (some q) = le_prop

AtMost-refl : (p : Option ℕ) → AtMost p p
AtMost-refl none = tt
AtMost-refl (some p) = omega arith

above-AtMost : (p q : Option ℕ) → above p q ≡ false → AtMost p q
above-AtMost none q h = tt
above-AtMost (some p) none h = cc
above-AtMost (some p) (some q) h = ground arith

-- No later element goes before an earlier one.
abbrev pub IsSorted : List BidResponse → Type 0
IsSorted [] = Unit
IsSorted (y ∷ ys) = ((z : BidResponse) → Mem z ys → prefers z y ≡ false) × IsSorted ys

-- What the standard says of the result of std::sort on `rs`.
pub record Sorts (sort : List BidResponse → List BidResponse) (rs : List BidResponse) : Type 0 where
  pub permutes : Perm (sort rs) rs
  pub orders : IsSorted (sort rs)

-- The element that a sorted list begins with is at most by none of the list.
IsSorted-head :
    (y : BidResponse) (ys : List BidResponse) (s : BidResponse)
    → IsSorted (y ∷ ys)
    → Mem s (y ∷ ys)
    → AtMost (first_price s) (first_price y)
IsSorted-head y ys s h m =
    Or.elim (AtMost-prop (first_price s) (first_price y)) (mem-cons.0 m)
      (λ e.
        subst (λ r. AtMost (first_price r) (first_price y)) (sym e) (AtMost-refl (first_price y)))
      (λ later. above-AtMost (first_price s) (first_price y) (h.0 s later))

-- `best` is one of the responses, and no response asks a higher price.
pub record IsBest (best : BidResponse) (rs : List BidResponse) : Type 0 where
  pub is_one : Mem best rs
  pub highest : (s : BidResponse) → Mem s rs → AtMost (first_price s) (first_price best)

sort-IsBest :
    (sort : List BidResponse → List BidResponse) (rs : List BidResponse)
    → Sorts sort rs
    → (y : BidResponse) (ys : List BidResponse) → sort rs ≡ y ∷ ys
    → IsBest y rs
sort-IsBest sort rs sorts y ys e = record {
  is_one = (Perm.mem_iff sorts.permutes).0 (rw e mem-cons_self);
  highest = λ s m.
      IsSorted-head y ys s (rw e at sorts.orders) (rw e at ((Perm.mem_iff sorts.permutes).1 m));
}

module _ {Log : Type 0} (sort : List BidResponse → List BidResponse) where
  response-cons :
      (c : Collector Log) (l : Log) (y : BidResponse) (ys : List BidResponse)
      → sort c.responses ≡ y ∷ ys
      → ((response sort c l).0 ≡ y) × ((response sort c l).1.responses ≡ y ∷ ys)
  unfolding response
  response-cons c l y ys e = ground arith

  -- Of a nonempty collection the response is one with the highest first price, a response with no
  -- bid counting as the lowest; and the collector still holds the same responses.
  pub response-IsBest :
      (c : Collector Log) (l : Log)
      → Sorts sort c.responses
      → c.responses ≢ []
      → IsBest (response sort c l).0 c.responses × Perm (response sort c l).1.responses c.responses
  response-IsBest c l sorts ne = elim (List-cases (sort c.responses)) [
    | inl e ↦ absurd (ne (sym (Perm.nil-eq (rw e at sorts.permutes))))
    | inr (y, ys, e) ↦
        let (best, kept) = response-cons c l y ys e in
        (rw best (sort-IsBest sort c.responses sorts y ys e), rw (kept, ← e) sorts.permutes)
  ]
