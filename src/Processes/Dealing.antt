-- ===== src/Processes/Dealing.antt =====
-- How values are dealt out to the children.

use native.Mathlib.Nat.{add-mod_left, mod-eq_of_lt}
use vanilla_rtb.Base.{
  ℕ, zero, suc, ◌+◌, ◌%◌, ◌<◌, ◌≡◌, refl, sym, ap, ◌∙◌, true, List, [], ◌∷◌, ◌++◌, map, Option,
  none, some, Text, length, get_elem?, get_elem?-lt, arith, leb, inl, inr, if◌then◌else◌,
  Bool-cases,
}
use vanilla_rtb.Processes.{PipeOp, write, close, dealt, deal, distribute_values}

-- The pipe after the `n`-th.
abbrev pub following : List ℕ → ℕ → ℕ
following pipes n = if leb (length pipes) (suc n) then 0 else suc n

-- The value `i` goes to the pipe that stands `i` places behind the `n`-th, counted in a round.
abbrev pub RoundRobin : List ℕ → ℕ → List Text → List PipeOp → Type 0
RoundRobin pipes n values ops =
    (i : ℕ) (v : Text)
    → get_elem? values i ≡ some v
    → (fd : ℕ) × (get_elem? pipes ((n + i) % length pipes) ≡ some fd)
      × (get_elem? ops i ≡ some (write fd v))

following-lt : (pipes : List ℕ) (n : ℕ) → n < length pipes → following pipes n < length pipes
following-lt pipes n h = ground arith

following-mod :
    (pipes : List ℕ) (n i : ℕ)
    → n < length pipes
    → (following pipes n + i) % length pipes ≡ (n + suc i) % length pipes
following-mod pipes n i h = elim (Bool-cases (leb (length pipes) (suc n))) [
  | inl e ↦ rw e (
      ap (λ m. m % length pipes) zero_first
      ∙ sym (add-mod_left (length pipes) i)
      ∙ ap (λ m. m % length pipes) (ground arith))
  | inr e ↦ rw e (ap (λ m. m % length pipes) (omega arith))
]
  where
    zero_first : 0 + i ≡ i
    zero_first = omega arith

deal-cons :
    (pipes : List ℕ) (n fd : ℕ) (v : Text) (vs : List Text)
    → get_elem? pipes n ≡ some fd
    → deal pipes n (v ∷ vs)
      ≡ (write fd v ∷ (deal pipes (following pipes n) vs).0, (deal pipes (following pipes n) vs).1)
unfolding deal
deal-cons pipes n fd v vs e = rw (e, deal) refl

mod_start : (n m : ℕ) → n < m → (n + 0) % m ≡ n
mod_start n m h = ap (λ k. k % m) (omega arith) ∙ mod-eq_of_lt h

deal-RoundRobin :
    (pipes : List ℕ) (n : ℕ) (values : List Text)
    → n < length pipes
    → ((deal pipes n values).1 ≡ true) × RoundRobin pipes n values (deal pipes n values).0
deal-RoundRobin pipes n [] h = (unfold deal in refl, λ i v e. cc)
deal-RoundRobin pipes n (value ∷ values) h =
    let (fd, e) = get_elem?-lt pipes n h in
    let (ok, rest) = deal-RoundRobin pipes (following pipes n) values (following-lt pipes n h) in
    rw (deal-cons pipes n fd value values e) (ok, place fd e rest)
  where
    place :
        (fd : ℕ)
        → get_elem? pipes n ≡ some fd
        → RoundRobin pipes (following pipes n) values (deal pipes (following pipes n) values).0
        → RoundRobin pipes n
            (value ∷ values)
            (write fd value ∷ (deal pipes (following pipes n) values).0)
    place fd e rest zero v same = (
      fd,
      ap (get_elem? pipes) (mod_start n (length pipes) h) ∙ e,
      ap (λ (o : Option Text). elim o [ none ↦ none | some x ↦ some (write fd x) ]) same,
    )
    place fd e rest (suc i) v same =
        let (fd', there, op) = rest i v same in
        (fd', ap (get_elem? pipes) (sym (following-mod pipes n i h)) ∙ there, op)

deal-length :
    (pipes : List ℕ) (n : ℕ) (values : List Text)
    → n < length pipes
    → length (deal pipes n values).0 ≡ length values
deal-length pipes n [] h = unfold deal in refl
deal-length pipes n (value ∷ values) h =
    let (fd, e) = get_elem?-lt pipes n h in
    rw (deal-cons pipes n fd value values e)
      (ap suc (deal-length pipes (following pipes n) values (following-lt pipes n h)))

-- With a pipe at least, every value is written once, the `i`-th to the pipe with the number `i` modulo the
-- number of pipes, and then each pipe is closed once.
pub distribute_values-RoundRobin :
    (pipes : List ℕ) (values : List Text)
    → 0 < length pipes
    → (ops : List PipeOp) × (distribute_values pipes values ≡ dealt (ops ++ map close pipes))
      × (length ops ≡ length values)
      × RoundRobin pipes 0 values ops
unfolding distribute_values
distribute_values-RoundRobin pipes values h =
    let (ok, placed) = deal-RoundRobin pipes 0 values h in
    ((deal pipes 0 values).0, rw (ok, distribute_values) refl, deal-length pipes 0 values h, placed)
