-- ===== src/Processes/Waiting.antt =====
-- When `wait` returns, and what children are left.
use vanilla_rtb.Base.{
  ℕ, ◌≡◌, ◌≢◌, refl, sym, ap, ◌∙◌, subst, Bool, true, false, List, [], ◌∷◌, ◌==◌, ==_iff, ==_ne, ℤ,
  pos, negsuc, is_empty, if◌then◌else◌, Bool-cases, inl, inr,
}
use vanilla_rtb.Processes.{contains, erase, intersection, returned, blocked, wait_loop, wait}

-- The answers of the system that `wait` needs.
abbrev pub came : ℕ → List ℤ → Bool
came q [] = false
came q (pos w ∷ answers) = let rest = came q answers in if q == w then true else rest
came q (negsuc n ∷ answers) = came q answers

contains-erase_self : (p : ℕ) (ps : List ℕ) → contains p (erase p ps) ≡ false
contains-erase_self p [] = refl
contains-erase_self p (x ∷ ps) = elim (Bool-cases (p == x)) [
  | inl e ↦ rw e (contains-erase_self p ps)
  | inr e ↦ rw e (rw e (contains-erase_self p ps))
]

contains-erase_other : (p q : ℕ) (ps : List ℕ) → q ≢ p → contains q (erase p ps) ≡ contains q ps
contains-erase_other p q [] ne = refl
contains-erase_other p q (x ∷ ps) ne = elim (Bool-cases (p == x)) [
  | inl e ↦
      let same = (==_iff p x).0 e in
      rw (e, ==_ne q x (λ h. ne (h ∙ sym same))) (contains-erase_other p q ps ne)
  | inr e ↦ rw e (ap (λ b. if q == x then true else b) (contains-erase_other p q ps ne))
]

contains_head : (x : ℕ) (xs : List ℕ) → contains x (x ∷ xs) ≡ true
contains_head x xs = rw ((==_iff x x).1 refl) refl

unequal : (q w : ℕ) → (q == w) ≡ false → q ≢ w
unequal q w e same = absurd (let t = (==_iff q w).1 same in cc)

-- The steps of the loop.
wait_loop-done :
    (missing subs : List ℕ) (answers : List ℤ)
    → is_empty missing ≡ true
    → wait_loop missing subs answers ≡ (subs, returned)
unfolding wait_loop
wait_loop-done missing subs [] e = rw e refl
wait_loop-done missing subs (pos w ∷ answers) e = rw e refl
wait_loop-done missing subs (negsuc n ∷ answers) e = rw e refl

wait_loop-reaped :
    (missing subs : List ℕ) (w : ℕ) (answers : List ℤ)
    → is_empty missing ≡ false
    → contains w missing ≡ true
    → wait_loop missing subs (pos w ∷ answers) ≡ wait_loop (erase w missing) (erase w subs) answers
unfolding wait_loop
wait_loop-reaped missing subs w answers e c = rw (e, c) refl

wait_loop-other :
    (missing subs : List ℕ) (w : ℕ) (answers : List ℤ)
    → is_empty missing ≡ false
    → contains w missing ≡ false
    → wait_loop missing subs (pos w ∷ answers) ≡ wait_loop missing subs answers
unfolding wait_loop
wait_loop-other missing subs w answers e c = rw (e, c) refl

wait_loop-failed :
    (missing subs : List ℕ) (n : ℕ) (answers : List ℤ)
    → is_empty missing ≡ false
    → wait_loop missing subs (negsuc n ∷ answers) ≡ wait_loop missing subs answers
unfolding wait_loop
wait_loop-failed missing subs n answers e = rw e refl

different : (q w : ℕ) (b : Bool) → (if q == w then true else b) ≡ true → q ≢ w → b ≡ true
different q w b h ne = rw (==_ne q w ne) at h

-- What is known of the answers behind the first.
module _ (missing : List ℕ) (w : ℕ) (answers : List ℤ)
    (all : (q : ℕ) → contains q missing ≡ true → came q (pos w ∷ answers) ≡ true) where
  came_reaped : (q : ℕ) → contains q (erase w missing) ≡ true → came q answers ≡ true
  came_reaped q h = different q w (came q answers) (all q there) other
    where
      other : q ≢ w
      other e = absurd (
          let self = contains-erase_self w missing in
          let found = subst (λ p. contains p (erase w missing) ≡ true) e h in cc)

      there : contains q missing ≡ true
      there = sym (contains-erase_other w q missing other) ∙ h

  came_other :
      contains w missing ≡ false → (q : ℕ) → contains q missing ≡ true → came q answers ≡ true
  came_other c q h =
      different q w (came q answers) (all q h)
        (λ e. absurd (let found = subst (λ p. contains p missing ≡ true) e h in cc))

-- The loop returns once the system has answered all that are missing, whatever else it answers, errors
-- included.
wait_loop-returns :
    (missing subs : List ℕ) (answers : List ℤ)
    → ((q : ℕ) → contains q missing ≡ true → came q answers ≡ true)
    → (wait_loop missing subs answers).1 ≡ returned
wait_loop-returns [] subs answers all = rw (wait_loop-done [] subs answers refl) refl
wait_loop-returns (x ∷ xs) subs [] all = absurd (let h = all x (contains_head x xs) in cc)
wait_loop-returns (x ∷ xs) subs (negsuc n ∷ answers) all =
    rw (wait_loop-failed (x ∷ xs) subs n answers refl) (wait_loop-returns (x ∷ xs) subs answers all)
wait_loop-returns (x ∷ xs) subs (pos w ∷ answers) all = elim (Bool-cases (contains w (x ∷ xs))) [
  | inl c ↦ rw (wait_loop-reaped (x ∷ xs) subs w answers refl c) (
      wait_loop-returns (erase w (x ∷ xs)) (erase w subs) answers
        (came_reaped (x ∷ xs) w answers all))
  | inr c ↦
      rw (wait_loop-other (x ∷ xs) subs w answers refl c)
        (wait_loop-returns (x ∷ xs) subs answers (came_other (x ∷ xs) w answers all c))
]

-- The children that the loop does not wait for stay.
wait_loop-others :
    (q : ℕ) (missing subs : List ℕ) (answers : List ℤ)
    → contains q missing ≡ false
    → contains q (wait_loop missing subs answers).0 ≡ contains q subs
wait_loop-others q [] subs answers h = rw (wait_loop-done [] subs answers refl) refl
wait_loop-others q (x ∷ xs) subs [] h = unfold wait_loop in refl
wait_loop-others q (x ∷ xs) subs (negsuc n ∷ answers) h =
    rw (wait_loop-failed (x ∷ xs) subs n answers refl) (wait_loop-others q (x ∷ xs) subs answers h)
wait_loop-others q (x ∷ xs) subs (pos w ∷ answers) h = elim (Bool-cases (contains w (x ∷ xs))) [
  | inl c ↦ rw (wait_loop-reaped (x ∷ xs) subs w answers refl c) (
      wait_loop-others q (erase w (x ∷ xs)) (erase w subs) answers
        (contains-erase_other w q (x ∷ xs) (apart c) ∙ h)
      ∙ contains-erase_other w q subs (apart c))
  | inr c ↦
      rw (wait_loop-other (x ∷ xs) subs w answers refl c)
        (wait_loop-others q (x ∷ xs) subs answers h)
]
  where
    apart : contains w (x ∷ xs) ≡ true → q ≢ w
    apart c e = absurd (let found = subst (λ p. contains p (x ∷ xs) ≡ false) e h in cc)

-- When the loop has returned, those that it waited for are no longer among the children.
wait_loop-gone :
    (q : ℕ) (missing subs : List ℕ) (answers : List ℤ)
    → contains q missing ≡ true
    → (wait_loop missing subs answers).1 ≡ returned
    → contains q (wait_loop missing subs answers).0 ≡ false
wait_loop-gone q [] subs answers h r = cc
wait_loop-gone q (x ∷ xs) subs [] h r = absurd (let b = blocked_at x xs subs in cc)
  where
    blocked_at : (x : ℕ) (xs subs : List ℕ) → (wait_loop (x ∷ xs) subs []).1 ≡ blocked
    blocked_at x xs subs = unfold wait_loop in refl
wait_loop-gone q (x ∷ xs) subs (negsuc n ∷ answers) h r =
    rw (wait_loop-failed (x ∷ xs) subs n answers refl) (
      wait_loop-gone q (x ∷ xs) subs answers h
        (rw (wait_loop-failed (x ∷ xs) subs n answers refl) at r))
wait_loop-gone q (x ∷ xs) subs (pos w ∷ answers) h r = elim (Bool-cases (contains w (x ∷ xs))) [
  | inl c ↦ rw (wait_loop-reaped (x ∷ xs) subs w answers refl c) (
      reaped c (wait_loop-gone q (erase w (x ∷ xs)) (erase w subs) answers)
        (rw (wait_loop-reaped (x ∷ xs) subs w answers refl c) at r))
  | inr c ↦ rw (wait_loop-other (x ∷ xs) subs w answers refl c) (
      wait_loop-gone q (x ∷ xs) subs answers h
        (rw (wait_loop-other (x ∷ xs) subs w answers refl c) at r))
]
  where
    reaped :
        contains w (x ∷ xs) ≡ true
        → (contains q (erase w (x ∷ xs)) ≡ true
            → (wait_loop (erase w (x ∷ xs)) (erase w subs) answers).1 ≡ returned
            → contains q (wait_loop (erase w (x ∷ xs)) (erase w subs) answers).0 ≡ false)
        → (wait_loop (erase w (x ∷ xs)) (erase w subs) answers).1 ≡ returned
        → contains q (wait_loop (erase w (x ∷ xs)) (erase w subs) answers).0 ≡ false
    reaped c gone r' = elim (Bool-cases (q == w)) [
      | inl e ↦
          let same = (==_iff q w).0 e in
          wait_loop-others q (erase w (x ∷ xs)) (erase w subs) answers
            (ap (λ p. contains p (erase w (x ∷ xs))) same ∙ contains-erase_self w (x ∷ xs))
          ∙ ap (λ p. contains p (erase w subs)) same
          ∙ contains-erase_self w subs
      | inr e ↦ gone (contains-erase_other w q (x ∷ xs) (unequal q w e) ∙ h) r'
    ]

-- Once the system has answered the ids of all children that `wait` was given and that are the parent's own,
-- in any order and among other answers, `wait` returns; those children are forgotten, and the others
-- kept.
pub wait-returns :
    (own sub_procs : List ℕ) (answers : List ℤ)
    → ((q : ℕ) → contains q (intersection own sub_procs) ≡ true → came q answers ≡ true)
    → ((wait own sub_procs answers).1 ≡ returned)
      × ((q : ℕ)
          → contains q (intersection own sub_procs) ≡ true
          → contains q (wait own sub_procs answers).0 ≡ false)
      × ((q : ℕ)
          → contains q (intersection own sub_procs) ≡ false
          → contains q (wait own sub_procs answers).0 ≡ contains q own)
unfolding wait
wait-returns own sub_procs answers all =
    let r = wait_loop-returns (intersection own sub_procs) own answers all in
    (
      r,
      λ q h. wait_loop-gone q (intersection own sub_procs) own answers h r,
      λ q h. wait_loop-others q (intersection own sub_procs) own answers h,
    )
