-- ===== src/Decision/Plans.antt =====
-- Decision tables that lay out a plan of actions, and what `execute` makes of them.

use vanilla_rtb.Base.{
  ℕ, zero, suc, ◌+◌, ◌%◌, ◌^◌, ◌≤◌, ◌<◌, ◌≡◌, refl, ap, ◌∙◌, subst, Bool, true, false, List, [],
  ◌∷◌, ◌++◌, some, length, ℤ, pos, negsuc, get_elem?, length-append, get_elem?-left,
  get_elem?-right, none, if◌then◌else◌, arith, Bool-cases, inl, inr,
}
use vanilla_rtb.Decision.{Action, Tree, Run, next, execute}

-- A plan stops, or runs an action and goes on by its answer.
pub data Plan (S : Type 0) : Type 0 where
  stop : Plan S
  test : (S → Bool × S) → Plan S → Plan S → Plan S

module _ {S : Type 0} where
  -- The state in which a plan stops.
  abbrev pub outcome : Plan S → S → S
  outcome stop s = s
  outcome (test f p q) s =
      let on_true = outcome p (f s).1 in
      let on_false = outcome q (f s).1 in if (f s).0 then on_true else on_false

  abbrev pub rows : Plan S → ℕ
  rows stop = 0
  rows (test f p q) = suc (rows p + rows q)

  -- The codes as decision_tree.hpp has them: -1 to exit, 0 to go on with the following row, and otherwise
  -- the index of a row.
  abbrev pub code_next : Plan S → ℤ
  code_next stop = negsuc 0
  code_next (test _ _ _) = pos 0

  abbrev pub code_at : ℕ → Plan S → ℤ
  code_at i stop = negsuc 0
  code_at i (test _ _ _) = pos i

  abbrev pub row : ℕ → (S → Bool × S) → Plan S → Plan S → Action S
  row i f p q = record {
    row_num = i;
    node = record { f = f; next_true = code_next p; next_false = code_at (suc (i + rows p)) q };
  }

  -- The table of a plan from row `i` on: an action, then the rows of the plan for `true`, then those of the
  -- plan for `false`.
  abbrev pub lay_out : ℕ → Plan S → Tree S
  lay_out i stop = []
  lay_out i (test f p q) = row i f p q ∷ (lay_out (suc i) p ++ lay_out (suc (i + rows p)) q)

  length-lay_out : (i : ℕ) (p : Plan S) → length (lay_out i p) ≡ rows p
  length-lay_out i stop = refl
  length-lay_out i (test f p q) = ap suc (
      length-append (lay_out (suc i) p) (lay_out (suc (i + rows p)) q)
      ∙ rw (length-lay_out (suc i) p, length-lay_out (suc (i + rows p)) q) refl)

  -- `xs` stands in a table from row `i` on.
  abbrev Sits : List (Action S) → ℕ → Tree S → Type 0
  Sits xs i tree =
      (k : ℕ) (a : Action S) → get_elem? xs k ≡ some a → get_elem? tree (i + k) ≡ some a

  Sits-left :
      (x : Action S) (xs ys : List (Action S)) (i : ℕ) (tree : Tree S)
      → Sits (x ∷ (xs ++ ys)) i tree
      → Sits xs (suc i) tree
  Sits-left x xs ys i tree h k a e =
      subst (λ n. get_elem? tree n ≡ some a) (omega arith) (h (suc k) a (get_elem?-left xs ys k e))

  Sits-right :
      (x : Action S) (xs ys : List (Action S)) (i : ℕ) (tree : Tree S)
      → Sits (x ∷ (xs ++ ys)) i tree
      → Sits ys (suc (i + length xs)) tree
  Sits-right x xs ys i tree h k a e =
      subst (λ n. get_elem? tree n ≡ some a) (omega arith)
        (h (suc (length xs + k)) a (get_elem?-right xs ys k ∙ e))

  -- The rows of a plan are where their codes lead.
  abbrev Laid : Tree S → ℕ → Plan S → Type 0
  Laid tree i stop = Unit
  Laid tree i (test f p q) =
      (get_elem? tree i ≡ some (row i f p q)) × Laid tree (suc i) p × Laid tree (suc (i + rows p)) q

  lay_out-Laid : (i : ℕ) (p : Plan S) (tree : Tree S) → Sits (lay_out i p) i tree → Laid tree i p
  lay_out-Laid i stop tree h = tt
  lay_out-Laid i (test f p q) tree h =
      let ps = lay_out (suc i) p in
      let qs = lay_out (suc (i + rows p)) q in
      (
        subst (λ n. get_elem? tree n ≡ some (row i f p q)) (omega arith) (h 0 (row i f p q) refl),
        lay_out-Laid (suc i) p tree (Sits-left (row i f p q) ps qs i tree h),
        lay_out-Laid (suc (i + rows p)) q tree (
            subst (λ n. Sits qs (suc (i + n)) tree) (length-lay_out (suc i) p)
              (Sits-right (row i f p q) ps qs i tree h)),
      )

  -- The run goes on with a plan that begins at row `i`.
  abbrev enter : ℕ → Tree S → ℕ → Plan S → S → Run S
  enter fuel tree i stop s = Run.finished s
  enter fuel tree i (test f p q) s = elim (get_elem? tree i) [
    | none ↦ Run.thrown s
    | some a ↦ next fuel tree a s
  ]

  next-true :
      (fuel i : ℕ) (tree : Tree S) (f : S → Bool × S) (p q : Plan S) (s : S)
      → i + 1 < 2 ^ 32
      → (f s).0 ≡ true
      → next (suc fuel) tree (row i f p q) s ≡ enter fuel tree (suc i) p (f s).1
  unfolding next
  next-true fuel i tree f stop q s small e = rw (e, next) refl
  next-true fuel i tree f (test g p p') q s small e =
      let same : (i + 1) % 2 ^ 32 ≡ suc i = omega arith in rw (e, next) (rw same refl)

  next-false :
      (fuel i : ℕ) (tree : Tree S) (f : S → Bool × S) (p q : Plan S) (s : S)
      → (f s).0 ≡ false
      → next (suc fuel) tree (row i f p q) s ≡ enter fuel tree (suc (i + rows p)) q (f s).1
  unfolding next
  next-false fuel i tree f p stop s e = rw (e, next) refl
  next-false fuel i tree f p (test g q q') s e = rw (e, next) refl

  enter-outcome :
      (p : Plan S) (fuel i : ℕ) (tree : Tree S) (s : S)
      → Laid tree i p
      → rows p ≤ fuel
      → i + rows p < 2 ^ 32
      → enter fuel tree i p s ≡ Run.finished (outcome p s)
  enter-outcome stop fuel i tree s laid enough small = refl
  enter-outcome (test f p q) zero i tree s laid enough small = absurd (omega arith)
  enter-outcome (test f p q) (suc fuel) i tree s (here, on_true, on_false) enough small =
      rw (here, enter)
        (elim (Bool-cases (f s).0) [
          | inl e ↦
              next-true fuel i tree f p q s (omega arith) e
              ∙ enter-outcome p fuel (suc i) tree (f s).1 on_true (omega arith) (omega arith)
              ∙ rw e refl
          | inr e ↦
              next-false fuel i tree f p q s e
              ∙ enter-outcome q fuel (suc (i + rows p)) tree (f s).1 on_false (omega arith)
                  (omega arith)
              ∙ rw e refl
        ])

  -- The table of a plan with an action and fewer than 2 ^ 32 rows is executed, with as many rounds as it has
  -- rows, to the state in which the plan stops: an action that answers `true` is followed by the plan for
  -- `true`, one that answers `false` by the plan for `false`.
  pub execute-outcome :
      (f : S → Bool × S) (p q : Plan S) (s : S) (fuel : ℕ)
      → rows (test f p q) ≤ fuel
      → rows (test f p q) < 2 ^ 32
      → execute fuel (lay_out 0 (test f p q)) s ≡ Run.finished (outcome (test f p q) s)
  unfolding execute
  execute-outcome f p q s fuel enough small =
      enter-outcome (test f p q) fuel 0 (lay_out 0 (test f p q)) s
        (lay_out-Laid 0 (test f p q) (lay_out 0 (test f p q))
          (λ k a e. subst (λ n. get_elem? (lay_out 0 (test f p q)) n ≡ some a) (omega arith) e))
        enough (omega arith)
