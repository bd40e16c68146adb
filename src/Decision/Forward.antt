-- ===== src/Decision/Forward.antt =====
-- Decision tables whose rows are numbered in order and only lead onwards: `execute` ends on them.
use vanilla_rtb.Base.{
  ℕ, zero, suc, ◌+◌, ◌≤◌, ◌<◌, ◌≡◌, refl, ◌⊎◌, inl, inr, [], ◌∷◌, some, arith, get_elem?,
  get_elem?-lt, length, Bool-cases, subst,
}
use mathlib.Core.Option.{some-injective}
use native.Mathlib.Nat.{add-zero, zero-add}
use vanilla_rtb.Decision.{Action, Tree, Run, Jump, exit, to_row, call, jump, next, execute}

-- A jump from row `i` of `n` that leaves the table, or leads to a later row of it.
abbrev pub LeadsOn : ℕ → ℕ → Jump → Type 0
LeadsOn i n exit = Unit
LeadsOn i n (to_row j) = (i < j) × (j < n)

-- The two forms of a jump, with the equation kept.
pub Jump-cases : (j : Jump) → (j ≡ exit) ⊎ ((i : ℕ) × (j ≡ to_row i))
Jump-cases exit = inl refl
Jump-cases (to_row i) = inr (i, refl)

module _ {S : Type 0} where
  abbrev pub IsRow : ℕ → ℕ → Action S → Type 0
  IsRow i n a =
      (a.row_num ≡ i)
      × LeadsOn i n (jump a a.node.next_true)
      × LeadsOn i n (jump a a.node.next_false)

  abbrev pub RowsFrom : ℕ → ℕ → Tree S → Type 0
  RowsFrom i n [] = Unit
  RowsFrom i n (a ∷ rest) = IsRow i n a × RowsFrom (suc i) n rest

  abbrev pub IsForward : Tree S → Type 0
  IsForward tree = RowsFrom 0 (length tree) tree

  RowsFrom-get_elem? :
      (i n k : ℕ) (tree : Tree S) {a : Action S}
      → RowsFrom i n tree
      → get_elem? tree k ≡ some a
      → IsRow (i + k) n a
  RowsFrom-get_elem? i n k [] h e = cc
  RowsFrom-get_elem? i n zero (b ∷ tree) {a} h e =
      rw (add-zero i) (subst (IsRow i n) (some-injective b a e) h.0)
  RowsFrom-get_elem? i n (suc k) (b ∷ tree) h e =
      rw (← shift) (RowsFrom-get_elem? (suc i) n k tree h.1 e)
    where
      shift : suc i + k ≡ i + suc k
      shift = omega arith

  -- Whatever the action answers, its row leads on.
  call-LeadsOn : (i n : ℕ) (a : Action S) (s : S) → IsRow i n a → LeadsOn i n (jump a (call a s).0)
  call-LeadsOn i n a s h = elim (Bool-cases (a.node.f s).0) [ inl e ↦ rw e h.1 | inr e ↦ rw e h.2 ]

  next_finishes :
      (fuel i : ℕ) (tree : Tree S) (a : Action S) (s : S)
      → IsForward tree
      → IsRow i (length tree) a
      → i < length tree
      → length tree ≤ fuel + i
      → (t : S) × (next fuel tree a s ≡ Run.finished t)
  unfolding next
  next_finishes zero i tree a s h row lt le = absurd (omega arith)
  next_finishes (suc fuel) i tree a s h row lt le = elim (Jump-cases (jump a (call a s).0)) [
    | inl e ↦ ((call a s).1, rw (e, next))
    | inr (j, e) ↦
        let on = subst (LeadsOn i (length tree)) e (call-LeadsOn i (length tree) a s row) in
        let (b, at_j) = get_elem?-lt tree j on.1 in
        let (t, rest) =
          next_finishes fuel j tree b (call a s).1 h
            (rw zero-add at (RowsFrom-get_elem? 0 (length tree) j tree h at_j)) on.1
            (omega arith) in
        (t, rw (e, next) (rw (at_j, next) rest))
  ]

  -- On a nonempty table of rows in order that only lead onwards, `execute` ends normally within as
  -- many rounds as there are rows: no row is out of range and no route loops.
  pub execute-finishes :
      (fuel : ℕ) (tree : Tree S) (s : S)
      → IsForward tree
      → 0 < length tree
      → length tree ≤ fuel
      → (t : S) × (execute fuel tree s ≡ Run.finished t)
  unfolding execute
  execute-finishes fuel [] s h lt le = elim lt [ ]
  execute-finishes fuel (a ∷ tree) s h lt le =
      next_finishes fuel 0 (a ∷ tree) a s h h.0 lt (omega arith)
