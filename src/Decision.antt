-- ===== src/Decision.antt =====
-- rtb/common/decision_tree.hpp and rtb/common/decision_router.hpp: the table of actions that
-- routes a request. The arguments that `execute` forwards, and all that an action changes through
-- them, are the state `S`. `next` is a loop written as a recursion; fuel bounds its rounds, and
-- `out_of_fuel` is the state of a run that has used it up.
pub mod Forward
pub mod Plans
use vanilla_rtb.Base.{
  ℕ, zero, suc, ◌+◌, ◌%◌, ◌^◌, Bool, true, false, List, [], ◌∷◌, Option, none, some, ◌==◌, ℤ, pos,
  negsuc, to_size, get_elem?, if◌then◌else◌,
}

-- What the value of an action means: the `CODES`, or the index of a row.
pub data Jump : Type 0 where
  exit : Jump
  to_row : ℕ → Jump

module _ (S : Type 0) where
  pub record Node : Type 0 where
    pub f : S → Bool × S
    pub next_true : ℤ
    pub next_false : ℤ

  pub record Action : Type 0 where
    pub row_num : ℕ
    pub node : Node

  abbrev pub Tree : Type 0
  Tree = List Action

  -- `thrown` is the `std::out_of_range` of `std::array::at`.
  pub data Run : Type 0 where
    finished thrown out_of_fuel : S → Run

module _ {S : Type 0} where
  -- decision_action::get
  abbrev pub get : Action S → Bool → ℤ
  get a res = if res then a.node.next_true else a.node.next_false

  -- decision_action::operator(), which also hands on what the action did.
  abbrev pub call : Action S → S → ℤ × S
  call a s = let (res, s') = a.node.f s in (get a res, s')

  -- The tests of `next`. `row_num` is a `uint32_t`, so the following row is taken modulo 2 ^ 32.
  abbrev pub jump : Action S → ℤ → Jump
  jump a (pos zero) = to_row ((a.row_num + 1) % 2 ^ 32)
  jump a (pos (suc n)) = to_row (suc n)
  jump a (negsuc zero) = exit
  jump a (negsuc (suc n)) = to_row (to_size (negsuc (suc n)))

  unfoldable pub next : ℕ → Tree S → Action S → S → Run S
  next zero tree a s = Run.out_of_fuel s
  next (suc fuel) tree a s =
      let (code, s') = call a s in
      elim (jump a code) [
        | exit ↦ Run.finished s'
        | to_row i ↦ elim (get_elem? tree i) [ none ↦ Run.thrown s' | some b ↦ next fuel tree b s' ]
      ]

  -- decision_tree_manager::execute, and `router::execute`, which calls it on its own copy.
  unfoldable pub execute : ℕ → Tree S → S → Run S
  unfolding next
  execute fuel tree s = elim (get_elem? tree 0) [
    | none ↦ Run.thrown s
    | some a ↦ next fuel tree a s
  ]
