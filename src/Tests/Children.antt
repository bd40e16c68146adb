-- ===== src/Tests/Children.antt =====
-- Runs of rtb/core/process.hpp.
use vanilla_rtb.Base.{
  ℕ, ◌≡◌, refl, true, false, List, [], ◌∷◌, ◌++◌, map, Text, pos, negsuc, length, codes, arith, ℤ,
}
use vanilla_rtb.Processes.{
  contains, returned, blocked, wait, wait_loop, PipeOp, write, close, dealt, out_of_range, deal,
  distribute_values,
}
use vanilla_rtb.Processes.Waiting.{wait-returns}
use vanilla_rtb.Processes.Dealing.{RoundRobin, distribute_values-RoundRobin}

abbrev values : List Text
values = codes "a" ∷ codes "b" ∷ codes "c" ∷ []

three_values :
    distribute_values (7 ∷ 9 ∷ []) values
    ≡ dealt
        (write 7 (codes "a") ∷ write 9 (codes "b") ∷ write 7 (codes "c") ∷ close 7 ∷ close 9 ∷ [])
unfolding distribute_values deal
three_values = refl

no_pipe : distribute_values [] values ≡ out_of_range []
unfolding distribute_values deal
no_pipe = refl

distribute_values-RoundRobin_example :
    (ops : List PipeOp) × (distribute_values (7 ∷ 9 ∷ []) values
      ≡ dealt (ops ++ map close (7 ∷ 9 ∷ [])))
    × (length ops ≡ length values)
    × RoundRobin (7 ∷ 9 ∷ []) 0 values ops
distribute_values-RoundRobin_example =
    distribute_values-RoundRobin (7 ∷ 9 ∷ []) values (omega arith)

-- Of the children 3, 5 and 8 the parent waits for 5 and 8, and the system answers 3, an error, 8 and 5.
abbrev answers : List ℤ
answers = pos 3 ∷ negsuc 0 ∷ pos 8 ∷ pos 5 ∷ []

waited : wait (3 ∷ 5 ∷ 8 ∷ []) (5 ∷ 8 ∷ 9 ∷ []) answers ≡ (3 ∷ [], returned)
unfolding wait wait_loop
waited = refl

-- An error does not end the wait.
still_blocked : wait (3 ∷ []) (3 ∷ []) (negsuc 0 ∷ []) ≡ (3 ∷ [], blocked)
unfolding wait wait_loop
still_blocked = refl

wait-returns_example :
    ((wait (3 ∷ 5 ∷ 8 ∷ []) (5 ∷ 8 ∷ 9 ∷ []) answers).1 ≡ returned)
    × ((q : ℕ)
        → contains q (5 ∷ 8 ∷ []) ≡ true
        → contains q (wait (3 ∷ 5 ∷ 8 ∷ []) (5 ∷ 8 ∷ 9 ∷ []) answers).0 ≡ false)
    × ((q : ℕ)
        → contains q (5 ∷ 8 ∷ []) ≡ false
        → contains q (wait (3 ∷ 5 ∷ 8 ∷ []) (5 ∷ 8 ∷ 9 ∷ []) answers).0
          ≡ contains q (3 ∷ 5 ∷ 8 ∷ []))
wait-returns_example = wait-returns (3 ∷ 5 ∷ 8 ∷ []) (5 ∷ 8 ∷ 9 ∷ []) answers (λ q h. ground arith)
