-- ===== src/Tests/Decisions.antt =====
-- Runs of rtb/common/decision_tree.hpp, on the table of examples/bidder/http_bidder_test.cpp: user
-- data, no bid, auction.
use vanilla_rtb.Base.{ℕ, ◌≡◌, refl, Bool, true, false, List, [], ◌∷◌, ◌++◌, arith, pos, negsuc}
use vanilla_rtb.Decision.{Action, Tree, Run, execute}
use vanilla_rtb.Decision.Forward.{IsForward, execute-finishes}
use vanilla_rtb.Decision.Plans.{Plan, stop, test, lay_out, execute-outcome}

-- The rows that have run; the state holds what the first row answers.
abbrev Trace : Type 0
Trace = Bool × List ℕ

abbrev visit : ℕ → Trace → Trace
visit n (b, rows) = (b, rows ++ n ∷ [])

abbrev table : Tree Trace
table =
    record {
      row_num = 0;
      node = record { f = λ s. (s.0, visit 0 s); next_true = pos 2; next_false = pos 1 };
    }
    ∷ record {
      row_num = 1;
      node = record { f = λ s. (true, visit 1 s); next_true = negsuc 0; next_false = negsuc 0 };
    }
    ∷ record {
      row_num = 2;
      node = record { f = λ s. (false, visit 2 s); next_true = negsuc 0; next_false = negsuc 0 };
    }
    ∷ []

abbrev bad_row : Action Trace
bad_row = record {
  row_num = 0;
  node = record { f = λ s. (true, s); next_true = negsuc 1; next_false = pos 0 };
}

matched : execute 3 table (true, []) ≡ Run.finished (true, 0 ∷ 2 ∷ [])
unfolding execute
matched = refl

unmatched : execute 3 table (false, []) ≡ Run.finished (false, 0 ∷ 1 ∷ [])
unfolding execute
unmatched = refl

-- A negative code other than EXIT is an index out of range, and so is the row after the last.
out_of_range : execute 3 (bad_row ∷ []) (true, []) ≡ Run.thrown (true, [])
unfolding execute
out_of_range = refl

table-IsForward : IsForward table
table-IsForward = omega arith

execute-finishes_example : (t : Trace) × (execute 3 table (true, []) ≡ Run.finished t)
execute-finishes_example =
    execute-finishes 3 table (true, []) table-IsForward (omega arith) (omega arith)

-- No bid without user data, an auction with it.
abbrev has_data : Trace → Bool × Trace
has_data s = (s.0, visit 0 s)

abbrev auction : Plan Trace
auction = test (λ s. (true, visit 1 s)) stop stop

abbrev no_bid : Plan Trace
no_bid = test (λ s. (false, visit 2 s)) stop stop

execute-outcome_example :
    execute 3 (lay_out 0 (test has_data auction no_bid)) (false, [])
    ≡ Run.finished (false, 0 ∷ 2 ∷ [])
execute-outcome_example =
    execute-outcome has_data auction no_bid (false, []) 3 (omega arith) (omega arith)
