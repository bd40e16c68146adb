-- ===== src/Processes.antt =====
-- rtb/core/process.hpp: the parent of child processes. What ::wait and ::fork answer is the system's: it
-- comes in as a list. Writes to pipes and closings are a list of operations. A std::set of process ids is
-- a list.
pub mod Waiting
pub mod Dealing
use vanilla_rtb.Base.{
  ℕ, suc, ◌+◌, Bool, true, false, not, List, [], ◌∷◌, ◌++◌, map, Option, none, some, Text, ◌==◌, ℤ,
  pos, negsuc, length, get_elem?, filter, is_empty, leb, if◌then◌else◌,
}

abbrev pub contains : ℕ → List ℕ → Bool
contains pid [] = false
contains pid (p ∷ ps) = let rest = contains pid ps in if pid == p then true else rest

abbrev pub erase : ℕ → List ℕ → List ℕ
erase pid ps = filter (λ p. not (pid == p)) ps

-- std::set_intersection
abbrev pub intersection : List ℕ → List ℕ → List ℕ
intersection ps qs = filter (λ p. contains p qs) ps

-- Whether `wait` returns, or is still blocked in the system's call.
pub data Ended : Type 0 where
  returned blocked : Ended

-- The loop of Process::wait: the ids still to come, those of all children, and what ::wait answers. The
-- exception for a negative answer is constructed and not thrown.
unfoldable pub wait_loop : List ℕ → List ℕ → List ℤ → List ℕ × Ended
wait_loop missing sub_procs [] = (sub_procs, if is_empty missing then returned else blocked)
wait_loop missing sub_procs (pos wpid ∷ answers) =
    let reaped = wait_loop (erase wpid missing) (erase wpid sub_procs) answers in
    let other = wait_loop missing sub_procs answers in
    if is_empty missing
    then (sub_procs, returned)
    else if contains wpid missing
    then reaped
    else other
wait_loop missing sub_procs (negsuc n ∷ answers) =
    let failed = wait_loop missing sub_procs answers in
    if is_empty missing then (sub_procs, returned) else failed

-- Process::wait
unfoldable pub wait : List ℕ → List ℕ → List ℤ → List ℕ × Ended
wait own sub_procs answers = wait_loop (intersection own sub_procs) own answers

pub data PipeOp : Type 0 where
  write : ℕ → Text → PipeOp
  close : ℕ → PipeOp

-- How `distribute` ends: it returns, or `at` throws.
pub data Dealt : Type 0 where
  dealt : List PipeOp → Dealt
  out_of_range : List PipeOp → Dealt

-- The first loop of Process::distribute, from pipe `n` on.
unfoldable pub deal : List ℕ → ℕ → List Text → List PipeOp × Bool
deal sub_pipes n [] = ([], true)
deal sub_pipes n (value ∷ values) =
    let (ops, ok) = deal sub_pipes (if leb (length sub_pipes) (suc n) then 0 else suc n) values in
    elim (get_elem? sub_pipes n) [ none ↦ ([], false) | some fd ↦ (write fd value ∷ ops, ok) ]

-- Process::distribute
unfoldable pub distribute_values : List ℕ → List Text → Dealt
distribute_values sub_pipes values =
    let (ops, ok) = deal sub_pipes 0 values in
    if ok then dealt (ops ++ map close sub_pipes) else out_of_range ops
