-- ===== src/Base/Texts.antt =====
-- Texts as lists of bytes, and their comparison.
use Prim.Native.Nat.{ℕ, zero, suc, ◌+◌, ◌/◌, ◌%◌, ◌<◌}
use Prim.Native.Char.{code}
use Prim.Native.String.{String}
use mathlib.Core.Path.{◌≡◌, refl}
use mathlib.Core.Logic.{◌↔◌, inl, inr}
use mathlib.Core.Bool.{Bool, true, false, ◌&&◌}
use mathlib.Core.List.{List, [], ◌∷◌}
use native.Mathlib.Omega.{arith}
use vanilla_rtb.Base.Tests.{◌==◌, if◌then◌else◌, Bool-cases}
use vanilla_rtb.Base.Lists.{All}

abbrev pub Text : Type 0
Text = List ℕ

abbrev pub codes : String → Text
codes String.[] = []
codes (String.◌∷◌ c s) = code c ∷ codes s

abbrev pub text_eq : Text → Text → Bool
text_eq [] [] = true
text_eq [] (d ∷ ds) = false
text_eq (c ∷ cs) [] = false
text_eq (c ∷ cs) (d ∷ ds) = (c == d) && text_eq cs ds

pub text_eq_iff : (s t : Text) → (text_eq s t ≡ true) ↔ (s ≡ t)
text_eq_iff [] [] = (λ _. refl, λ _. refl)
text_eq_iff [] (d ∷ ds) = (λ e. cc, λ e. cc)
text_eq_iff (c ∷ cs) [] = (λ e. cc, λ e. cc)
text_eq_iff (c ∷ cs) (d ∷ ds) = ground (arith, text_eq_iff cs ds)

-- `std::to_string` of an unsigned number, the last digit first; `f + 1` digits are written at most.
unfoldable pub decimal_onto : ℕ → ℕ → Text → Text
decimal_onto zero n rest = (48 + n % 10) ∷ rest
decimal_onto (suc f) n rest =
    let more = decimal_onto f (n / 10) ((48 + n % 10) ∷ rest) in
    if n / 10 == 0 then (48 + n % 10) ∷ rest else more

-- A `uint64_t` has 20 digits at most.
unfoldable pub to_string : ℕ → Text
unfolding decimal_onto
to_string n = decimal_onto 19 n []

module _ (P : ℕ → Type 0) (digit : (d : ℕ) → d < 10 → P (48 + d)) where
  decimal_onto-All :
      (f n : ℕ) (rest : Text)
      → All P rest
      → (c : ℕ) × (cs : Text) × (decimal_onto f n rest ≡ c ∷ cs) × All P (c ∷ cs)
  unfolding decimal_onto
  decimal_onto-All zero n rest h = (48 + n % 10, rest, refl, (digit (n % 10) (omega arith), h))
  decimal_onto-All (suc f) n rest h = elim (Bool-cases (n / 10 == 0)) [
    | inl e ↦ (48 + n % 10, rest, rw e refl, (digit (n % 10) (omega arith), h))
    | inr e ↦
        let (c, cs, same, all) =
          decimal_onto-All f (n / 10) ((48 + n % 10) ∷ rest) (digit (n % 10) (omega arith), h) in
        (c, cs, rw e same, all)
  ]

  -- A number is written with at least one character, all of them digits.
  pub to_string-All : (n : ℕ) → (c : ℕ) × (cs : Text) × (to_string n ≡ c ∷ cs) × All P (c ∷ cs)
  unfolding to_string
  to_string-All n = decimal_onto-All 19 n [] tt
