-- ===== src/Budget/Spending.antt =====
-- What a day of price updates does to a campaign's budget.
use vanilla_rtb.Base.{ℕ, ◌+◌, ◌*◌, ◌^◌, ◌≤◌, ◌<◌, ◌≡◌, refl, ◌⊎◌, inr, List, [], ◌∷◌, arith}
use vanilla_rtb.Budget.{CampaignBudget, update_price, authorize}

abbrev pub sum : List ℕ → ℕ
sum [] = 0
sum (x ∷ xs) = x + sum xs

unfoldable pub spend_all : CampaignBudget → List ℕ → CampaignBudget
spend_all b [] = b
spend_all b (p ∷ ps) = spend_all (update_price b p) ps

-- No micro dollar is lost or made up: the limit falls by what is spent, and what was spent and
-- overdrawn is what was charged. The sums must stay below 2 ^ 64.
pub spend_all-conserves :
    (b : CampaignBudget) (ps : List ℕ)
    → b.day_budget_limit + b.day_budget_spent + b.day_budget_overdraft + sum ps < 2 ^ 64
    → let c = spend_all b ps in
      (c.day_budget_limit + c.day_budget_spent ≡ b.day_budget_limit + b.day_budget_spent)
      × (c.day_budget_spent + c.day_budget_overdraft
          ≡ b.day_budget_spent + b.day_budget_overdraft + sum ps)
unfolding spend_all update_price
spend_all-conserves b [] h = (refl, omega arith)
spend_all-conserves b (p ∷ ps) h = ground (arith, spend_all-conserves (update_price b p) ps)

spend_all-empty :
    (b : CampaignBudget) (ps : List ℕ)
    → b.day_budget_limit ≡ 0
    → (spend_all b ps).day_budget_limit ≡ 0
unfolding spend_all update_price
spend_all-empty b [] h = h
spend_all-empty b (p ∷ ps) h = spend_all-empty (update_price b p) ps (ground arith)

-- A charge is overdrawn only once the limit is used up.
spend_all-overdraws :
    (b : CampaignBudget) (ps : List ℕ)
    → ((spend_all b ps).day_budget_limit ≡ 0)
      ⊎ ((spend_all b ps).day_budget_overdraft ≡ b.day_budget_overdraft)
unfolding spend_all update_price
spend_all-overdraws b [] = inr refl
spend_all-overdraws b (p ∷ ps) =
    ground (arith, spend_all-empty (update_price b p) ps, spend_all-overdraws (update_price b p) ps)

-- A fresh campaign is silent once half of its limit is spent: a charge lowers the limit and raises
-- the sum spent, and `authorize` then compares the one with the other. The day's sums must stay
-- below 2 ^ 64.
pub authorize-half_spent :
    (b : CampaignBudget) (ps : List ℕ)
    → b.day_budget_spent ≡ 0
    → b.day_budget_limit + b.day_budget_overdraft + sum ps < 2 ^ 64
    → b.day_budget_limit ≤ 2 * sum ps
    → authorize (spend_all b ps) ≡ 0
unfolding authorize
authorize-half_spent b ps h lim half =
    ground (arith, spend_all-conserves b ps (omega arith), spend_all-overdraws b ps)
