-- ===== src/Budget/Authorize.antt =====
-- How much BudgetManager::authorize lets a campaign bid.
use vanilla_rtb.Base.{ℕ, ◌+◌, ◌*◌, ◌≤◌, ◌<◌, ◌≡◌, ◌⊎◌, ◌↔◌, arith}
use vanilla_rtb.Budget.{MetricType, undefined, cpm, cpc, cpa, CampaignBudget, authorize}

-- What one impression may cost by the metric: a thousandth of a CPM value, a whole CPC value.
abbrev pub Costs : MetricType → ℕ → ℕ → Type 0
Costs cpm value bid = bid * 1000 ≤ value
Costs cpc value bid = bid ≤ value
Costs undefined value bid = bid ≡ 0
Costs cpa value bid = bid ≡ 0

-- An authorised bid fits what is left of the day's limit and the price that the metric allows;
-- a campaign that has spent its limit, or whose metric is not served, bids nothing.
pub authorize_within :
    (b : CampaignBudget)
    → (b.day_budget_spent < b.day_budget_limit
        → b.day_budget_spent + authorize b ≤ b.day_budget_limit)
      × (b.day_budget_limit ≤ b.day_budget_spent → authorize b ≡ 0)
      × Costs b.metric.type b.metric.value (authorize b)
unfolding authorize
authorize_within b = (λ h. ground arith, λ h. ground arith, ground arith)

-- A campaign bids exactly when it has budget left, its metric is served and its price is not
-- rounded down to nothing.
pub authorize_pos :
    (b : CampaignBudget)
    → (0 < authorize b) ↔ (
        (b.day_budget_spent < b.day_budget_limit)
        × (((b.metric.type ≡ cpm) × (1000 ≤ b.metric.value))
            ⊎ ((b.metric.type ≡ cpc) × (0 < b.metric.value))))
unfolding authorize
authorize_pos b = (λ h. ground arith, λ h. ground arith)
