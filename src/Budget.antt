-- ===== src/Budget.antt =====
-- examples/campaign/campaign_cache.hpp: the budget of a campaign and the manager that authorises
-- bids from it. Amounts are `uint64_t` micro dollars; every sum that the source lets wrap is taken
-- modulo 2 ^ 64, and a subtraction that it guards is written as it stands.
pub mod Authorize
pub mod Spending
use vanilla_rtb.Base.{ℕ, ◌+◌, ◌-◌, ◌/◌, ◌%◌, ◌^◌, min, Bool, true, false, leb, ltb, if◌then◌else◌}

pub data MetricType : Type 0 where
  undefined cpm cpc cpa : MetricType

pub record Metric : Type 0 where
  pub type : MetricType
  pub value : ℕ

pub record CampaignBudget : Type 0 where
  pub campaign_id : ℕ
  pub day_budget_limit : ℕ
  pub day_budget_spent : ℕ
  pub day_budget_overdraft : ℕ
  pub metric : Metric

-- The members' initialisers.
abbrev pub default_budget : CampaignBudget
default_budget = record {
  campaign_id = 0;
  day_budget_limit = 0;
  day_budget_spent = 0;
  day_budget_overdraft = 0;
  metric = record { type = undefined; value = 0 };
}

-- What boost::serialization::serialize of examples/campaign/serialization.hpp writes of a budget, read
-- into a fresh one: all but the overdraft.
abbrev pub kept_budget : CampaignBudget → CampaignBudget
kept_budget b = record default_budget {
  campaign_id = b.campaign_id;
  day_budget_limit = b.day_budget_limit;
  day_budget_spent = b.day_budget_spent;
  metric = b.metric;
}

-- update(types::budget)
unfoldable pub update_budget : CampaignBudget → ℕ → CampaignBudget
update_budget b value = record b { day_budget_limit = value }

-- update(types::price)
unfoldable pub update_price : CampaignBudget → ℕ → CampaignBudget
update_price b value =
    let min_value = min b.day_budget_limit value in
    record b {
      day_budget_limit = b.day_budget_limit - min_value;
      day_budget_spent = (b.day_budget_spent + min_value) % 2 ^ 64;
      day_budget_overdraft =
          if ltb min_value value
          then (b.day_budget_overdraft + (value - min_value)) % 2 ^ 64
          else b.day_budget_overdraft;
    }

-- The `switch` of BudgetManager::authorize, on what is left of the budget.
abbrev pub offer : MetricType → ℕ → ℕ → ℕ
offer cpm value left = min left (value / 1000)
offer cpc value left = min left value
offer undefined value left = 0
offer cpa value left = 0

-- BudgetManager::authorize
unfoldable pub authorize : CampaignBudget → ℕ
authorize b =
    if leb b.day_budget_limit b.day_budget_spent
    then 0
    else offer b.metric.type b.metric.value (b.day_budget_limit - b.day_budget_spent)
