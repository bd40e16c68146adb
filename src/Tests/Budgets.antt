-- ===== src/Tests/Budgets.antt =====
-- Runs of examples/campaign/campaign_cache.hpp: the budget manager.
use vanilla_rtb.Base.{ℕ, ◌+◌, ◌≡◌, refl, List, [], ◌∷◌, arith}
use vanilla_rtb.Budget.{CampaignBudget, default_budget, cpm, update_price, authorize}
use vanilla_rtb.Budget.Spending.{spend_all, spend_all-conserves, authorize-half_spent}

abbrev cpm_budget : CampaignBudget
cpm_budget = record default_budget {
  campaign_id = 7;
  day_budget_limit = 10000;
  metric = record { type = cpm; value = 2500000 };
}

abbrev charges : List ℕ
charges = 2500 ∷ 2500 ∷ []

-- A CPM of 2.5 dollars is 2500 micro dollars for one impression.
authorize_fresh : authorize cpm_budget ≡ 2500
unfolding authorize
authorize_fresh = refl

-- After two impressions half of the limit is left, and is not offered.
authorize_later : authorize (spend_all cpm_budget charges) ≡ 0
unfolding authorize spend_all update_price
authorize_later = refl

overdraft : (update_price cpm_budget 12000).day_budget_overdraft ≡ 2000
unfolding update_price
overdraft = refl

spend_all-conserves_example :
    let c = spend_all cpm_budget charges in c.day_budget_limit + c.day_budget_spent ≡ 10000
spend_all-conserves_example = (spend_all-conserves cpm_budget charges (omega arith)).0

authorize-half_spent_example : authorize (spend_all cpm_budget charges) ≡ 0
authorize-half_spent_example =
    authorize-half_spent cpm_budget charges refl (omega arith) (omega arith)
