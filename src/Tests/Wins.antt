-- ===== src/Tests/Wins.antt =====
-- A win notice of the service in examples/campaign/notification_service_test.cpp, and a banker that
-- follows it.
use vanilla_rtb.Base.{◌≡◌, refl, true, [], ◌∷◌, none, some, codes}
use vanilla_rtb.Budget.{CampaignBudget, default_budget, cpc, update_price}
use vanilla_rtb.Cache.{retrieve, update, update_data}
use vanilla_rtb.Cache.Entities.{
  CampaignEntity, campaigns, store_campaign, store_base, retrieve_base,
}
use vanilla_rtb.Cache.Campaigns.{replace_budget}
use vanilla_rtb.Notices.{Service, replied, thrown, retrieve_list, charge, win_notice}
use vanilla_rtb.Notices.Charged.{Charged, charge-Charged}
use vanilla_rtb.Tests.Caches.{budgets, budgets-IsArchive, numbers, loaded_seven}
use vanilla_rtb.Tests.Slot.{Slot, slot, slot-IsCache}

abbrev before : CampaignBudget
before = record default_budget {
  campaign_id = 7;
  day_budget_limit = 100;
  metric = record { type = cpc; value = 9 };
}

abbrev service : Service Slot
service = record {
  cache = some loaded_seven;
  win_notice_count = 0;
  day_budget_limit = 0;
  total_spent_amount = 0;
  distributed = [];
}

-- The price is more than is left, and what it exceeds by is lost.
abbrev after : CampaignBudget
after = record before { day_budget_limit = 0; day_budget_spent = 100 }

abbrev charged_seven : CampaignEntity
charged_seven = record { base = record { blob = numbers after }; campaign_id = 7 }

abbrev charged_service : Service Slot
charged_service = record {
  cache = some charged_seven;
  win_notice_count = 1;
  day_budget_limit = 0;
  total_spent_amount = 100;
  distributed = after ∷ [];
}

notice : charge slot (campaigns budgets) 7 130 service ≡ (charged_service, replied)
unfolding charge retrieve_list replace_budget update update_data update_price campaigns
    store_campaign store_base retrieve_base
notice = refl

-- Without a price nothing happens, and a price that is no number throws.
no_price :
    win_notice slot (campaigns budgets) (λ w t. some 7) [] (codes "7") service ≡ (service, replied)
unfolding win_notice
no_price = refl

bad_price :
    win_notice slot (campaigns budgets) (λ w t. none) (codes "x") [] service ≡ (service, thrown)
unfolding win_notice
bad_price = refl

held : retrieve slot (campaigns budgets) 7 default_budget (some loaded_seven) ≡ (before, true)
unfolding retrieve campaigns retrieve_base
held = refl

charge-Charged_example :
    Charged slot
      (campaigns budgets)
      (slot-IsCache budgets budgets-IsArchive)
      7
      130
      before
      default_budget
      service
      charged_service
charge-Charged_example =
    charge-Charged slot (campaigns budgets) (slot-IsCache budgets budgets-IsArchive) 7 130 before
      default_budget service charged_service held notice
