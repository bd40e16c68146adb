-- ===== src/Tests/Caches.antt =====
-- Runs of rtb/datacache/entity_cache.hpp over a container with room for one campaign.
use vanilla_rtb.Base.{
  ℕ, ◌≡◌, refl, ap, true, false, none, some, List, [], ◌∷◌, Text, ◌==◌, if◌then◌else◌,
}
use vanilla_rtb.Budget.{
  kept_budget, MetricType, undefined, cpm, cpc, cpa, CampaignBudget, default_budget,
}
use vanilla_rtb.Cache.Campaigns.{load, loaded, insert_all}
use vanilla_rtb.Cache.Entities.{
  CampaignEntity, Archive, IsArchive, campaigns, store_campaign, store_base, retrieve_base,
}
use vanilla_rtb.Cache.{
  written, throws, insert, insert_data, update, update_data, retrieve, retrieve_range, clear,
}
use vanilla_rtb.Cache.Laws.{Inserted, Updated, insert-Inserted, update-Updated}
use vanilla_rtb.Tests.Slot.{slot, number, number-IsArchive, slot-IsCache}

-- Campaign 7 with the number 40.
abbrev seven : CampaignEntity
seven = record { base = record { blob = 40 ∷ [] }; campaign_id = 7 }

insert_first : insert slot (campaigns number) 7 40 none ≡ written (some seven) true
unfolding insert insert_data campaigns store_campaign store_base
insert_first = refl

insert_again : insert slot (campaigns number) 7 41 (some seven) ≡ written (some seven) false
unfolding insert insert_data campaigns store_campaign store_base
insert_again = refl

-- The segment is full, and stays so.
insert_full : insert slot (campaigns number) 8 41 (some seven) ≡ throws (some seven)
unfolding insert insert_data campaigns store_campaign store_base
insert_full = refl

retrieve_there : retrieve slot (campaigns number) 7 0 (some seven) ≡ (40, true)
unfolding retrieve campaigns retrieve_base
retrieve_there = refl

-- A vector that already holds something is enough for the answer `true`.
retrieve_range_missing :
    retrieve_range slot (campaigns number) 9 (3 ∷ []) (some seven) ≡ (3 ∷ [], true)
unfolding retrieve_range campaigns retrieve_base
retrieve_range_missing = refl

insert-Inserted_example :
    Inserted slot
      (campaigns number)
      (slot-IsCache number number-IsArchive)
      7
      40
      none
      (some seven)
      true
insert-Inserted_example =
    insert-Inserted slot (campaigns number) (slot-IsCache number number-IsArchive) 7 40 none
      (some seven) true insert_first

seven_updated :
    update slot (campaigns number) 7 7 50 (some seven)
    ≡ written (some (record seven { base = record { blob = 50 ∷ [] } })) true
unfolding update update_data campaigns store_campaign store_base
seven_updated = refl

update-Updated_example :
    Updated slot
      (campaigns number)
      (slot-IsCache number number-IsArchive)
      7
      50
      (some seven)
      (some (record seven { base = record { blob = 50 ∷ [] } }))
      true
update-Updated_example =
    update-Updated slot (campaigns number) (slot-IsCache number number-IsArchive) 7 50 (some seven)
      _ true seven_updated

abbrev metric_of : ℕ → MetricType
metric_of n = if n == 1 then cpm else if n == 2 then cpc else if n == 3 then cpa else undefined

abbrev metric_number : MetricType → ℕ
metric_number undefined = 0
metric_number cpm = 1
metric_number cpc = 2
metric_number cpa = 3

metric_of-number : (m : MetricType) → metric_of (metric_number m) ≡ m
metric_of-number undefined = refl
metric_of-number cpm = refl
metric_of-number cpc = refl
metric_of-number cpa = refl

-- An archive of a budget, which keeps its numbers in order.
abbrev pub numbers : CampaignBudget → Text
numbers b =
    b.campaign_id
    ∷ b.day_budget_limit
    ∷ b.day_budget_spent
    ∷ metric_number b.metric.type
    ∷ b.metric.value
    ∷ []

abbrev from_numbers : Text → CampaignBudget
from_numbers (i ∷ l ∷ s ∷ t ∷ v ∷ rest) = record {
  campaign_id = i;
  day_budget_limit = l;
  day_budget_spent = s;
  day_budget_overdraft = 0;
  metric = record { type = metric_of t; value = v };
}
from_numbers _ = default_budget

abbrev pub budgets : Archive CampaignBudget
budgets = record { write = numbers; read = from_numbers }

pub budgets-IsArchive : IsArchive budgets kept_budget
budgets-IsArchive = record {
  read-write = λ b rest.
      ap (λ t. record (kept_budget b) { metric = record { type = t; value = b.metric.value } })
        (metric_of-number b.metric.type);
}

-- Two records of campaign 7: the first counts.
abbrev records : List CampaignBudget
records =
    record default_budget {
      campaign_id = 7;
      day_budget_limit = 100;
      metric = record { type = cpc; value = 9 };
    }
    ∷ record default_budget {
      campaign_id = 7;
      day_budget_limit = 50;
      metric = record { type = cpc; value = 3 };
    }
    ∷ []

abbrev pub loaded_seven : CampaignEntity
loaded_seven = record { base = record { blob = 7 ∷ 100 ∷ 0 ∷ 2 ∷ 9 ∷ [] }; campaign_id = 7 }

records_loaded : load slot (campaigns budgets) (some records) none ≡ loaded (some loaded_seven)
unfolding load insert_all insert insert_data campaigns store_campaign store_base clear
records_loaded = refl
