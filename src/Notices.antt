-- ===== src/Notices.antt =====
-- The win notices of examples/campaign/notification_service_test.cpp, which charge a campaign's budget,
-- and the bankers of examples/campaign/slavebanker_service_test.cpp, which follow it. The caches are those
-- of Cache/Campaigns.antt; boost::lexical_cast is a parameter; a reply is the same in every case.
pub mod Charged
use vanilla_rtb.Base.{
  ℕ, ◌+◌, ◌%◌, ◌^◌, List, [], ◌∷◌, ◌++◌, Option, none, some, Text, is_empty, if◌then◌else◌,
}
use vanilla_rtb.Budget.{CampaignBudget, kept_budget, update_price}
use vanilla_rtb.Cache.{Written, written, throws, escaped}
use vanilla_rtb.Cache.Index.{UniqueIndex}
use vanilla_rtb.Cache.Entities.{Entity}
use vanilla_rtb.Cache.Campaigns.{replace_budget}

-- The service: its cache, its notification_service_status, and the budgets that it has distributed, as
-- their archives carry them.
pub record Service (C : Type 0) : Type 0 where
  pub cache : C
  pub win_notice_count : ℕ
  pub day_budget_limit : ℕ
  pub total_spent_amount : ℕ
  pub distributed : List CampaignBudget

-- How the handler ends: with a reply, or by an exception.
pub data Ended : Type 0 where
  replied thrown : Ended

module _ {Q E C : Type 0} (ix : UniqueIndex ℕ Q E C) (en : Entity ℕ CampaignBudget E) where
  -- CampaignCache::retrieve into an empty vector, by a whole key.
  unfoldable pub retrieve_list : ℕ → C → List CampaignBudget
  retrieve_list campaign_id c = elim (ix.find campaign_id c) [
    | none ↦ []
    | some e ↦ en.retrieve e ∷ []
  ]

  -- The handler once the campaign and the price are known.
  unfoldable pub charge : ℕ → ℕ → Service C → Service C × Ended
  charge campaign_id price s = elim (retrieve_list campaign_id s.cache) [
    | [] ↦ (s, replied)
    | budget ∷ _ ↦
        let charged = update_price budget price in
        let noted = record s {
          day_budget_limit = charged.day_budget_limit;
          total_spent_amount = charged.day_budget_spent;
          win_notice_count = (s.win_notice_count + 1) % 2 ^ 64;
        } in
        elim (replace_budget ix en charged campaign_id campaign_id s.cache) [
          | written c ok ↦ (
            record noted { cache = c; distributed = s.distributed ++ kept_budget charged ∷ [] },
            replied,
          )
          | throws c ↦ (record noted { cache = c }, thrown)
          | escaped c ↦ (record noted { cache = c }, thrown)
        ]
  ]

  -- The handler, from the two parts of the match: an empty one is not cast.
  unfoldable pub win_notice : (ℕ → Text → Option ℕ) → Text → Text → Service C → Service C × Ended
  win_notice lexical_cast price_str campaign_id_str s =
      let id = lexical_cast 32 campaign_id_str in
      let price = lexical_cast 64 price_str in
      if is_empty campaign_id_str
      then (if is_empty price_str
          then (s, replied)
          else elim price [ none ↦ (s, thrown) | some _ ↦ (s, replied) ])
      else elim id [
        | none ↦ (s, thrown)
        | some i ↦
            if is_empty price_str
            then (s, replied)
            else elim price [ none ↦ (s, thrown) | some p ↦ charge i p s ]
      ]

  -- What a slave banker does with a budget that it receives.
  unfoldable pub follow : CampaignBudget → C → Written C
  follow budget c = replace_budget ix en budget budget.campaign_id budget.campaign_id c
