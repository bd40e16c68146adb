-- ===== src/Cache/Campaigns.antt =====
-- CampaignCache of examples/campaign/campaign_cache.hpp: the budgets of the campaigns, loaded from
-- records. The handlers that `on_insert` and `on_remove` set change nothing here: the call of the first
-- is commented out, and the answer of the second is dropped.
pub mod Loading
use vanilla_rtb.Base.{ℕ, Bool, true, false, List, [], ◌∷◌, Option, none, some}
use vanilla_rtb.Budget.{CampaignBudget, default_budget}
use vanilla_rtb.Cache.Index.{UniqueIndex}
use vanilla_rtb.Cache.Entities.{Entity}
use vanilla_rtb.Cache.{Written, written, throws, escaped, insert, update, retrieve, remove, clear}

-- How `load` ends: it returns, or an exception leaves it.
pub data Loaded (C : Type 0) : Type 0 where
  loaded : C → Loaded C
  failed : C → Loaded C

module _ {Q E C : Type 0} (ix : UniqueIndex ℕ Q E C) (en : Entity ℕ CampaignBudget E) where
  -- CampaignCache::retrieve, the interface of the banker: the answer of the cache is dropped.
  unfoldable pub retrieve_budget : C → ℕ → CampaignBudget
  retrieve_budget c campaign_id = (retrieve ix en campaign_id default_budget c).0

  -- CampaignCache::insert
  unfoldable pub insert_budget : CampaignBudget → ℕ → C → Written C
  insert_budget budget campaign_id c = insert ix en campaign_id budget c

  -- CampaignCache::update, with the old key and the new one.
  unfoldable pub replace_budget : CampaignBudget → ℕ → ℕ → C → Written C
  replace_budget budget old_campaign_id new_campaign_id c =
      update ix en old_campaign_id new_campaign_id budget c

  -- CampaignCache::remove
  unfoldable pub remove_budget : ℕ → C → C × Bool
  remove_budget campaign_id c = (remove ix en campaign_id c, true)

  -- The std::for_each of `load`.
  unfoldable pub insert_all : List CampaignBudget → C → Loaded C
  insert_all [] c = loaded c
  insert_all (b ∷ bs) c = elim (insert ix en b.campaign_id b c) [
    | written c' ok ↦ insert_all bs c'
    | throws c' ↦ failed c'
    | escaped c' ↦ failed c'
  ]

  -- CampaignCache::load, of the records of the file, or of a file that does not open.
  unfoldable pub load : Option (List CampaignBudget) → C → Loaded C
  load none c = failed c
  load (some bs) c = insert_all bs (clear ix en c)
