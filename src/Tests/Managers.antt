-- ===== src/Tests/Managers.antt =====
-- A history of examples/campaign/campaign_manager_test.cpp, over a container with room for one campaign.
use vanilla_rtb.Base.{
  ℕ, ◌≡◌, ◌≢◌, ◌↔◌, refl, List, [], ◌∷◌, Option, none, some, Text, codes, true, arith, ==_iff,
}
use vanilla_rtb.Budget.{CampaignBudget, default_budget}
use vanilla_rtb.Cache.Index.{bad_alloc}
use vanilla_rtb.Cache.Entities.{
  CampaignEntity, campaigns, store_campaign, store_base, retrieve_base,
}
use vanilla_rtb.Cache.{
  insert, insert_data, update, update_data, remove, retrieve_range, retrieve_all,
}
use vanilla_rtb.Cache.Campaigns.{insert_budget, remove_budget}
use vanilla_rtb.Manager.{
  Request, put, post, del, get, silent, one, many, Reading, Log, serve_all, handle, on_put, on_post,
  on_del, on_get, compose,
}
use vanilla_rtb.Manager.Book.{book}
use vanilla_rtb.Manager.Follows.{Explains}
use vanilla_rtb.Manager.History.{serve_all-Explains}
use vanilla_rtb.Tests.Slot.{Slot, slot, slot-IsCache}
use vanilla_rtb.Tests.Caches.{budgets, budgets-IsArchive}
use vanilla_rtb.Tests.Dsl.{unsigned}

-- The data of a request is the limit of a budget for campaign 7.
abbrev budget_of : ℕ → CampaignBudget
budget_of limit = record default_budget { campaign_id = 7; day_budget_limit = limit }

abbrev first_limit : Text → Option CampaignBudget
first_limit [] = none
first_limit (c ∷ s) = some (budget_of c)

abbrev reading : Reading
reading = record { extract_request = first_limit; to_uint32 = unsigned }

abbrev by_seven : Text
by_seven = codes "budget/id/"

abbrev requests : List Request
requests =
    put by_seven (codes "7") (100 ∷ [])
    ∷ post by_seven (codes "7") (50 ∷ [])
    ∷ get by_seven (codes "7")
    ∷ get (codes "budget/") []
    ∷ del by_seven (codes "7")
    ∷ get (codes "budget") []
    ∷ []

requests_served :
    serve_all slot (campaigns budgets) reading requests none
    ≡ some (
      none,
      (put by_seven (codes "7") (100 ∷ []), some silent)
          ∷ (post by_seven (codes "7") (50 ∷ []), some silent)
          ∷ (get by_seven (codes "7"), some (one (budget_of 50)))
          ∷ (get (codes "budget/") [], none)
          ∷ (del by_seven (codes "7"), some silent)
          ∷ (get (codes "budget") [], some (many []))
          ∷ [],
    )
unfolding serve_all handle on_put on_post on_del on_get compose insert_budget remove_budget insert
    insert_data update update_data remove retrieve_range retrieve_all campaigns store_campaign
    store_base retrieve_base
requests_served = refl

matches_whole : (q k : ℕ) → (slot.matches q k ≡ true) ↔ (q ≡ k)
matches_whole q k = ==_iff q k

modify_roomy : (k : ℕ) (e : CampaignEntity) (c : Slot) → slot.modify k e c ≢ bad_alloc
modify_roomy k e none h = ground arith
modify_roomy k e (some x) h = ground arith

serve_all-Explains_example :
    (d : Slot) × (log : Log) × (serve_all slot (campaigns budgets) reading requests none
      ≡ some (d, log))
    × Explains slot
        (campaigns budgets)
        reading
        (book slot (campaigns budgets) none)
        log
        (book slot (campaigns budgets) d)
serve_all-Explains_example =
    serve_all-Explains slot (campaigns budgets) (slot-IsCache budgets budgets-IsArchive)
      matches_whole reading modify_roomy requests none
